-- ===== src/Middleware/Bearer.antt =====
-- The token that domain/oauth/token.go signs, as interfaces/middleware/auth.go reads it.
use Prim.Native.String.{◌++◌ as concat, [] as no_text, ◌∷◌ as before}
use Prim.Native.String.append.{cons, nil}
use mall.Base.{
  ℕ, ◌+◌, ◌≤◌, ◌<◌, ◌*◌, ◌/◌, ◌%◌, String, ◌≡◌, refl, ap, some, arith, IsInt64, decimal,
  after_prefix,
}
use mall.Kernel.{KernelId, Time, ok, Error}
use mall.Oauth.Values.{JwtLibrary, JwtClaims, sign_jwt, validate_jwt}
use mall.Oauth.Service.{second}
use mall.Middleware.UserText.{parse_int64-decimal}
use mall.Middleware.Auth.{passed, auth_middleware}

after_prefix-concat : (p s : String) → after_prefix p (concat p s) ≡ some s
unfolding after_prefix
after_prefix-concat no_text s = ap some (nil s)
after_prefix-concat (before c p) s = rw (cons c p s) (ground (arith, after_prefix-concat p s))

-- The seconds that a float64, which a JSON number becomes, has exactly.
abbrev pub exact_seconds : ℕ
exact_seconds = 9007199254740992

-- What is relied on of golang-jwt v4 at its default precision: a numeric date is cut to the whole
-- second, and claims that it has signed, with times of whole seconds, it finds again with the same
-- secret, from their time of issue until before they expire.
pub record ReadsSigned (jwt : JwtLibrary) : Type 0 where
  pub truncates : (t : Time) → jwt.new_numeric_date t ≡ t / second * second
  pub parse_signed :
      (c : JwtClaims) (secret token : String) (now : Time)
      → c.issued_at % second ≡ 0
      → c.expires_at % second ≡ 0
      → c.expires_at < exact_seconds * second
      → jwt.signed_string c secret ≡ ok token
      → c.issued_at ≤ now
      → now < c.expires_at
      → jwt.parse_with_claims token secret now ≡ ok c

-- Over a library that cuts times to seconds and reads what it has signed: the token that `sign_jwt`
-- makes for a user, a client and a scope is passed by the middleware with the same secret from then
-- on and before the end of its time to live, cut to the whole second, and the request goes on as
-- that user, whose id is any int64, with that client and scope. The end is within the seconds that
-- a float64 has exactly.
pub auth_middleware-sign_jwt :
    (jwt : JwtLibrary) (text : Error → String) (user_id : KernelId)
    (client_id scope secret token : String) (ttl : ℕ) (now later : Time)
    → ReadsSigned jwt
    → IsInt64 user_id
    → now + ttl < exact_seconds * second
    → sign_jwt jwt user_id client_id scope ttl secret now ≡ ok token
    → now ≤ later
    → later < (now + ttl) / second * second
    → auth_middleware jwt secret text (concat "Bearer " token) later
      ≡ passed (record { user_id = user_id; client_id = client_id; scope = scope })
unfolding sign_jwt auth_middleware validate_jwt
auth_middleware-sign_jwt jwt text user_id client_id scope secret token ttl now later reads range
      small signed after fresh =
    let claims : JwtClaims = record {
      subject = decimal user_id;
      issued_at = jwt.new_numeric_date now;
      expires_at = jwt.new_numeric_date (now + ttl);
      client_id = client_id;
      scope = scope;
    } in
    let issued = reads.truncates now in
    let expires = reads.truncates (now + ttl) in
    let text_signed : jwt.signed_string claims secret ≡ ok token = ground (arith, signed) in
    let parsed =
      reads.parse_signed claims secret token later (rw issued (omega arith))
        (rw expires (omega arith)) (rw expires (omega (arith, small))) text_signed
        (rw issued (omega (arith, after))) (rw expires fresh) in
    rw (after_prefix-concat "Bearer " token, parsed, parse_int64-decimal user_id range) refl
