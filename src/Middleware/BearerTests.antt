-- ===== src/Middleware/BearerTests.antt =====
-- The theorem of the bearer token at a library that signs the claims of one user with one secret.
use text.Mathlib.TextEquality.{eq_iff}
use Prim.Native.String.{◌++◌ as concat}
use mall.Base.{
  ◌≡◌, refl, ap, sym, subst, Bool, true, ◌&&◌, ◌==◌, String, str_eq, leb, ltb, ◌≤◌, ◌<◌, ◌/◌, ◌*◌,
  if◌then◌else◌, arith, pos, decimal, Bool-cases, inl, inr,
}
use mall.Kernel.{Result, ok, err, Time, new_domain_error, internal, unauthenticated}
use mall.Oauth.Service.{second}
use mall.Oauth.Values.{JwtLibrary, JwtClaims, sign_jwt}
use mall.Middleware.Auth.{auth_middleware, passed}
use mall.Middleware.Bearer.{ReadsSigned, auth_middleware-sign_jwt}

abbrev ann : JwtClaims
ann = record {
  subject = "42";
  issued_at = 10000000000;
  expires_at = 910000000000;
  client_id = "shop";
  scope = "cart";
}

abbrev is_ann : JwtClaims → Bool
is_ann c =
    str_eq c.subject "42"
    && (c.issued_at == 10000000000)
    && (c.expires_at == 910000000000)
    && str_eq c.client_id "shop"
    && str_eq c.scope "cart"

abbrev is_signed : String → String → Bool
is_signed token secret = str_eq token (concat "signed with " secret)

abbrev sign_ann : JwtClaims → String → Result String
sign_ann c secret =
    if is_ann c
    then ok (concat "signed with " secret)
    else err (new_domain_error internal "unknown claims")

abbrev read_ann : String → String → Time → Result JwtClaims
read_ann token secret now =
    if is_signed token secret && leb ann.issued_at now && ltb now ann.expires_at
    then ok ann
    else err (new_domain_error unauthenticated "token is invalid")

abbrev library : JwtLibrary
library = record {
  new_numeric_date = λ t. t / second * second;
  signed_string = sign_ann;
  parse_with_claims = read_ann;
  error_text = λ e. "refused";
}

is_ann_lem : (c : JwtClaims) → is_ann c ≡ true → c ≡ ann
is_ann_lem c h =
    let subject : c.subject ≡ "42" = ground (arith, h, eq_iff c.subject "42") in
    let issued : c.issued_at ≡ 10000000000 = ground (arith, h) in
    let expires : c.expires_at ≡ 910000000000 = ground (arith, h) in
    let client : c.client_id ≡ "shop" = ground (arith, h, eq_iff c.client_id "shop") in
    let scope : c.scope ≡ "cart" = ground (arith, h, eq_iff c.scope "cart") in
    let fields : record {
      subject = c.subject;
      issued_at = c.issued_at;
      expires_at = c.expires_at;
      client_id = c.client_id;
      scope = c.scope;
    }
        ≡ ann =
      rw (subject, issued, expires, client, scope) refl in
    fields

is_signed_refl :
    (secret : String) → str_eq (concat "signed with " secret) (concat "signed with " secret) ≡ true
is_signed_refl secret =
    ground (arith, eq_iff (concat "signed with " secret) (concat "signed with " secret))

read_signed :
    (c : JwtClaims) (secret token : String) (now : Time)
    → sign_ann c secret ≡ ok token
    → c.issued_at ≤ now
    → now < c.expires_at
    → read_ann token secret now ≡ ok c
read_signed c secret token now signed after fresh = elim (Bool-cases (is_ann c)) [
  | inr other ↦ absurd (ground (arith, signed, other))
  | inl same ↦
      let text : concat "signed with " secret ≡ token = ground (arith, signed, same) in
      let claims = is_ann_lem c same in
      let issued : ann.issued_at ≤ now =
        subst (λ (x : JwtClaims). x.issued_at ≤ now) claims after in
      let expires : now < ann.expires_at =
        subst (λ (x : JwtClaims). now < x.expires_at) claims fresh in
      let after' : leb ann.issued_at now ≡ true = ground (arith, issued) in
      let fresh' : ltb now ann.expires_at ≡ true = ground (arith, expires) in
      rw (sym text, is_signed_refl secret, after', fresh') (ap ok (sym claims))
]

library-ReadsSigned : ReadsSigned library
library-ReadsSigned = record {
  truncates = λ t. refl;
  parse_signed = λ c secret token now whole whole' small signed after fresh.
      read_signed c secret token now signed after fresh;
}

token_signed :
    sign_jwt library (pos 42) "shop" "cart" 900000000000 "mint" 10500000000 ≡ ok "signed with mint"
unfolding sign_jwt decimal
token_signed = refl

auth_middleware-sign_jwt_example :
    auth_middleware library "mint" (λ e. "refused") "Bearer signed with mint" 909999999999
    ≡ passed (record { user_id = pos 42; client_id = "shop"; scope = "cart" })
auth_middleware-sign_jwt_example =
    auth_middleware-sign_jwt library (λ e. "refused") (pos 42) "shop" "cart" "mint"
      "signed with mint" 900000000000 10500000000 909999999999 library-ReadsSigned (omega arith)
      (omega arith) token_signed (omega arith) (omega arith)
