-- ===== src/Oauth/Values.antt =====
-- domain/oauth/client.go, code.go and token.go. The random bytes that a call draws, as the
-- hexadecimal text or the error, are an argument; bcrypt, SHA-256 and the JWT library are
-- parameters.
use Prim.Native.String.{◌++◌ as concat}
use mall.Base.{
  ℕ, ◌+◌, String, Bool, true, false, not, ◌||◌, Option, none, some, List, [], ◌∷◌, if◌then◌else◌,
  pos, leb_ℤ, ltb, is_empty, str_eq, no_items, decimal, begins_with,
}
use mall.Kernel.{
  KernelId, Time, AggregateRoot, new_aggregate_root, Result, ok, err, Error, Outcome,
  new_domain_error, new_domain_error_with_cause, invalid_argument, internal, conflict,
  unauthenticated,
}

pub data ClientStatus : Type 0 where
  active disabled : ClientStatus

abbrev pub is_active_status : ClientStatus → Bool
is_active_status active = true
is_active_status disabled = false

pub record OauthClient : Type 0 where
  pub root : AggregateRoot (Unit {0})
  pub open root use *
  pub client_id : String
  pub secret_hash : String
  pub redirect_uris : List String
  pub scopes : List String
  pub status : ClientStatus

-- `bcrypt.CompareHashAndPassword(hash, secret) == nil`
abbrev pub Compare : Type 0
Compare = String → String → Bool

unfoldable pub verify_secret : Compare → OauthClient → String → Bool
verify_secret compare c secret = compare c.secret_hash secret

-- The loop of `IsValidRedirectURI` and of `HasScope`.
unfoldable pub contains : String → List String → Bool
contains s [] = false
contains s (x ∷ xs) = if str_eq x s then true else contains s xs

unfoldable pub is_valid_redirect_uri : OauthClient → String → Bool
is_valid_redirect_uri c uri = contains uri c.redirect_uris

unfoldable pub has_scope : OauthClient → String → Bool
has_scope c scope = contains scope c.scopes

pub record AuthorizationCode : Type 0 where
  pub code : String
  pub client_id : String
  pub user_id : KernelId
  pub redirect_uri : String
  pub scope : String
  pub expires_at : Time
  pub used : Bool

-- What `rand.Read` gives.
abbrev pub Random : Type 0
Random = Result String

unfoldable pub generate_code : Random → Result String
generate_code (ok hex) = ok hex
generate_code (err e) = err (new_domain_error_with_cause internal "failed to generate code" e)

abbrev coded : Result String → (String → AuthorizationCode) → Result AuthorizationCode
coded (err e) f = err e
coded (ok c) f = ok (f c)

unfoldable pub new_authorization_code :
    String → KernelId → String → String → ℕ → Random → Time → Result AuthorizationCode
new_authorization_code client_id user_id redirect_uri scope ttl random now =
    if is_empty client_id
    then err (new_domain_error invalid_argument "client_id must not be empty")
    else if leb_ℤ user_id (pos 0)
    then err (new_domain_error invalid_argument "user_id must be positive")
    else if is_empty redirect_uri
    then err (new_domain_error invalid_argument "redirect_uri must not be empty")
    else coded (generate_code random) (λ code. record {
      code = code;
      client_id = client_id;
      user_id = user_id;
      redirect_uri = redirect_uri;
      scope = scope;
      expires_at = now + ttl;
      used = false;
    })

-- `time.Now().After(a.ExpiresAt)`
unfoldable pub code_expired : Time → AuthorizationCode → Bool
code_expired now a = ltb a.expires_at now

unfoldable pub mark_used : AuthorizationCode → Outcome AuthorizationCode
mark_used a =
    if a.used
    then (a, some (new_domain_error conflict "authorization code already used"))
    else (record a { used = true }, none)

pub record RefreshToken : Type 0 where
  pub id : String
  pub hash : String
  pub client_id : String
  pub user_id : KernelId
  pub scope : String
  pub expires_at : Time
  pub revoked : Bool

abbrev tokened : Random → (String → RefreshToken) → Result RefreshToken
tokened (err e) f = err (new_domain_error_with_cause internal "failed to generate refresh token" e)
tokened (ok t) f = ok (f t)

-- `hash_token` is the hexadecimal SHA-256 of a text.
unfoldable pub new_refresh_token :
    (String → String) → String → KernelId → String → ℕ → Random → Time → Result RefreshToken
new_refresh_token hash_token client_id user_id scope ttl random now =
    if is_empty client_id
    then err (new_domain_error invalid_argument "client_id must not be empty")
    else if leb_ℤ user_id (pos 0)
    then err (new_domain_error invalid_argument "user_id must be positive")
    else tokened random (λ token. record {
      id = hash_token token;
      hash = hash_token token;
      client_id = client_id;
      user_id = user_id;
      scope = scope;
      expires_at = now + ttl;
      revoked = false;
    })

unfoldable pub token_expired : Time → RefreshToken → Bool
token_expired now r = ltb r.expires_at now

unfoldable pub revoke_token : RefreshToken → RefreshToken
revoke_token r = record r { revoked = true }

pub record JwtClaims : Type 0 where
  pub subject : String
  pub issued_at : Time
  pub expires_at : Time
  pub client_id : String
  pub scope : String

-- The JWT library with HS256: `NewNumericDate`, the signed text of claims, and the claims of a text
-- whose signature and times it finds valid at a time.
pub record JwtLibrary : Type 0 where
  pub new_numeric_date : Time → Time
  pub signed_string : JwtClaims → String → Result String
  pub parse_with_claims : String → String → Time → Result JwtClaims
  pub error_text : Error → String

abbrev signed : Result String → Result String
signed (ok s) = ok s
signed (err e) = err (new_domain_error_with_cause internal "failed to sign JWT" e)

unfoldable pub sign_jwt :
    JwtLibrary → KernelId → String → String → ℕ → String → Time → Result String
sign_jwt jwt user_id client_id scope ttl secret now = signed (
    jwt.signed_string
      (record {
        subject = decimal user_id;
        issued_at = jwt.new_numeric_date now;
        expires_at = jwt.new_numeric_date (now + ttl);
        client_id = client_id;
        scope = scope;
      })
      secret)

abbrev validated : (Error → String) → Result JwtClaims → Result JwtClaims
validated text (ok c) = ok c
validated text (err e) = err (new_domain_error unauthenticated (concat "invalid token: " (text e)))

unfoldable pub validate_jwt : JwtLibrary → String → String → Time → Result JwtClaims
validate_jwt jwt token secret now =
    validated jwt.error_text (jwt.parse_with_claims token secret now)

unfoldable pub is_valid_uri : String → Bool
is_valid_uri uri = begins_with "http://" uri || begins_with "https://" uri || begins_with "/" uri

-- The two loops of `NewClient`, with the error they return.
unfoldable pub check_uris : List String → Option Error
unfolding is_valid_uri
check_uris [] = none
check_uris (uri ∷ uris) =
    let rest = check_uris uris in
    if is_empty uri || not (is_valid_uri uri)
    then some (new_domain_error invalid_argument (concat "invalid redirect_uri: " uri))
    else rest

unfoldable pub check_scopes : List String → Option Error
check_scopes [] = none
check_scopes (s ∷ scopes) =
    let rest = check_scopes scopes in
    if is_empty s then some (new_domain_error invalid_argument "scope must not be empty") else rest

abbrev unless : {A : Type 0} → Option Error → Result A → Result A
unless none r = r
unless (some e) r = err e

abbrev hashed : Result String → (String → OauthClient) → Result OauthClient
hashed (err e) f = err (new_domain_error_with_cause internal "failed to hash client secret" e)
hashed (ok h) f = ok (f h)

-- `hash` is bcrypt's hash of the secret.
unfoldable pub new_client :
    KernelId
    → String
    → String
    → List String
    → List String
    → Result String
    → Time
    → Time
    → Result OauthClient
new_client id client_id secret redirect_uris scopes hash created updated =
    if is_empty client_id
    then err (new_domain_error invalid_argument "client_id must not be empty")
    else if is_empty secret
    then err (new_domain_error invalid_argument "client_secret must not be empty")
    else if no_items redirect_uris
    then err (new_domain_error invalid_argument "at least one redirect_uri is required")
    else unless (check_uris redirect_uris) (
        if no_items scopes
        then err (new_domain_error invalid_argument "at least one scope is required")
        else unless (check_scopes scopes) (
            hashed hash (λ h. record {
              root = new_aggregate_root id created updated;
              client_id = client_id;
              secret_hash = h;
              redirect_uris = redirect_uris;
              scopes = scopes;
              status = active;
            })))
