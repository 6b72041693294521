-- ===== src/Middleware/Auth.antt =====
-- interfaces/middleware/auth.go, saga_auth.go and negotiation.go, and the status of an error in
-- interfaces/rest/common.go. A middleware refuses a request with a status and a text, or passes it
-- on with what it knows.
use mall.Base.{
  ℕ, String, Bool, true, false, not, Option, none, some, List, [], ◌∷◌, if◌then◌else◌, ℤ, is_empty,
  str_eq, after_prefix, no_items,
}
use mall.Kernel.{
  KernelId, Time, Result, ok, err, Error, has_code, is_not_found, already_exists, invalid_argument,
  unauthenticated, permission_denied,
}
use mall.Identity.User.{User, has_role, admin}
use mall.Oauth.Values.{JwtLibrary, JwtClaims, validate_jwt}
use mall.Middleware.UserText.{parse_int64}

pub data Gate (A : Type 0) : Type 0 where
  refused : ℕ → String → Gate A
  passed : A → Gate A

pub record UserInfo : Type 0 where
  pub user_id : ℤ
  pub client_id : String
  pub scope : String

abbrev info_of : JwtClaims → UserInfo
info_of claims = record {
  user_id = (parse_int64 claims.subject).0;
  client_id = claims.client_id;
  scope = claims.scope;
}

abbrev info_or_refused : (Error → String) → Result JwtClaims → Gate UserInfo
info_or_refused text (err e) = refused 401 (text e)
info_or_refused text (ok claims) = passed (info_of claims)

abbrev bearer_checked :
    JwtLibrary → String → Time → (Error → String) → Option String → Gate UserInfo
bearer_checked jwt secret now text none = refused 401 "missing or malformed authorization header"
bearer_checked jwt secret now text (some token) =
    info_or_refused text (validate_jwt jwt token secret now)

-- An empty header has no such prefix. `text` is an error's `Error()`.
unfoldable pub auth_middleware :
    JwtLibrary → String → (Error → String) → String → Time → Gate UserInfo
auth_middleware jwt secret text header now =
    bearer_checked jwt secret now text (after_prefix "Bearer " header)

abbrev admin_checked : Result User → UserInfo → Gate UserInfo
admin_checked (err e) info = refused 401 "user not found"
admin_checked (ok user) info =
    if not (has_role admin user) then refused 403 "admin role required" else passed info

-- The user of the request's context, if there is one, is looked up.
unfoldable pub admin_middleware :
    {S : Type 0} → (KernelId → S → Result User) → Option UserInfo → S → Gate UserInfo
admin_middleware find none s = refused 401 "user not authenticated"
admin_middleware find (some info) s = admin_checked (find info.user_id s) info

-- With no secret every request passes.
unfoldable pub saga_auth_middleware : String → String → Gate (Unit {0})
saga_auth_middleware secret header =
    if is_empty secret
    then passed tt
    else if not (str_eq header secret)
    then refused 403 "invalid saga secret"
    else passed tt

abbrev supports : String → List String → Bool
supports c [] = false
supports c (x ∷ xs) = if str_eq x c then true else supports c xs

abbrev keep_supported : (String → String) → List String → List String → List String
keep_supported lower supported [] = []
keep_supported lower supported (c ∷ cs) =
    let rest = keep_supported lower supported cs in
    if supports (lower c) supported then c ∷ rest else rest

-- `lower` is strings.ToLower, `supported` the keys of the map, in the order of its iteration.
unfoldable pub intersect : (String → String) → List String → List String → List String
intersect lower requested supported =
    if no_items requested then supported else keep_supported lower supported requested

-- `writeDomainError`'s status.
unfoldable pub domain_error_status : Error → ℕ
domain_error_status e =
    if is_not_found e
    then 404
    else if has_code e already_exists
    then 409
    else if has_code e invalid_argument
    then 400
    else if has_code e unauthenticated
    then 401
    else if has_code e permission_denied
    then 403
    else 500
