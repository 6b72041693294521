-- ===== src/Oauth/Tests.antt =====
-- The theorems of the OAuth server at one client, one code and one token.
use text.Mathlib.TextEquality.{eq_iff}
use mall.Base.{
  ◌≡◌, refl, ap, true, false, none, List, [], ◌∷◌, pos, arith, str_eq, String, if◌then◌else◌, ◌≤◌,
  ◌/◌, ◌*◌, ℕ, Bool-cases, inl, inr, decimal,
}
use mall.Kernel.{Error, Result, ok, err, new_aggregate_root, new_domain_error, not_found, Time}
use mall.Oauth.Values.{
  OauthClient, active, AuthorizationCode, RefreshToken, JwtLibrary, verify_secret, code_expired,
  mark_used, sign_jwt, new_refresh_token, token_expired,
}
use mall.Oauth.Service.{
  OauthService, OauthWorld, TokenExchangeInput, TokenRefreshInput, TokenResponse, default_code_ttl,
  default_access_ttl, default_refresh_ttl, second, authenticated, issue_tokens, take_code,
  take_token, exchange, refresh,
}
use mall.Oauth.Exchange.{IsClient, IsIssued, exchange_ok}
use mall.Oauth.Once.{ForgetsCodes, exchange_once}
use mall.Oauth.Rotation.{KeepsRevoked, refresh_once}

abbrev missing : Error
missing = new_domain_error not_found "not found"

abbrev shop : OauthClient
shop = record {
  root = new_aggregate_root (pos 1) 10 11;
  client_id = "shop";
  secret_hash = "tea";
  redirect_uris = "/done" ∷ [];
  scopes = "cart" ∷ [];
  status = active;
}

-- A list of codes, of which a text finds the first, and deletes all.
abbrev find_code : String → List AuthorizationCode → Result AuthorizationCode
find_code k [] = err missing
find_code k (a ∷ s) = let rest = find_code k s in if str_eq a.code k then ok a else rest

abbrev without_code : String → List AuthorizationCode → List AuthorizationCode
without_code k [] = []
without_code k (a ∷ s) = let rest = without_code k s in if str_eq a.code k then rest else a ∷ rest

abbrev one_claim : JwtLibrary
one_claim = record {
  new_numeric_date = λ t. t / second * second;
  signed_string = λ c secret. ok c.subject;
  parse_with_claims = λ token secret now. err missing;
  error_text = λ e. "unreadable";
}

abbrev server : OauthService OauthClient (List AuthorizationCode) RefreshToken
server = record {
  find_client = λ id c. if str_eq c.client_id id then ok c else err missing;
  save_code = λ a s. (none, a ∷ s);
  find_code = find_code;
  delete_code = λ k s. (none, without_code k s);
  save_token = λ t s. (none, t);
  find_token = λ k t. if str_eq t.id k then ok t else err missing;
  revoke_token = λ k t. (none, record t { revoked = true });
  jwt_secret = "mint";
  code_ttl = default_code_ttl;
  access_ttl = default_access_ttl;
  refresh_ttl = default_refresh_ttl;
  compare = λ h s. str_eq h s;
  hash_token = λ s. s;
  jwt = one_claim;
}

abbrev code : AuthorizationCode
code = record {
  code = "c0de";
  client_id = "shop";
  user_id = pos 7;
  redirect_uri = "/done";
  scope = "cart";
  expires_at = 600;
  used = false;
}

abbrev others : RefreshToken
others = record {
  id = "f00d";
  hash = "f00d";
  client_id = "other";
  user_id = pos 8;
  scope = "admin";
  expires_at = 600;
  revoked = false;
}

abbrev input : TokenExchangeInput
input = record {
  code = "c0de";
  client_id = "shop";
  client_secret = "tea";
  redirect_uri = "/elsewhere";
}

abbrev world : OauthWorld OauthClient (List AuthorizationCode) RefreshToken
world = record { clients = shop; codes = code ∷ []; tokens = others }

abbrev clock : ℕ → Time
clock n = n

abbrev response : TokenResponse
response = record {
  access_token = "7";
  refresh_token = "beef";
  expires_in = pos 900;
  scope = "cart";
}

abbrev exchanged : OauthWorld OauthClient (List AuthorizationCode) RefreshToken
exchanged = (exchange server input (ok "beef") clock world).1

was_exchanged : exchange server input (ok "beef") clock world ≡ (ok response, exchanged)
unfolding exchange authenticated verify_secret take_code code_expired mark_used issue_tokens
    sign_jwt new_refresh_token decimal
was_exchanged = refl

find_code_key :
    (k : String) (s : List AuthorizationCode) (a : AuthorizationCode)
    → find_code k s ≡ ok a
    → a.code ≡ k
find_code_key k [] a found = absurd (ground (arith, found))
find_code_key k (b ∷ s) a found = elim (Bool-cases (str_eq b.code k)) [
  | inl same ↦ ground (arith, found, same, eq_iff b.code k)
  | inr other ↦ find_code_key k s a (rw other at found)
]

find_code_deleted :
    (k : String) (s : List AuthorizationCode)
    → (e : Error) × (find_code k (without_code k s) ≡ err e)
find_code_deleted k [] = (missing, refl)
find_code_deleted k (b ∷ s) =
    let (e, gone) = find_code_deleted k s in
    elim (Bool-cases (str_eq b.code k)) [
      | inl same ↦ (e, rw same gone)
      | inr other ↦ (e, rw (other, other) gone)
    ]

server-ForgetsCodes : ForgetsCodes server
server-ForgetsCodes = record {
  find_key = find_code_key;
  find_deleted = λ k s deleted. find_code_deleted k s;
}

exchange_once_example :
    (e : Error) × (exchange server input (ok "cafe") clock exchanged ≡ (err e, exchanged))
exchange_once_example =
    exchange_once server server-ForgetsCodes input input (ok "beef") (ok "cafe") clock clock world
      exchanged response was_exchanged refl refl

exchange_ok_example :
    IsClient server "shop" "tea" shop
    × ((a : AuthorizationCode) × (find_code "c0de" (code ∷ []) ≡ ok a)
        × (a.client_id ≡ "shop")
        × (0 ≤ a.expires_at)
        × (a.used ≡ false)
        × IsIssued server a.user_id "shop" a.scope 1 others response exchanged.tokens)
exchange_ok_example =
    exchange_ok server input (ok "beef") clock world exchanged response was_exchanged

-- The token of another client.
abbrev refresh_input : TokenRefreshInput
refresh_input = record { refresh_token = "f00d"; client_id = "shop"; client_secret = "tea" }

abbrev refreshed : OauthWorld OauthClient (List AuthorizationCode) RefreshToken
refreshed = (refresh server refresh_input (ok "cafe") clock world).1

abbrev new_response : TokenResponse
new_response = record {
  access_token = "8";
  refresh_token = "cafe";
  expires_in = pos 900;
  scope = "admin";
}

was_refreshed : refresh server refresh_input (ok "cafe") clock world ≡ (ok new_response, refreshed)
unfolding refresh authenticated verify_secret take_token token_expired issue_tokens sign_jwt
    new_refresh_token decimal
was_refreshed = refl

server-KeepsRevoked : KeepsRevoked server
server-KeepsRevoked = record {
  find_key = λ k t rt found. ground (arith, found, eq_iff t.id k);
  find_revoked = λ k t rt done found. ground (arith, found);
  find_other = λ k t saved rt other found. absurd (ground (arith, found, other, eq_iff saved.id k));
}

refresh_once_example :
    (e : Error) × (refresh server refresh_input (ok "babe") clock refreshed ≡ (err e, refreshed))
refresh_once_example =
    refresh_once server server-KeepsRevoked refresh_input refresh_input (ok "cafe") (ok "babe")
      clock clock world refreshed new_response was_refreshed refl
      (λ h. absurd (ground (arith, ap (λ s. str_eq s "cafe") h))) refl
