-- ===== src/Oauth/Service.antt =====
-- domain/oauth/service.go, over its three repositories. Logging is left out; `draw` is what the
-- call's random reader gives, `now` its readings of the clock, in their order.
use mall.Base.{ℕ, suc, ◌*◌, ◌/◌, String, not, ◌&&◌, Option, is_empty, str_eq, ℤ, pos}
use mall.Kernel.{
  KernelId, Time, Result, ok, Error, Action, ◌>>=◌, ◌>>◌, pure, raise_if, from_result, from_outcome,
  from_save, new_domain_error, permission_denied, invalid_argument, unauthenticated,
}
use mall.Oauth.Values.{
  OauthClient, Compare, is_active_status, verify_secret, is_valid_redirect_uri, has_scope,
  AuthorizationCode, Random, new_authorization_code, code_expired, mark_used, RefreshToken,
  new_refresh_token, token_expired, JwtLibrary, sign_jwt,
}

-- A nanosecond is the unit.
abbrev pub second : ℕ
second = 1000000000

-- The repositories. The methods of the tokens' and the codes' return an error or nothing.
pub record OauthService (C S T : Type 0) : Type 0 where
  pub find_client : String → C → Result OauthClient
  pub save_code : AuthorizationCode → S → Option Error × S
  pub find_code : String → S → Result AuthorizationCode
  pub delete_code : String → S → Option Error × S
  pub save_token : RefreshToken → T → Option Error × T
  pub find_token : String → T → Result RefreshToken
  pub revoke_token : String → T → Option Error × T
  pub jwt_secret : String
  pub code_ttl : ℕ
  pub access_ttl : ℕ
  pub refresh_ttl : ℕ
  -- the libraries
  pub compare : Compare
  pub hash_token : String → String
  pub jwt : JwtLibrary

-- What `NewOAuthService` sets.
abbrev pub default_code_ttl : ℕ
default_code_ttl = 10 * (60 * second)

abbrev pub default_access_ttl : ℕ
default_access_ttl = 15 * (60 * second)

abbrev pub default_refresh_ttl : ℕ
default_refresh_ttl = 30 * (24 * (3600 * second))

pub record OauthWorld (C S T : Type 0) : Type 0 where
  pub clients : C
  pub codes : S
  pub tokens : T

pub record AuthorizeInput : Type 0 where
  pub client_id : String
  pub redirect_uri : String
  pub scope : String
  pub user_id : KernelId

pub record AuthorizeOutput : Type 0 where
  pub code : String
  pub redirect_uri : String

pub record TokenExchangeInput : Type 0 where
  pub code : String
  pub client_id : String
  pub client_secret : String
  pub redirect_uri : String

pub record TokenRefreshInput : Type 0 where
  pub refresh_token : String
  pub client_id : String
  pub client_secret : String

pub record RevokeInput : Type 0 where
  pub token : String
  pub client_id : String
  pub client_secret : String

pub record TokenResponse : Type 0 where
  pub access_token : String
  pub refresh_token : String
  pub expires_in : ℤ
  pub scope : String

module _ {C S T : Type 0} (svc : OauthService C S T) where
  abbrev World : Type 0
  World = OauthWorld C S T

  abbrev in_codes : {A : Type 0} → Action S A → Action World A
  in_codes m w = let (r, s) = m w.codes in (r, record w { codes = s })

  abbrev in_tokens : {A : Type 0} → Action T A → Action World A
  in_tokens m w = let (r, t) = m w.tokens in (r, record w { tokens = t })

  unfoldable pub authorize : AuthorizeInput → Random → Time → Action World AuthorizeOutput
  authorize input draw now w =
      (do
        client ← from_result (svc.find_client input.client_id w.clients)
        raise_if (not (is_active_status client.status))
            (new_domain_error permission_denied "client is disabled")
        raise_if (not (is_valid_redirect_uri client input.redirect_uri))
            (new_domain_error invalid_argument "redirect_uri mismatch")
        raise_if (not (is_empty input.scope) && not (has_scope client input.scope))
            (new_domain_error invalid_argument "requested scope not allowed")
        code ← from_result (
            new_authorization_code input.client_id input.user_id input.redirect_uri input.scope
              svc.code_ttl draw now)
        in_codes (from_save (svc.save_code code))
        pure (record { code = code.code; redirect_uri = input.redirect_uri }))
        w

  -- The client that a call names, with its secret.
  unfoldable pub authenticated : String → String → Action World OauthClient
  authenticated client_id secret w =
      (do
        client ← from_result (svc.find_client client_id w.clients)
        raise_if (not (verify_secret svc.compare client secret))
            (new_domain_error unauthenticated "invalid client credentials")
        pure client)
        w

  -- The two tokens of a user; the new refresh token is saved.
  unfoldable pub issue_tokens :
      KernelId → String → String → Random → (ℕ → Time) → Action World TokenResponse
  issue_tokens user_id client_id scope draw clock = do
    access_token ←
        from_result
          (sign_jwt svc.jwt user_id client_id scope svc.access_ttl svc.jwt_secret (clock 0))
    refresh_token ←
        from_result
          (new_refresh_token svc.hash_token client_id user_id scope svc.refresh_ttl draw (clock 1))
    in_tokens (from_save (svc.save_token refresh_token))
    pure (record {
      access_token = access_token;
      refresh_token = refresh_token.id;
      expires_in = pos (svc.access_ttl / second);
      scope = scope;
    })

  -- The deletion's error is logged and otherwise ignored.
  abbrev delete_quietly : String → Action World (Unit {0})
  delete_quietly code w = (ok tt, record w { codes = (svc.delete_code code w.codes).1 })

  abbrev revoke_quietly : String → Action World (Unit {0})
  revoke_quietly id w = (ok tt, record w { tokens = (svc.revoke_token id w.tokens).1 })

  -- A code that was found is checked and marked; the mark is not saved.
  unfoldable pub take_code :
      Result AuthorizationCode → TokenExchangeInput → Time → Action World AuthorizationCode
  take_code found input now = do
    code ← from_result found
    raise_if (not (str_eq code.client_id input.client_id))
        (new_domain_error invalid_argument "code was not issued for this client")
    raise_if (code_expired now code)
        (new_domain_error invalid_argument "authorization code expired")
    from_outcome (mark_used code)

  unfoldable pub exchange : TokenExchangeInput → Random → (ℕ → Time) → Action World TokenResponse
  exchange input draw clock w =
      (do
        authenticated input.client_id input.client_secret
        code ← take_code (svc.find_code input.code w.codes) input (clock 0)
        delete_quietly code.code
        issue_tokens code.user_id input.client_id code.scope draw (λ n. clock (suc n)))
        w

  unfoldable pub take_token : Result RefreshToken → Time → Action World RefreshToken
  take_token found now = do
    rt ← from_result found
    raise_if rt.revoked (new_domain_error unauthenticated "refresh token revoked")
    raise_if (token_expired now rt) (new_domain_error unauthenticated "refresh token expired")
    pure rt

  unfoldable pub refresh : TokenRefreshInput → Random → (ℕ → Time) → Action World TokenResponse
  refresh input draw clock w =
      (do
        authenticated input.client_id input.client_secret
        rt ← take_token (svc.find_token input.refresh_token w.tokens) (clock 0)
        revoke_quietly rt.id
        issue_tokens rt.user_id input.client_id rt.scope draw (λ n. clock (suc n)))
        w

  unfoldable pub revoke : RevokeInput → Action World (Unit {0})
  revoke input w =
      (do
        authenticated input.client_id input.client_secret
        in_tokens (from_save (svc.revoke_token input.token)))
        w
