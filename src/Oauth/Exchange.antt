-- ===== src/Oauth/Exchange.antt =====
-- What an exchange of an authorization code, and of a refresh token, has checked.
use text.Mathlib.TextEquality.{eq_iff}
use mall.Base.{
  ℕ, suc, String, ◌≡◌, ap, sym, ◌∙◌, subst, Option, none, Option-cases, arith, true, false, ◌≤◌,
  inl, inr,
}
use mall.Kernel.{KernelId, Time, Error, Result, ok, err, Result-cases}
use mall.Oauth.Values.{
  OauthClient, AuthorizationCode, Random, RefreshToken, verify_secret, code_expired, mark_used,
  sign_jwt, new_refresh_token,
}
use mall.Oauth.Service.{
  OauthService, OauthWorld, TokenExchangeInput, TokenResponse, authenticated, take_code,
  issue_tokens, exchange,
}

module _ {C S T : Type 0} (svc : OauthService C S T) where
  -- A known client with its secret.
  abbrev pub IsClient : String → String → C → Type 0
  IsClient client_id secret clients =
      (c : OauthClient) × (svc.find_client client_id clients ≡ ok c)
      × (verify_secret svc.compare c secret ≡ true)

  -- What `issue_tokens` answers with, and the tokens that are stored then: the access token is
  -- signed for the user, the client and the scope, and the refresh token is the id of a new one for
  -- the same three, which was saved.
  abbrev pub IsIssued : KernelId → String → String → Time → T → TokenResponse → T → Type 0
  IsIssued user_id client_id scope now tokens r after =
      (r.scope ≡ scope)
      × (sign_jwt svc.jwt user_id client_id scope svc.access_ttl svc.jwt_secret now
          ≡ ok r.access_token)
      × ((t : RefreshToken) × (t.id ≡ r.refresh_token)
          × (t.user_id ≡ user_id)
          × (t.client_id ≡ client_id)
          × (t.scope ≡ scope)
          × (t.revoked ≡ false)
          × (svc.save_token t tokens ≡ (none, after)))

  new_refresh_token_of :
      (user_id : KernelId) (client_id scope : String) (draw : Random) (now : Time)
      (t : RefreshToken)
      → new_refresh_token svc.hash_token client_id user_id scope svc.refresh_ttl draw now ≡ ok t
      → (t.user_id ≡ user_id) × (t.client_id ≡ client_id) × (t.scope ≡ scope) × (t.revoked ≡ false)
  unfolding new_refresh_token
  new_refresh_token_of user_id client_id scope (err e) now t made = absurd (ground (arith, made))
  new_refresh_token_of user_id client_id scope (ok hex) now t made =
      (ground (arith, made), ground (arith, made), ground (arith, made), ground (arith, made))

  pub issue_tokens-IsIssued :
      (user_id : KernelId) (client_id scope : String) (draw : Random) (clock : ℕ → Time)
      (w : OauthWorld C S T) (r : TokenResponse)
      → (issue_tokens svc user_id client_id scope draw clock w).0 ≡ ok r
      → IsIssued user_id client_id scope
          (clock 0)
          w.tokens
          r
          (issue_tokens svc user_id client_id scope draw clock w).1.tokens
  unfolding issue_tokens
  issue_tokens-IsIssued user_id client_id scope draw clock w r h =
      let sign = sign_jwt svc.jwt user_id client_id scope svc.access_ttl svc.jwt_secret (clock 0) in
      let made =
        new_refresh_token svc.hash_token client_id user_id scope svc.refresh_ttl draw (clock 1) in
      elim (Result-cases sign) [
        | inr (e, unsigned) ↦ absurd (ground (arith, h, unsigned))
        | inl (a, signed) ↦ elim (Result-cases made) [
          | inr (e, none_made) ↦ absurd (ground (arith, h, signed, none_made))
          | inl (t, new) ↦
              let (user, client, same, live) =
                new_refresh_token_of user_id client_id scope draw (clock 1) t new in
              elim (Option-cases (svc.save_token t w.tokens).0) [
                | inr (e, failed) ↦ absurd (ground (arith, h, signed, new, failed))
                | inl saved ↦
                    let end : (issue_tokens svc user_id client_id scope draw clock w).1.tokens
                        ≡ (svc.save_token t w.tokens).1 =
                      ground (arith, signed, new, saved) in
                    (
                      ground (arith, h, signed, new, saved),
                      ground (arith, h, signed, new, saved),
                      (
                        t,
                        ground (arith, h, signed, new, saved),
                        user,
                        client,
                        same,
                        live,
                        ap (λ (e : Option Error). (e, (svc.save_token t w.tokens).1)) saved
                            ∙ ap (λ (x : T). (none, x)) (sym end),
                      ),
                    )
              ]
        ]
      ]

  pub issue_tokens_ok :
      (user_id : KernelId) (client_id scope : String) (draw : Random) (clock : ℕ → Time)
      (w w' : OauthWorld C S T) (r : TokenResponse)
      → issue_tokens svc user_id client_id scope draw clock w ≡ (ok r, w')
      → IsIssued user_id client_id scope (clock 0) w.tokens r w'.tokens
  issue_tokens_ok user_id client_id scope draw clock w w' r h =
      subst
        (λ (v : OauthWorld C S T). IsIssued user_id client_id scope (clock 0) w.tokens r v.tokens)
        (ap (λ (o : Result TokenResponse × OauthWorld C S T). o.1) h)
        (issue_tokens-IsIssued user_id client_id scope draw clock w r
          (ap (λ (o : Result TokenResponse × OauthWorld C S T). o.0) h))

  -- Where a code is exchanged: the client is known and gave its secret, the code is stored for that
  -- client, has not expired and is not marked as used, and both tokens that are returned are for
  -- the user and the scope that the code was issued for, the refresh token being stored then.
  pub exchange_ok :
      (input : TokenExchangeInput) (draw : Random) (clock : ℕ → Time) (w w' : OauthWorld C S T)
      (r : TokenResponse)
      → exchange svc input draw clock w ≡ (ok r, w')
      → IsClient input.client_id input.client_secret w.clients
        × ((a : AuthorizationCode) × (svc.find_code input.code w.codes ≡ ok a)
            × (a.client_id ≡ input.client_id)
            × (clock 0 ≤ a.expires_at)
            × (a.used ≡ false)
            × IsIssued a.user_id input.client_id a.scope (clock 1) w.tokens r w'.tokens)
  unfolding exchange authenticated take_code code_expired mark_used
  exchange_ok input draw clock w w' r h =
      elim (Result-cases (svc.find_client input.client_id w.clients)) [
        | inr (e, unknown) ↦ absurd (ground (arith, h, unknown))
        | inl (c, known) ↦ elim (Result-cases (svc.find_code input.code w.codes)) [
          | inr (e, missing) ↦ absurd (ground (arith, h, known, missing))
          | inl (a, found) ↦
              let secret : verify_secret svc.compare c input.client_secret ≡ true =
                ground (arith, h, known) in
              let mine : a.client_id ≡ input.client_id =
                ground (arith, h, known, found, eq_iff a.client_id input.client_id) in
              let fresh : clock 0 ≤ a.expires_at = ground (arith, h, known, found) in
              let unused : a.used ≡ false = ground (arith, h, known, found) in
              let issued : issue_tokens svc a.user_id input.client_id a.scope draw
                    (λ n. clock (suc n)) (record w { codes = (svc.delete_code a.code w.codes).1 })
                  ≡ (ok r, w') =
                ground (arith, h, known, found) in
              (
                (c, known, secret),
                (
                  a,
                  found,
                  mine,
                  fresh,
                  unused,
                  issue_tokens_ok a.user_id input.client_id a.scope draw (λ n. clock (suc n)) _ w' r
                      issued,
                ),
              )
        ]
      ]
