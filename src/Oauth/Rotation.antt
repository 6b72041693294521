-- ===== src/Oauth/Rotation.antt =====
-- The rotation of refresh tokens: domain/oauth/service.go, Refresh.
use mall.Base.{
  ℕ, suc, String, ◌≡◌, ◌≢◌, ap, sym, ◌∙◌, Option, none, arith, true, false, ◌≤◌, Bool-cases, inl,
  inr,
}
use mall.Kernel.{Time, ok, err, Error, Result-cases, new_domain_error, unauthenticated}
use mall.Oauth.Values.{Random, RefreshToken, verify_secret, token_expired}
use mall.Oauth.Service.{
  OauthService, OauthWorld, TokenRefreshInput, TokenResponse, authenticated, take_token,
  issue_tokens, refresh,
}
use mall.Oauth.Exchange.{IsClient, IsIssued, issue_tokens_ok}

module _ {C S T : Type 0} (svc : OauthService C S T) where
  -- What is relied on of the stored tokens: a token is found by its id, and after it was revoked
  -- only as revoked; saving a token leaves the others.
  pub record KeepsRevoked : Type 0 where
    pub find_key : (k : String) (t : T) (rt : RefreshToken) → svc.find_token k t ≡ ok rt → rt.id ≡ k
    pub find_revoked :
        (k : String) (t : T) (rt : RefreshToken)
        → (svc.revoke_token k t).0 ≡ none
        → svc.find_token k (svc.revoke_token k t).1 ≡ ok rt
        → rt.revoked ≡ true
    pub find_other :
        (k : String) (t : T) (saved rt : RefreshToken)
        → k ≢ saved.id
        → svc.find_token k (svc.save_token saved t).1 ≡ ok rt
        → svc.find_token k t ≡ ok rt

  -- Where a refresh succeeds: the client is known and gave its secret, the token is stored, was not
  -- revoked and has not expired, and the new tokens are for its user and its scope, issued after it
  -- was revoked.
  pub refresh_ok :
      (input : TokenRefreshInput) (draw : Random) (clock : ℕ → Time) (w w' : OauthWorld C S T)
      (r : TokenResponse)
      → refresh svc input draw clock w ≡ (ok r, w')
      → IsClient svc input.client_id input.client_secret w.clients
        × ((rt : RefreshToken) × (svc.find_token input.refresh_token w.tokens ≡ ok rt)
            × (rt.revoked ≡ false)
            × (clock 0 ≤ rt.expires_at)
            × IsIssued svc rt.user_id input.client_id rt.scope
                (clock 1)
                (svc.revoke_token rt.id w.tokens).1
                r
                w'.tokens)
  unfolding refresh authenticated take_token token_expired
  refresh_ok input draw clock w w' r h =
      elim (Result-cases (svc.find_client input.client_id w.clients)) [
        | inr (e, unknown) ↦ absurd (ground (arith, h, unknown))
        | inl (c, known) ↦ elim (Result-cases (svc.find_token input.refresh_token w.tokens)) [
          | inr (e, missing) ↦ absurd (ground (arith, h, known, missing))
          | inl (rt, found) ↦
              let secret : verify_secret svc.compare c input.client_secret ≡ true =
                ground (arith, h, known) in
              let live : rt.revoked ≡ false = ground (arith, h, known, found) in
              let fresh : clock 0 ≤ rt.expires_at = ground (arith, h, known, found) in
              let revoked : OauthWorld C S T = record w {
                tokens = (svc.revoke_token rt.id w.tokens).1;
              } in
              let issued : issue_tokens svc rt.user_id input.client_id rt.scope draw
                    (λ n. clock (suc n)) revoked
                  ≡ (ok r, w') =
                ground (arith, h, known, found) in
              (
                (c, known, secret),
                (
                  rt,
                  found,
                  live,
                  fresh,
                  issue_tokens_ok svc rt.user_id input.client_id rt.scope draw (λ n. clock (suc n))
                      revoked w' r issued,
                ),
              )
        ]
      ]

  -- A token that is missing or found as revoked gives nothing.
  refresh_dead :
      (input : TokenRefreshInput) (draw : Random) (clock : ℕ → Time) (w : OauthWorld C S T)
      → ((rt : RefreshToken)
          → svc.find_token input.refresh_token w.tokens ≡ ok rt
          → rt.revoked ≡ true)
      → (e : Error) × (refresh svc input draw clock w ≡ (err e, w))
  unfolding refresh authenticated take_token
  refresh_dead input draw clock w dead =
      elim (Result-cases (svc.find_client input.client_id w.clients)) [
        | inr (e, unknown) ↦ (e, ground (arith, unknown))
        | inl (c, known) ↦ elim (Bool-cases (verify_secret svc.compare c input.client_secret)) [
          | inr wrong ↦ (
            new_domain_error unauthenticated "invalid client credentials",
            ground (arith, known, wrong),
          )
          | inl secret ↦ elim (Result-cases (svc.find_token input.refresh_token w.tokens)) [
            | inr (e, missing) ↦ (e, ground (arith, known, secret, missing))
            | inl (rt, found) ↦ (
              new_domain_error unauthenticated "refresh token revoked",
              ground (arith, known, secret, found, dead rt found),
            )
          ]
        ]
      ]

  -- Over tokens that stay revoked: where a refresh token has given new tokens, its revocation did
  -- not fail and the new refresh token is another text, every refresh with the old one that
  -- follows, by any client, returns an error and changes nothing.
  pub refresh_once :
      KeepsRevoked
      → (input again : TokenRefreshInput) (draw draw' : Random) (clock later : ℕ → Time)
        (w w' : OauthWorld C S T) (r : TokenResponse)
      → refresh svc input draw clock w ≡ (ok r, w')
      → (svc.revoke_token input.refresh_token w.tokens).0 ≡ none
      → input.refresh_token ≢ r.refresh_token
      → again.refresh_token ≡ input.refresh_token
      → (e : Error) × (refresh svc again draw' later w' ≡ (err e, w'))
  refresh_once keeps input again draw draw' clock later w w' r h revoked new same =
      let (client, (rt, found, live, fresh, (scope, signed, (t, id, _, _, _, _, saved)))) =
        refresh_ok input draw clock w w' r h in
      let key = keeps.find_key input.refresh_token w.tokens rt found in
      let other : input.refresh_token ≢ t.id = λ e. new (e ∙ id) in
      let stored : (svc.save_token t (svc.revoke_token input.refresh_token w.tokens).1).1
          ≡ w'.tokens =
        ap (λ k. (svc.save_token t (svc.revoke_token k w.tokens).1).1) (sym key)
        ∙ ap (λ (o : Option Error × T). o.1) saved in
      refresh_dead again draw' later w' (λ old again_found.
        keeps.find_revoked input.refresh_token w.tokens old revoked (
          keeps.find_other input.refresh_token (svc.revoke_token input.refresh_token w.tokens).1 t
            old other
            (ap (svc.find_token input.refresh_token) stored
              ∙ ap (λ k. svc.find_token k w'.tokens) (sym same)
              ∙ again_found)))
