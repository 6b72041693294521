-- ===== src/Oauth/Once.antt =====
-- How often a code is exchanged, and for whom a refresh token is.
use text.Mathlib.TextEquality.{eq_iff}
use mall.Base.{
  ℕ, suc, String, ◌≡◌, ◌≢◌, refl, ap, sym, ◌∙◌, none, arith, false, ◌≤◌, Bool-cases, inl, inr,
}
use mall.Kernel.{
  KernelId, Time, Result, ok, err, Error, Result-cases, new_domain_error, unauthenticated,
}
use mall.Oauth.Values.{
  AuthorizationCode, Random, RefreshToken, verify_secret, code_expired, mark_used, token_expired,
}
use mall.Oauth.Service.{
  OauthService, OauthWorld, TokenExchangeInput, TokenRefreshInput, TokenResponse, authenticated,
  take_code, take_token, issue_tokens, exchange, refresh,
}
use mall.Oauth.Exchange.{IsClient, exchange_ok}

module _ {C S T : Type 0} (svc : OauthService C S T) where
  -- What is relied on of the stored codes: a code is found by its text, and not after its deletion.
  pub record ForgetsCodes : Type 0 where
    pub find_key :
        (k : String) (s : S) (a : AuthorizationCode) → svc.find_code k s ≡ ok a → a.code ≡ k
    pub find_deleted :
        (k : String) (s : S)
        → (svc.delete_code k s).0 ≡ none
        → (e : Error) × (svc.find_code k (svc.delete_code k s).1 ≡ err e)

  issue_tokens-codes :
      (user_id : KernelId) (client_id scope : String) (draw : Random) (clock : ℕ → Time)
      (w : OauthWorld C S T)
      → (issue_tokens svc user_id client_id scope draw clock w).1.codes ≡ w.codes
  unfolding issue_tokens
  issue_tokens-codes user_id client_id scope draw clock w = ground arith

  issue_tokens-clients :
      (user_id : KernelId) (client_id scope : String) (draw : Random) (clock : ℕ → Time)
      (w : OauthWorld C S T)
      → (issue_tokens svc user_id client_id scope draw clock w).1.clients ≡ w.clients
  unfolding issue_tokens
  issue_tokens-clients user_id client_id scope draw clock w = ground arith

  -- With no such code nothing is issued.
  exchange_missing :
      (input : TokenExchangeInput) (draw : Random) (clock : ℕ → Time) (w : OauthWorld C S T)
      (e : Error)
      → svc.find_code input.code w.codes ≡ err e
      → (x : Error) × (exchange svc input draw clock w ≡ (err x, w))
  unfolding exchange authenticated take_code
  exchange_missing input draw clock w e missing =
      elim (Result-cases (svc.find_client input.client_id w.clients)) [
        | inr (x, unknown) ↦ (x, ground (arith, missing, unknown))
        | inl (c, known) ↦ elim (Bool-cases (verify_secret svc.compare c input.client_secret)) [
          | inl secret ↦ (e, ground (arith, missing, known, secret))
          | inr wrong ↦ (
            new_domain_error unauthenticated "invalid client credentials",
            ground (arith, missing, known, wrong),
          )
        ]
      ]

  -- A client with its secret, and a code of its own that is fresh and not marked.
  exchange_fit :
      (input : TokenExchangeInput) (draw : Random) (clock : ℕ → Time) (w : OauthWorld C S T)
      (a : AuthorizationCode)
      → IsClient svc input.client_id input.client_secret w.clients
      → svc.find_code input.code w.codes ≡ ok a
      → a.client_id ≡ input.client_id
      → clock 0 ≤ a.expires_at
      → a.used ≡ false
      → exchange svc input draw clock w
        ≡ issue_tokens svc a.user_id input.client_id a.scope draw
            (λ n. clock (suc n))
            (record w { codes = (svc.delete_code a.code w.codes).1 })
  unfolding exchange authenticated take_code code_expired mark_used
  exchange_fit input draw clock w a (c, known, secret) found mine fresh unused =
      ground (arith, known, secret, found, mine, fresh, unused, eq_iff a.client_id input.client_id)

  exchange-codes :
      (input : TokenExchangeInput) (draw : Random) (clock : ℕ → Time) (w w' : OauthWorld C S T)
      (r : TokenResponse)
      → exchange svc input draw clock w ≡ (ok r, w')
      → (a : AuthorizationCode) × (svc.find_code input.code w.codes ≡ ok a)
        × (w'.codes ≡ (svc.delete_code a.code w.codes).1)
        × (w'.clients ≡ w.clients)
  exchange-codes input draw clock w w' r h =
      let (client, (a, found, mine, fresh, unused, _)) =
        exchange_ok svc input draw clock w w' r h in
      let deleted : OauthWorld C S T = record w { codes = (svc.delete_code a.code w.codes).1 } in
      let issued = sym (exchange_fit input draw clock w a client found mine fresh unused) ∙ h in
      let ended : (issue_tokens svc a.user_id input.client_id a.scope draw (λ n. clock (suc n))
            deleted).1
          ≡ w' =
        ap (λ (o : Result TokenResponse × OauthWorld C S T). o.1) issued in
      (
        a,
        found,
        sym (ap (λ (x : OauthWorld C S T). x.codes) ended)
            ∙ issue_tokens-codes a.user_id input.client_id a.scope draw (λ n. clock (suc n))
                deleted,
        sym (ap (λ (x : OauthWorld C S T). x.clients) ended)
            ∙ issue_tokens-clients a.user_id input.client_id a.scope draw (λ n. clock (suc n))
                deleted,
      )

  -- Over codes that are found by their text and not after their deletion: where a code was
  -- exchanged and its deletion did not fail, every later exchange of it, by any client, returns an
  -- error and changes nothing.
  pub exchange_once :
      ForgetsCodes
      → (input again : TokenExchangeInput) (draw draw' : Random) (clock later : ℕ → Time)
        (w w' : OauthWorld C S T) (r : TokenResponse)
      → exchange svc input draw clock w ≡ (ok r, w')
      → (svc.delete_code input.code w.codes).0 ≡ none
      → again.code ≡ input.code
      → (e : Error) × (exchange svc again draw' later w' ≡ (err e, w'))
  exchange_once forgets input again draw draw' clock later w w' r h deleted same =
      let (a, found, codes, _) = exchange-codes input draw clock w w' r h in
      let key = forgets.find_key input.code w.codes a found in
      let (e, gone) = forgets.find_deleted input.code w.codes deleted in
      exchange_missing again draw' later w' e (rw (same, codes, key) gone)

  -- The mark on a code is not saved: where a code was exchanged and its deletion failed and changed
  -- nothing, which is logged and otherwise ignored, the same client gets tokens for the code again,
  -- until it expires.
  pub exchange_undeleted :
      (input : TokenExchangeInput) (draw draw' : Random) (clock later : ℕ → Time)
      (w w' : OauthWorld C S T) (a : AuthorizationCode) (r : TokenResponse)
      → exchange svc input draw clock w ≡ (ok r, w')
      → svc.find_code input.code w.codes ≡ ok a
      → (svc.delete_code a.code w.codes).1 ≡ w.codes
      → later 0 ≤ a.expires_at
      → exchange svc input draw' later w'
        ≡ issue_tokens svc a.user_id input.client_id a.scope draw' (λ n. later (suc n)) w'
  exchange_undeleted input draw draw' clock later w w' a r h found kept fresh =
      let (client, (b, found_b, mine, _, unused, _)) = exchange_ok svc input draw clock w w' r h in
      let (c, found_c, deleted, clients) = exchange-codes input draw clock w w' r h in
      let same_b : b ≡ a = cc (found_b, found) in
      let same_c : c ≡ a = cc (found_c, found) in
      let codes : w'.codes ≡ w.codes = deleted ∙ rw (same_c, kept) refl in
      let fit =
        exchange_fit input draw' later w' a (rw clients client) (rw (codes, found) refl)
          (rw same_b at mine) fresh (rw same_b at unused) in
      fit
      ∙ ap
          (λ s.
            issue_tokens svc a.user_id input.client_id a.scope draw' (λ n. later (suc n))
              (record w' { codes = s }))
          (rw codes kept)

  -- A refresh token is not compared with the client: where a client with its secret gives a token
  -- which was issued to another, is not revoked and has not expired, the call goes on to the issue
  -- of tokens to the calling client for the user and the scope of that token.
  refresh_foreign :
      (input : TokenRefreshInput) (draw : Random) (clock : ℕ → Time) (w : OauthWorld C S T)
      (rt : RefreshToken)
      → IsClient svc input.client_id input.client_secret w.clients
      → svc.find_token input.refresh_token w.tokens ≡ ok rt
      → rt.client_id ≢ input.client_id
      → rt.revoked ≡ false
      → clock 0 ≤ rt.expires_at
      → refresh svc input draw clock w
        ≡ issue_tokens svc rt.user_id input.client_id rt.scope draw
            (λ n. clock (suc n))
            (record w { tokens = (svc.revoke_token rt.id w.tokens).1 })
  unfolding refresh authenticated take_token token_expired
  refresh_foreign input draw clock w rt (c, known, secret) found other live fresh =
      ground (arith, known, secret, found, live, fresh)
