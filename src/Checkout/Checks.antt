-- ===== src/Checkout/Checks.antt =====
-- What the two checks of a completion ask of a mandate and of a payment intent.
use text.Mathlib.TextEquality.{eq_iff}
use mall.Base.{
  ℕ, ◌≡◌, refl, ap, sym, ◌∙◌, not, ◌&&◌, ◌⊎◌, inl, inr, Bool, false, some, arith, pos, ◌<ℤ◌,
  is_empty, str_eq, Option-cases, Bool-cases,
}
use mall.Kernel.{Time, Result, ok, Result-cases, >>=-eq-ok}
use mall.Checkout.Session.{CheckoutSession, drop_events}
use mall.Checkout.Session
use mall.Checkout.Service.{MandateVerifier, StripePaymentProcessor, CheckoutService, CheckoutWorld}
use mall.Checkout.Completion.{
  verify_mandate, query_intent, check_mandate, check_intent, complete_now, finish, finish_verified,
}

module _ {S X : Type 0} (svc : CheckoutService S X) where
  -- A mandate that a session names is verified.
  abbrev pub IsVerified : CheckoutSession → X → Type 0
  IsVerified s x =
      (v : MandateVerifier X)
      → svc.mandate_verifier ≡ some v
      → s.payment_handler ≡ "ap2_mandate"
      → pos 0 <ℤ s.mandate_id
      → (verify_mandate v s x).0 ≡ ok tt

  check_mandate-IsVerified :
      (s : CheckoutSession) (w : CheckoutWorld S X)
      → (check_mandate svc s w).0 ≡ ok tt
      → IsVerified s w.outside
  unfolding check_mandate
  check_mandate-IsVerified s w h v e handler positive =
      grind (arith, eq_iff s.payment_handler "ap2_mandate")

  -- A payment intent that a session names has succeeded.
  abbrev pub HasSucceeded : CheckoutSession → X → Type 0
  HasSucceeded s x =
      (p : StripePaymentProcessor X)
      → svc.stripe_processor ≡ some p
      → s.payment_handler ≡ "stripe"
      → is_empty s.stripe_payment_intent_id ≡ false
      → (p.get_payment_intent_status s.stripe_payment_intent_id x).0 ≡ ok "succeeded"

  -- The check of an intent changes no field but the payment status and the time of change.
  abbrev SameBut : CheckoutSession → CheckoutSession → Type 0
  SameBut s c =
      (c.payment_handler ≡ s.payment_handler)
      × (c.mandate_id ≡ s.mandate_id)
      × (c.status ≡ s.status)
      × (c.grand_total ≡ s.grand_total)

  query_intent_ok :
      (p : StripePaymentProcessor X) (s c : CheckoutSession) (t : Time) (w w' : CheckoutWorld S X)
      → query_intent p s t w ≡ (ok c, w')
      → SameBut s c
        × ((p.get_payment_intent_status s.stripe_payment_intent_id w.outside).0 ≡ ok "succeeded")
  unfolding query_intent Session.set_stripe_payment_status
  query_intent_ok p s c t w w' h =
      elim (Result-cases (p.get_payment_intent_status s.stripe_payment_intent_id w.outside).0) [
        | inr (e, failed) ↦ absurd (ground arith)
        | inl (status, answer) ↦
            (ground arith, answer ∙ ap ok (ground (arith, eq_iff status "succeeded")))
      ]

  check_intent_cases :
      (s : CheckoutSession) (t : Time) (w : CheckoutWorld S X)
      → (check_intent svc s t w ≡ (ok s, w))
        ⊎ ((p : StripePaymentProcessor X) × (check_intent svc s t w ≡ query_intent p s t w))
  unfolding check_intent
  check_intent_cases s t w = elim (Option-cases svc.stripe_processor) [
    | inl missing ↦ inl (rw (missing, check_intent))
    | inr (p, e) ↦
        elim (Bool-cases
          (str_eq s.payment_handler "stripe" && not (is_empty s.stripe_payment_intent_id))) [
            | inl asks ↦ inr (p, rw (e, check_intent) (rw asks))
            | inr not_asked ↦ inl (rw (e, check_intent) (rw not_asked))
          ]
  ]

  check_intent_asks :
      (s : CheckoutSession) (t : Time) (w : CheckoutWorld S X) (p : StripePaymentProcessor X)
      → svc.stripe_processor ≡ some p
      → s.payment_handler ≡ "stripe"
      → is_empty s.stripe_payment_intent_id ≡ false
      → check_intent svc s t w ≡ query_intent p s t w
  unfolding check_intent
  check_intent_asks s t w p e handler named =
      rw (e, check_intent) (rw ((eq_iff s.payment_handler "stripe").1 handler) (rw named))

  check_intent-SameBut :
      (s c : CheckoutSession) (t : Time) (w w' : CheckoutWorld S X)
      → check_intent svc s t w ≡ (ok c, w')
      → SameBut s c
  check_intent-SameBut s c t w w' h = elim (check_intent_cases s t w) [
    | inl same ↦ let e = sym same ∙ h in ground (arith, e)
    | inr (p, asked) ↦ (query_intent_ok p s c t w w' (sym asked ∙ h)).0
  ]

  check_intent-HasSucceeded :
      (s c : CheckoutSession) (t : Time) (w w' : CheckoutWorld S X)
      → check_intent svc s t w ≡ (ok c, w')
      → HasSucceeded s w.outside
  check_intent-HasSucceeded s c t w w' h p e handler named =
      (query_intent_ok p s c t w w' (sym (check_intent_asks s t w p e handler named) ∙ h)).1

  pub check_intent_other :
      (s : CheckoutSession) (t : Time) (w : CheckoutWorld S X)
      → str_eq s.payment_handler "stripe" ≡ false
      → check_intent svc s t w ≡ (ok s, w)
  unfolding check_intent
  check_intent_other s t w other = ground arith

  complete_now_steps :
      (s : CheckoutSession) (clock : ℕ → Time) (w w' : CheckoutWorld S X)
      (r : CheckoutSession × Bool)
      → complete_now svc s clock w ≡ (ok r, w')
      → (c : CheckoutSession) × (mid : CheckoutWorld S X) × (check_intent svc s (clock 0) w
          ≡ (ok c, mid))
        × ((check_mandate svc c mid).0 ≡ ok tt)
  unfolding complete_now
  complete_now_steps s clock w w' r h =
      let (c, mid, checked, rest) =
        >>=-eq-ok (check_intent svc s (clock 0)) (finish_verified svc clock) w h in
      let (_, _, verified, _) =
        >>=-eq-ok (check_mandate svc c) (λ _. finish svc clock c) mid rest in
      (c, mid, checked, ap (λ (o : Result (Unit {0}) × CheckoutWorld S X). o.0) verified)

  check_mandate_at :
      (s c : CheckoutSession) (w mid : CheckoutWorld S X)
      → ◌≡◌ {A = Result CheckoutSession × CheckoutWorld S X} (ok c, mid) (ok s, w)
      → (check_mandate svc c mid).0 ≡ ok tt
      → (check_mandate svc s w).0 ≡ ok tt
  check_mandate_at s c w mid same h = cc

  -- A session that is completed with no escalation was paid as it says.
  pub complete_now_paid :
      (s : CheckoutSession) (clock : ℕ → Time) (w w' : CheckoutWorld S X)
      (r : CheckoutSession × Bool)
      → complete_now svc s clock w ≡ (ok r, w')
      → IsVerified s w.outside × HasSucceeded s w.outside
  complete_now_paid s clock w w' r h =
      let (c, mid, checked, verified) = complete_now_steps s clock w w' r h in
      (
        λ v e handler positive.
            let other : str_eq s.payment_handler "stripe" ≡ false = rw handler refl in
            let same = sym checked ∙ check_intent_other s (clock 0) w other in
            check_mandate-IsVerified s w (check_mandate_at s c w mid same verified) v e handler
              positive,
        check_intent-HasSucceeded s c (clock 0) w mid checked,
      )
