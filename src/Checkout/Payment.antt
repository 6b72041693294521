-- ===== src/Checkout/Payment.antt =====
-- What must have been paid for a session to be completed.
use text.Mathlib.TextEquality.{eq_iff}
use mathlib.Core.Bool.{false≢true}
use mall.Base.{
  ℕ, String, ◌≡◌, refl, ap, subst, sym, ◌∙◌, ◌&&◌, ◌⊎◌, inl, inr, Bool, true, false, Option, none,
  some, arith, pos, ◌<ℤ◌, is_none, is_empty, str_eq, Bool-cases,
}
use mall.Kernel.{KernelId, Time, Result, ok, Result-cases}
use mall.Checkout.Values.{incomplete, requires_escalation, completed}
use mall.Checkout.Session.{CheckoutSession, drop_events}
use mall.Checkout.Session
use mall.Checkout.Service.{
  MandateVerifier, StripePaymentProcessor, CheckoutService, CheckoutWorld, save_and_publish,
}
use mall.Checkout.Completion.{
  verify_mandate, check_mandate, complete_elsewhere, complete_at_stripe, complete_now, escalated,
  choose_here, choose_completion, start_complete, confirm_stripe_payment,
}
use mall.Checkout.Checks.{complete_now_paid}

module _ {S X : Type 0} (svc : CheckoutService S X) where
  -- Where `confirm_stripe_payment` succeeds, the stored session was escalated and has the given
  -- Stripe session id, and the one that is returned is completed.
  pub confirm_stripe_payment_ok :
      (id : KernelId) (sid : String) (clock : ℕ → Time) (w : CheckoutWorld S X)
      (r : CheckoutSession)
      → (confirm_stripe_payment svc id sid clock w).0 ≡ ok r
      → (s : CheckoutSession) × (svc.repo.find id w.store ≡ ok s)
        × (s.stripe_session_id ≡ sid)
        × (s.status ≡ requires_escalation)
        × (r.status ≡ completed)
  unfolding confirm_stripe_payment save_and_publish Session.complete
  confirm_stripe_payment_ok id sid clock w r h = elim (Result-cases (svc.repo.find id w.store)) [
    | inr (e, missing) ↦ absurd (ground arith)
    | inl (s, found) ↦
        (s, found, ground (arith, eq_iff s.stripe_session_id sid), ground arith, ground arith)
  ]

  start_complete_open :
      (id : KernelId) (url : String) (clock : ℕ → Time) (w w' : CheckoutWorld S X)
      (r : CheckoutSession × Bool)
      → start_complete svc id url clock w ≡ (ok r, w')
      → (s : CheckoutSession) × (svc.repo.find id w.store ≡ ok s)
        × (s.status ≡ incomplete)
        × (is_none s.shipping_address ≡ false)
        × (is_none s.billing_address ≡ false)
        × (is_none s.shipping_option ≡ false)
        × (is_empty s.payment_handler ≡ false)
        × (choose_completion svc s url clock w ≡ (ok r, w'))
  unfolding start_complete
  start_complete_open id url clock w w' r h = elim (Result-cases (svc.repo.find id w.store)) [
    | inr (e, missing) ↦ absurd (ground arith)
    | inl (s, found) ↦ (
      s,
      found,
      ground arith,
      ground arith,
      ground arith,
      ground arith,
      ground arith,
      ground arith,
    )
  ]

  -- An escalation says so.
  escalated-true :
      (s : CheckoutSession) (url : String) (t : Time) (w : CheckoutWorld S X)
      (r : CheckoutSession × Bool)
      → (escalated svc s url t w).0 ≡ ok r
      → r.1 ≡ true
  unfolding escalated
  escalated-true s url t w r h = ground arith

  complete_elsewhere-true :
      (s : CheckoutSession) (url : String) (t : Time) (w : CheckoutWorld S X)
      (r : CheckoutSession × Bool)
      → (complete_elsewhere svc s url t w).0 ≡ ok r
      → r.1 ≡ true
  unfolding complete_elsewhere
  complete_elsewhere-true s url t w r h =
      ground (arith, escalated-true s url t (check_mandate svc s w).1 r)

  complete_at_stripe-true :
      (p : StripePaymentProcessor X) (s : CheckoutSession) (clock : ℕ → Time)
      (w : CheckoutWorld S X) (r : CheckoutSession × Bool)
      → (complete_at_stripe svc p s clock w).0 ≡ ok r
      → r.1 ≡ true
  unfolding complete_at_stripe
  complete_at_stripe-true p s clock w r h = grind (arith, escalated-true)

  abbrev Escalates : Result (CheckoutSession × Bool) × CheckoutWorld S X → Type 0
  Escalates o = (r : CheckoutSession × Bool) → o.0 ≡ ok r → r.1 ≡ true

  choose_here_cases :
      (o : Option (StripePaymentProcessor X)) (s : CheckoutSession) (clock : ℕ → Time)
      (w : CheckoutWorld S X)
      → (choose_here svc o s clock w ≡ complete_now svc s clock w)
        ⊎ Escalates (choose_here svc o s clock w)
  unfolding choose_here
  choose_here_cases none s clock w = inl refl
  choose_here_cases (some p) s clock w =
      elim (Bool-cases (str_eq s.payment_handler "stripe" && is_empty s.stripe_payment_intent_id)) [
        | inl at ↦ inr (rw at (complete_at_stripe-true p s clock w))
        | inr now ↦ inl (rw now)
      ]

  choose_completion_cases :
      (s : CheckoutSession) (url : String) (clock : ℕ → Time) (w : CheckoutWorld S X)
      → (choose_completion svc s url clock w ≡ complete_now svc s clock w)
        ⊎ Escalates (choose_completion svc s url clock w)
  unfolding choose_completion
  choose_completion_cases s url clock w = elim (Bool-cases (is_empty url)) [
    | inr continues ↦ inr (rw continues (complete_elsewhere-true s url (clock 0) w))
    | inl stays ↦ rw stays (choose_here_cases svc.stripe_processor s clock w)
  ]

  choose_completion_now :
      (s r : CheckoutSession) (url : String) (clock : ℕ → Time) (w w' : CheckoutWorld S X)
      → choose_completion svc s url clock w ≡ (ok (r, false), w')
      → complete_now svc s clock w ≡ (ok (r, false), w')
  choose_completion_now s r url clock w w' h = elim (choose_completion_cases s url clock w) [
    | inl now ↦ sym now ∙ h
    | inr escalates ↦ absurd (
        false≢true (
          escalates (r, false)
            (ap (λ (o : Result (CheckoutSession × Bool) × CheckoutWorld S X). o.0) h)))
  ]

  -- Where `start_complete` succeeds, the stored session was incomplete, with both addresses, a
  -- shipping option and a payment handler.
  pub start_complete_ready :
      (id : KernelId) (url : String) (clock : ℕ → Time) (w w' : CheckoutWorld S X)
      (r : CheckoutSession × Bool)
      → start_complete svc id url clock w ≡ (ok r, w')
      → (s : CheckoutSession) × (svc.repo.find id w.store ≡ ok s)
        × (s.status ≡ incomplete)
        × (is_none s.shipping_address ≡ false)
        × (is_none s.billing_address ≡ false)
        × (is_none s.shipping_option ≡ false)
        × (is_empty s.payment_handler ≡ false)
  start_complete_ready id url clock w w' r h =
      let (s, found, was_open, a, b, o, p, _) = start_complete_open id url clock w w' r h in
      (s, found, was_open, a, b, o, p)

  module _ (id : KernelId) (url : String) (clock : ℕ → Time) (w w' : CheckoutWorld S X)
      (r s : CheckoutSession) (h : start_complete svc id url clock w ≡ (ok (r, false), w'))
      (found : svc.repo.find id w.store ≡ ok s) where
    completed_now : complete_now svc s clock w ≡ (ok (r, false), w')
    completed_now =
        let (s', found', _, _, _, _, _, chosen) =
          start_complete_open id url clock w w' (r, false) h in
        let same : s' ≡ s = cc (found, found') in
        choose_completion_now s r url clock w w'
          (subst (λ x. choose_completion svc x url clock w ≡ (ok (r, false), w')) same chosen)

    -- Where `start_complete` completes a session with no escalation, and that is to be paid by a
    -- mandate (the handler ap2_mandate, a verifier, a positive mandate id), the verifier has
    -- accepted the stored session's mandate, user and grand total.
    pub start_complete_verified :
        (v : MandateVerifier X)
        → svc.mandate_verifier ≡ some v
        → s.payment_handler ≡ "ap2_mandate"
        → pos 0 <ℤ s.mandate_id
        → (verify_mandate v s w.outside).0 ≡ ok tt
    start_complete_verified v e handler positive =
        (complete_now_paid svc s clock w w' (r, false) completed_now).0 v e handler positive

    -- Where `start_complete` completes a session with no escalation, and that is to be paid by
    -- Stripe (the handler stripe, a processor, a payment intent), the processor has said that the
    -- intent succeeded.
    pub start_complete_succeeded :
        (p : StripePaymentProcessor X)
        → svc.stripe_processor ≡ some p
        → s.payment_handler ≡ "stripe"
        → is_empty s.stripe_payment_intent_id ≡ false
        → (p.get_payment_intent_status s.stripe_payment_intent_id w.outside).0 ≡ ok "succeeded"
    start_complete_succeeded p e handler named =
        (complete_now_paid svc s clock w w' (r, false) completed_now).1 p e handler named
