-- ===== src/Checkout/Unpaid.antt =====
-- Completions for which nobody is asked to pay.
use mall.Base.{
  ℕ, ◌≡◌, refl, true, false, Option, none, some, arith, pos, ◌≤ℤ◌, is_none, is_empty, str_eq,
}
use mall.Kernel.{KernelId, Time, ok}
use mall.Checkout.Values.{incomplete, requires_escalation, completed}
use mall.Checkout.Session.{CheckoutSession, drop_events}
use mall.Checkout.Session
use mall.Checkout.Service.{CheckoutService, CheckoutWorld, StripePaymentProcessor, save_and_publish}
use mall.Checkout.Completion.{
  check_mandate, check_intent, complete_now, finish, choose_here, choose_completion, start_complete,
  complete,
}
use mall.Checkout.Checks.{check_intent_other}

-- What the two last steps make of a session.
abbrev pub finished : (ℕ → Time) → CheckoutSession → CheckoutSession
finished clock s = (Session.complete (clock 2) (clock 3) (Session.mark_ready (clock 1) s).0).0

module _ {S X : Type 0} (svc : CheckoutService S X) where
  save_and_publish_ok :
      (d : CheckoutSession) (w : CheckoutWorld S X)
      → (svc.repo.save d w.store).0 ≡ none
      → let (r, w') = save_and_publish svc d w in
        (r ≡ ok (drop_events d)) × (w'.outside ≡ w.outside)
  unfolding save_and_publish
  save_and_publish_ok d w saved = ground arith

  check_mandate_skipped :
      (s : CheckoutSession) (w : CheckoutWorld S X)
      → s.mandate_id ≤ℤ pos 0
      → check_mandate svc s w ≡ (ok tt, w)
  unfolding check_mandate
  check_mandate_skipped s w none_named = ground arith

  choose_here_other :
      (o : Option (StripePaymentProcessor X)) (s : CheckoutSession) (clock : ℕ → Time)
      (w : CheckoutWorld S X)
      → str_eq s.payment_handler "stripe" ≡ false
      → choose_here svc o s clock w ≡ complete_now svc s clock w
  unfolding choose_here
  choose_here_other none s clock w other = refl
  choose_here_other (some p) s clock w other = rw other

  complete_now_unpaid :
      (s : CheckoutSession) (clock : ℕ → Time) (w : CheckoutWorld S X)
      → str_eq s.payment_handler "stripe" ≡ false
      → s.mandate_id ≤ℤ pos 0
      → complete_now svc s clock w ≡ finish svc clock s w
  unfolding complete_now
  complete_now_unpaid s clock w other none_named =
      ground
        (arith, check_intent_other svc s (clock 0) w other, check_mandate_skipped s w none_named)

  check_mandate_other :
      (s : CheckoutSession) (w : CheckoutWorld S X)
      → str_eq s.payment_handler "ap2_mandate" ≡ false
      → check_mandate svc s w ≡ (ok tt, w)
  unfolding check_mandate
  check_mandate_other s w other = ground arith

  check_intent_unnamed :
      (s : CheckoutSession) (t : Time) (w : CheckoutWorld S X)
      → is_empty s.stripe_payment_intent_id ≡ true
      → check_intent svc s t w ≡ (ok s, w)
  unfolding check_intent
  check_intent_unnamed s t w unnamed = ground arith

  completes_escalated :
      (s : CheckoutSession) (now touched : Time)
      → s.status ≡ requires_escalation
      → let d = Session.complete now touched s in (d.1 ≡ none) × (d.0.status ≡ completed)
  unfolding Session.complete
  completes_escalated s now touched escalated = ground arith

  -- `complete` asks nobody either for a session that was escalated to Stripe and has no payment
  -- intent: it is completed, if its storage saves it, whether or not Stripe has taken the money.
  pub complete_unpaid :
      (id : KernelId) (s : CheckoutSession) (clock : ℕ → Time) (w : CheckoutWorld S X)
      → svc.repo.find id w.store ≡ ok s
      → s.status ≡ requires_escalation
      → s.payment_handler ≡ "stripe"
      → is_empty s.stripe_payment_intent_id ≡ true
      → let d = (Session.complete (clock 1) (clock 2) s).0 in
        (svc.repo.save d w.store).0 ≡ none
        → let (r, w') = complete svc id clock w in
          (r ≡ ok (drop_events d)) × (d.status ≡ completed) × (w'.outside ≡ w.outside)
  unfolding complete
  complete_unpaid id s clock w found escalated handler no_intent saved =
      let d = (Session.complete (clock 1) (clock 2) s).0 in
      let other : str_eq s.payment_handler "ap2_mandate" ≡ false = rw handler refl in
      ground (
        arith,
        check_mandate_other s w other,
        check_intent_unnamed s (clock 0) w no_intent,
        completes_escalated s (clock 1) (clock 2) escalated,
        save_and_publish_ok d w saved,
      )

  module _ (s : CheckoutSession) (clock : ℕ → Time) (w : CheckoutWorld S X)
      (saved : (svc.repo.save (finished clock s) w.store).0 ≡ none)
      (was_open : s.status ≡ incomplete) (a : is_none s.shipping_address ≡ false)
      (b : is_none s.billing_address ≡ false) (o : is_none s.shipping_option ≡ false)
      (h : is_empty s.payment_handler ≡ false) where
    made_ready : (Session.mark_ready (clock 1) s).1 ≡ none
    unfolding Session.mark_ready
    made_ready = ground arith

    made_completed :
        let d = Session.complete (clock 2) (clock 3) (Session.mark_ready (clock 1) s).0 in
        (d.1 ≡ none) × (d.0.status ≡ completed)
    unfolding Session.mark_ready Session.complete
    made_completed = ground arith

    finish_ok :
        let (r, w') = finish svc clock s w in
        (r ≡ ok (drop_events (finished clock s), false)) × (w'.outside ≡ w.outside)
    unfolding finish
    finish_ok =
        ground (arith, made_ready, made_completed, save_and_publish_ok (finished clock s) w saved)

    start_complete_now :
        (id : KernelId)
        → svc.repo.find id w.store ≡ ok s
        → str_eq s.payment_handler "stripe" ≡ false
        → start_complete svc id "" clock w ≡ complete_now svc s clock w
    unfolding start_complete choose_completion
    start_complete_now id found other =
        ground (arith, choose_here_other svc.stripe_processor s clock w other)

    -- With the handler ap2_mandate and no mandate selected (an id of zero or less) `start_complete`
    -- completes an incomplete session that has both addresses, a shipping option and a handler, if
    -- its storage saves it, and nothing outside is told of any payment.
    pub start_complete_unpaid :
        (id : KernelId)
        → svc.repo.find id w.store ≡ ok s
        → s.payment_handler ≡ "ap2_mandate"
        → s.mandate_id ≤ℤ pos 0
        → let (r, w') = start_complete svc id "" clock w in
          (r ≡ ok (drop_events (finished clock s), false))
          × ((finished clock s).status ≡ completed)
          × (w'.outside ≡ w.outside)
    start_complete_unpaid id found handler none_named =
        let other : str_eq s.payment_handler "stripe" ≡ false = rw handler refl in
        let now = start_complete_now id found other in
        let end = complete_now_unpaid s clock w other none_named in
        rw (now, end) (finish_ok.0, made_completed.1, finish_ok.1)
