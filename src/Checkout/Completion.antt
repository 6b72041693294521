-- ===== src/Checkout/Completion.antt =====
-- domain/checkout/service.go: the calls that pay for and complete a session. `clock i` is the
-- call's i-th reading of the clock.
use Prim.Native.String.{◌++◌ as concat}
use mall.Base.{
  ℕ, String, Bool, true, false, not, ◌&&◌, ◌||◌, Option, none, some, if◌then◌else◌, pos, ltb_ℤ,
  is_empty, is_none, str_eq,
}
use mall.Kernel.{
  KernelId, Time, Action, ◌>>=◌, ◌>>◌, pure, raise, raise_if, from_outcome, new_domain_error,
  invalid_argument, internal,
}
use mall.Checkout.Values.{incomplete, requires_escalation, status_eq}
use mall.Checkout.Session
use mall.Checkout.Session.{CheckoutSession, in_state}
use mall.Checkout.Service.{
  MandateVerifier, StripePaymentProcessor, CheckoutService, CheckoutWorld, ask, find_session,
  save_session, save_and_publish,
}

-- `verifyMandate`
unfoldable pub verify_mandate :
    {X : Type 0} → MandateVerifier X → CheckoutSession → Action X (Unit {0})
verify_mandate verifier s =
    if not (is_empty s.wallet_token) && not (is_empty s.wallet_provider)
    then verifier.verify_and_execute_with_token s.mandate_id s.user_id s.grand_total s.wallet_token
        s.wallet_provider
    else verifier.verify_and_execute s.mandate_id s.user_id s.grand_total

-- `GetPaymentIntentStatus` and what is made of its answer.
unfoldable pub query_intent :
    {S X : Type 0}
    → StripePaymentProcessor X
    → CheckoutSession
    → Time
    → Action (CheckoutWorld S X) CheckoutSession
query_intent stripe s now = do
  status ← ask (stripe.get_payment_intent_status s.stripe_payment_intent_id)
  raise_if (not (str_eq status "succeeded")) (
      new_domain_error invalid_argument
        (concat "stripe payment intent not succeeded, status: " status))
  pure (Session.set_stripe_payment_status status now s)

module _ {S X : Type 0} (svc : CheckoutService S X) where
  -- `if session.PaymentHandler == "ap2_mandate" && s.mandateVerifier != nil && session.MandateID >
  -- 0`
  unfoldable pub check_mandate : CheckoutSession → Action (CheckoutWorld S X) (Unit {0})
  check_mandate s = elim svc.mandate_verifier [
    | none ↦ pure tt
    | some verifier ↦
        if str_eq s.payment_handler "ap2_mandate" && ltb_ℤ (pos 0) s.mandate_id
        then ask (verify_mandate verifier s)
        else pure tt
  ]

  -- The check of a payment intent, where there is one.
  unfoldable pub check_intent : CheckoutSession → Time → Action (CheckoutWorld S X) CheckoutSession
  check_intent s now = elim svc.stripe_processor [
    | none ↦ pure s
    | some stripe ↦
        if str_eq s.payment_handler "stripe" && not (is_empty s.stripe_payment_intent_id)
        then query_intent stripe s now
        else pure s
  ]

  unfoldable pub escalated :
      CheckoutSession → String → Time → Action (CheckoutWorld S X) (CheckoutSession × Bool)
  escalated s url now = do
    changed ← from_outcome (Session.escalate url now s)
    saved ← save_and_publish svc changed
    pure (saved, true)

  -- The escalation of a call with a URL to go on at.
  unfoldable pub complete_elsewhere :
      CheckoutSession → String → Time → Action (CheckoutWorld S X) (CheckoutSession × Bool)
  complete_elsewhere s continue_url now = do check_mandate s; escalated s continue_url now

  -- The escalation to a new Stripe session.
  unfoldable pub complete_at_stripe :
      StripePaymentProcessor X
      → CheckoutSession
      → (ℕ → Time)
      → Action (CheckoutWorld S X) (CheckoutSession × Bool)
  complete_at_stripe stripe s clock = do
    (url, session_id) ← ask (stripe.create_checkout_session s)
    named ← from_outcome (Session.set_stripe_session_id session_id (clock 0) s)
    escalated named url (clock 1)

  -- The completion with no escalation: an intent is checked, then a mandate, and then the session
  -- is made ready, completed, saved and published.
  unfoldable pub finish :
      (ℕ → Time) → CheckoutSession → Action (CheckoutWorld S X) (CheckoutSession × Bool)
  finish clock s = do
    ready ← from_outcome (Session.mark_ready (clock 1) s)
    done ← from_outcome (Session.complete (clock 2) (clock 3) ready)
    saved ← save_and_publish svc done
    pure (saved, false)

  abbrev pub finish_verified :
      (ℕ → Time) → CheckoutSession → Action (CheckoutWorld S X) (CheckoutSession × Bool)
  finish_verified clock s = check_mandate s >>= λ _. finish clock s

  unfoldable pub complete_now :
      CheckoutSession → (ℕ → Time) → Action (CheckoutWorld S X) (CheckoutSession × Bool)
  complete_now s clock = check_intent s (clock 0) >>= finish_verified clock

  -- The choice among the three, first by the Stripe processor.
  unfoldable pub choose_here :
      Option (StripePaymentProcessor X)
      → CheckoutSession
      → (ℕ → Time)
      → Action (CheckoutWorld S X) (CheckoutSession × Bool)
  choose_here none s clock = complete_now s clock
  choose_here (some stripe) s clock =
      if str_eq s.payment_handler "stripe" && is_empty s.stripe_payment_intent_id
      then complete_at_stripe stripe s clock
      else complete_now s clock

  unfoldable pub choose_completion :
      CheckoutSession → String → (ℕ → Time) → Action (CheckoutWorld S X) (CheckoutSession × Bool)
  choose_completion s continue_url clock =
      if not (is_empty continue_url)
      then complete_elsewhere s continue_url (clock 0)
      else choose_here svc.stripe_processor s clock

  -- `StartComplete`; the Boolean says whether the session was escalated.
  unfoldable pub start_complete :
      KernelId → String → (ℕ → Time) → Action (CheckoutWorld S X) (CheckoutSession × Bool)
  start_complete id continue_url clock = do
    s ← find_session svc id
    raise_if (not (status_eq s.status incomplete))
        (new_domain_error invalid_argument (in_state "cannot start complete in current state: " s))
    raise_if
        (is_none s.shipping_address
          || is_none s.billing_address
          || is_none s.shipping_option
          || is_empty s.payment_handler)
        (new_domain_error invalid_argument
          "shipping address, billing address, shipping option, and payment handler required")
    choose_completion s continue_url clock

  -- `Complete`
  unfoldable pub complete : KernelId → (ℕ → Time) → Action (CheckoutWorld S X) CheckoutSession
  complete id clock = do
    s ← find_session svc id
    check_mandate s
    checked ← check_intent s (clock 0)
    done ← from_outcome (Session.complete (clock 1) (clock 2) checked)
    save_and_publish svc done

  -- `ConfirmStripePayment`
  unfoldable pub confirm_stripe_payment :
      KernelId → String → (ℕ → Time) → Action (CheckoutWorld S X) CheckoutSession
  confirm_stripe_payment id stripe_session_id clock = do
    s ← find_session svc id
    raise_if (not (str_eq s.stripe_session_id stripe_session_id))
        (new_domain_error invalid_argument "stripe session id mismatch")
    raise_if (not (status_eq s.status requires_escalation)) (
        new_domain_error invalid_argument
          (in_state "cannot confirm stripe payment in current state: " s))
    done ← from_outcome (Session.complete (clock 0) (clock 1) s)
    save_and_publish svc done

  -- `CreateStripePaymentIntent`
  unfoldable pub create_stripe_payment_intent :
      KernelId → Time → Action (CheckoutWorld S X) (String × String)
  create_stripe_payment_intent id now = do
    s ← find_session svc id
    raise_if (not (status_eq s.status incomplete)) (
        new_domain_error invalid_argument
          (in_state "cannot create payment intent in current state: " s))
    raise_if (not (str_eq s.payment_handler "stripe"))
        (new_domain_error invalid_argument "payment handler must be stripe")
    (elim svc.stripe_processor [
      | none ↦ raise (new_domain_error internal "stripe processor not configured")
      | some stripe ↦ (do
        (client_secret, intent_id) ← ask (stripe.create_payment_intent s.id s.grand_total)
        changed ← from_outcome (Session.set_stripe_payment_intent_id intent_id now s)
        save_session svc changed
        pure (client_secret, intent_id))
    ])
