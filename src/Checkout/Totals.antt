-- ===== src/Checkout/Totals.antt =====
-- The money of a session.
use mall.Base.{◌≡◌, refl, ◌∙◌, false, List, [], ◌∷◌, arith, ℤ, add64, ◌≢◌, is_none}
use mall.Kernel.{KernelId, Time, ok}
use mall.Checkout.Values.{incomplete, completed, CartSnapshot}
use mall.Checkout.Session.{
  CheckoutSession, new_checkout_session, set_shipping_address, set_billing_address,
  select_shipping_option, select_payment_handler, set_tax_amount, mark_ready, escalate,
  select_mandate, submit_payment_token, set_stripe_session_id, set_stripe_payment_intent_id,
  set_stripe_payment_status, complete, cancel,
}
use mall.Checkout.Machine.{SessionCall, marks_ready, sets_tax_amount, perform, run}

-- Once a shipping option is chosen the grand total is the sum of its parts.
pub record IsPriced (s : CheckoutSession) : Type 0 where
  pub totalled :
      is_none s.shipping_option ≡ false
      → s.grand_total ≡ add64 (add64 s.subtotal s.shipping_cost) s.tax_amount
  pub frozen_subtotal : s.subtotal ≡ s.cart_snapshot.total

new_checkout_session-IsPriced :
    (id user cart : KernelId) (snapshot : CartSnapshot) (t u : Time) (s : CheckoutSession)
    → new_checkout_session id user cart snapshot t u ≡ ok s
    → IsPriced s
unfolding new_checkout_session
new_checkout_session-IsPriced id user cart snapshot t u s e = ground arith

perform-IsPriced : (c : SessionCall) (s : CheckoutSession) → IsPriced s → IsPriced (perform c s).0
unfolding perform set_shipping_address set_billing_address select_shipping_option
    select_payment_handler set_tax_amount mark_ready escalate select_mandate submit_payment_token
    set_stripe_session_id set_stripe_payment_intent_id set_stripe_payment_status complete cancel
perform-IsPriced (marks_ready t) s h = ground arith
perform-IsPriced c s h = ground arith

run-IsPriced_from : (cs : List SessionCall) (s : CheckoutSession) → IsPriced s → IsPriced (run cs s)
run-IsPriced_from [] s h = h
run-IsPriced_from (c ∷ cs) s h = run-IsPriced_from cs (perform c s).0 (perform-IsPriced c s h)

-- Whatever is called on a new session, in any order: the subtotal is the snapshot's total, and from
-- the first choice of a shipping option on the grand total is the int64 sum of subtotal, shipping
-- cost and tax.
pub run-IsPriced :
    (id user cart : KernelId) (snapshot : CartSnapshot) (t u : Time) (s : CheckoutSession)
    (cs : List SessionCall)
    → new_checkout_session id user cart snapshot t u ≡ ok s
    → IsPriced (run cs s)
run-IsPriced id user cart snapshot t u s cs e =
    run-IsPriced_from cs s (new_checkout_session-IsPriced id user cart snapshot t u s e)

perform-cart_snapshot :
    (c : SessionCall) (s : CheckoutSession) → (perform c s).0.cart_snapshot ≡ s.cart_snapshot
unfolding perform set_shipping_address set_billing_address select_shipping_option
    select_payment_handler set_tax_amount mark_ready escalate select_mandate submit_payment_token
    set_stripe_session_id set_stripe_payment_intent_id set_stripe_payment_status complete cancel
perform-cart_snapshot (marks_ready t) s = ground arith
perform-cart_snapshot c s = ground arith

-- No method changes the snapshot of the cart.
pub run-cart_snapshot :
    (cs : List SessionCall) (s : CheckoutSession) → (run cs s).cart_snapshot ≡ s.cart_snapshot
run-cart_snapshot [] s = refl
run-cart_snapshot (c ∷ cs) s = run-cart_snapshot cs (perform c s).0 ∙ perform-cart_snapshot c s

-- Every method but `set_tax_amount` leaves the four amounts of a session alone once that is no
-- longer incomplete.
pub perform_frozen :
    (c : SessionCall) (s : CheckoutSession)
    → s.status ≢ incomplete
    → ((a : ℤ) (t : Time) → c ≢ sets_tax_amount a t)
    → let s' = (perform c s).0 in
      (s'.subtotal ≡ s.subtotal)
      × (s'.shipping_cost ≡ s.shipping_cost)
      × (s'.tax_amount ≡ s.tax_amount)
      × (s'.grand_total ≡ s.grand_total)
unfolding perform set_shipping_address set_billing_address select_shipping_option
    select_payment_handler set_tax_amount mark_ready escalate select_mandate submit_payment_token
    set_stripe_session_id set_stripe_payment_intent_id set_stripe_payment_status complete cancel
perform_frozen (sets_tax_amount a t) s h ne = absurd (ne a t refl)
perform_frozen c s h ne = ground arith

-- `set_tax_amount` asks for no state: on a completed session it changes the tax and the grand total
-- of what was paid, and keeps it completed.
pub set_tax_amount_completed :
    (a : ℤ) (t : Time) (s : CheckoutSession)
    → s.status ≡ completed
    → let s' = set_tax_amount a t s in
      (s'.status ≡ completed)
      × (s'.tax_amount ≡ a)
      × (s'.grand_total ≡ add64 (add64 s.subtotal s.shipping_cost) a)
      × (s'.completed_at ≡ s.completed_at)
unfolding set_tax_amount
set_tax_amount_completed a t s h = ground arith
