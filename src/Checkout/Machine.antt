-- ===== src/Checkout/Machine.antt =====
-- The states of a session under all the methods that change it.
use mall.Base.{
  String, ◌≡◌, refl, ◌⊎◌, false, none, some, List, [], ◌∷◌, arith, ℤ, ◌≢◌, ◌∙◌, is_none, is_empty,
}
use mall.Kernel.{KernelId, Time, ok, Outcome, Error}
use mall.Checkout.Values.{
  CheckoutStatus, incomplete, ready_for_complete, requires_escalation, completed, cancelled,
  Address, ShippingOption, CartSnapshot,
}
use mall.Checkout.Session.{
  CheckoutSession, new_checkout_session, set_shipping_address, set_billing_address,
  select_shipping_option, select_payment_handler, set_tax_amount, mark_ready, escalate,
  select_mandate, submit_payment_token, set_stripe_session_id, set_stripe_payment_intent_id,
  set_stripe_payment_status, complete, cancel,
}

-- A call of a method, with its arguments and clock readings.
pub data SessionCall : Type 0 where
  sets_shipping_address sets_billing_address : Address → Time → SessionCall
  selects_shipping_option : ShippingOption → Time → SessionCall
  selects_payment_handler : String → Time → SessionCall
  sets_tax_amount : ℤ → Time → SessionCall
  marks_ready : Time → SessionCall
  escalates : String → Time → SessionCall
  selects_mandate : KernelId → Time → SessionCall
  submits_payment_token : String → String → Time → SessionCall
  sets_stripe_session_id sets_stripe_payment_intent_id : String → Time → SessionCall
  sets_stripe_payment_status : String → Time → SessionCall
  completes : Time → Time → SessionCall
  cancels : Time → SessionCall

unfoldable pub perform : SessionCall → CheckoutSession → Outcome CheckoutSession
perform (sets_shipping_address a t) s = set_shipping_address a t s
perform (sets_billing_address a t) s = set_billing_address a t s
perform (selects_shipping_option o t) s = select_shipping_option o t s
perform (selects_payment_handler h t) s = select_payment_handler h t s
perform (sets_tax_amount a t) s = (set_tax_amount a t s, none)
perform (marks_ready t) s = mark_ready t s
perform (escalates url t) s = escalate url t s
perform (selects_mandate m t) s = select_mandate m t s
perform (submits_payment_token p k t) s = submit_payment_token p k t s
perform (sets_stripe_session_id i t) s = set_stripe_session_id i t s
perform (sets_stripe_payment_intent_id i t) s = set_stripe_payment_intent_id i t s
perform (sets_stripe_payment_status x t) s = (set_stripe_payment_status x t s, none)
perform (completes now t) s = complete now t s
perform (cancels t) s = cancel t s

-- The edges of the state diagram.
infix 40 ◌⟶◌
pub data ◌⟶◌ : CheckoutStatus → CheckoutStatus → Type 0 where
  stay : {c : CheckoutStatus} → c ⟶ c
  ready : incomplete ⟶ ready_for_complete
  hand_off : incomplete ⟶ requires_escalation
  finish : ready_for_complete ⟶ completed
  finish_escalated : requires_escalation ⟶ completed
  abandon : incomplete ⟶ cancelled
  abandon_ready : ready_for_complete ⟶ cancelled
  abandon_escalated : requires_escalation ⟶ cancelled

ruleset edges =
    (stay, ready, hand_off, finish, finish_escalated, abandon, abandon_ready, abandon_escalated)

-- Every method of a session, on every branch, keeps the status or follows an edge of the diagram.
pub perform-⟶ : (c : SessionCall) (s : CheckoutSession) → s.status ⟶ (perform c s).0.status
unfolding perform set_shipping_address set_billing_address select_shipping_option
    select_payment_handler set_tax_amount mark_ready escalate select_mandate submit_payment_token
    set_stripe_session_id set_stripe_payment_intent_id set_stripe_payment_status complete cancel
perform-⟶ (marks_ready t) s = grind (arith, edges)
perform-⟶ c s = grind (arith, edges)

-- A method that returns an error leaves the session as it was.
pub perform_error_unchanged :
    (c : SessionCall) (s : CheckoutSession) {e : Error}
    → (perform c s).1 ≡ some e
    → (perform c s).0 ≡ s
unfolding perform set_shipping_address set_billing_address select_shipping_option
    select_payment_handler set_tax_amount mark_ready escalate select_mandate submit_payment_token
    set_stripe_session_id set_stripe_payment_intent_id set_stripe_payment_status complete cancel
perform_error_unchanged (marks_ready t) s h = ground arith
perform_error_unchanged c s h = ground arith

-- No edge leaves the states `completed` and `cancelled`.
closed_⟶ : {a b : CheckoutStatus} → a ⟶ b → (a ≡ completed) ⊎ (a ≡ cancelled) → b ≡ a
closed_⟶ stay h = refl
closed_⟶ ready h = ground arith
closed_⟶ hand_off h = ground arith
closed_⟶ finish h = ground arith
closed_⟶ finish_escalated h = ground arith
closed_⟶ abandon h = ground arith
closed_⟶ abandon_ready h = ground arith
closed_⟶ abandon_escalated h = ground arith

-- The session after a list of calls, whose errors the callers return and do not undo.
abbrev pub run : List SessionCall → CheckoutSession → CheckoutSession
run [] s = s
run (c ∷ cs) s = run cs (perform c s).0

-- A session that waits for its completion is complete, and one that has a completion time is one
-- that was completed.
pub record IsCoherent (s : CheckoutSession) : Type 0 where
  pub ready_shipping : s.status ≡ ready_for_complete → is_none s.shipping_address ≡ false
  pub ready_billing : s.status ≡ ready_for_complete → is_none s.billing_address ≡ false
  pub ready_option : s.status ≡ ready_for_complete → is_none s.shipping_option ≡ false
  pub ready_handler : s.status ≡ ready_for_complete → is_empty s.payment_handler ≡ false
  pub escalated_url : s.status ≡ requires_escalation → is_empty s.continue_url ≡ false
  pub completed_time : s.status ≡ completed → is_none s.completed_at ≡ false
  pub open_time : s.status ≢ completed → s.completed_at ≡ none

new_checkout_session-IsCoherent :
    (id user cart : KernelId) (snapshot : CartSnapshot) (t u : Time) (s : CheckoutSession)
    → new_checkout_session id user cart snapshot t u ≡ ok s
    → IsCoherent s
unfolding new_checkout_session
new_checkout_session-IsCoherent id user cart snapshot t u s e = ground arith

perform-IsCoherent :
    (c : SessionCall) (s : CheckoutSession) → IsCoherent s → IsCoherent (perform c s).0
unfolding perform set_shipping_address set_billing_address select_shipping_option
    select_payment_handler set_tax_amount mark_ready escalate select_mandate submit_payment_token
    set_stripe_session_id set_stripe_payment_intent_id set_stripe_payment_status complete cancel
perform-IsCoherent (marks_ready t) s h = ground arith
perform-IsCoherent c s h = ground arith

run-IsCoherent_from :
    (cs : List SessionCall) (s : CheckoutSession) → IsCoherent s → IsCoherent (run cs s)
run-IsCoherent_from [] s h = h
run-IsCoherent_from (c ∷ cs) s h = run-IsCoherent_from cs (perform c s).0 (perform-IsCoherent c s h)

-- Whatever is called on a new session, in any order: it is ready for completion only with both
-- addresses, a shipping option and a payment handler, escalated only with an address to go on at,
-- and has a completion time exactly while completed.
pub run-IsCoherent :
    (id user cart : KernelId) (snapshot : CartSnapshot) (t u : Time) (s : CheckoutSession)
    (cs : List SessionCall)
    → new_checkout_session id user cart snapshot t u ≡ ok s
    → IsCoherent (run cs s)
run-IsCoherent id user cart snapshot t u s cs e =
    run-IsCoherent_from cs s (new_checkout_session-IsCoherent id user cart snapshot t u s e)

perform_closed :
    (c : SessionCall) (s : CheckoutSession)
    → (s.status ≡ completed) ⊎ (s.status ≡ cancelled)
    → (perform c s).0.status ≡ s.status
perform_closed c s h = closed_⟶ (perform-⟶ c s) h

-- A completed or cancelled session stays so under all further calls.
pub run_closed :
    (cs : List SessionCall) (s : CheckoutSession)
    → (s.status ≡ completed) ⊎ (s.status ≡ cancelled)
    → (run cs s).status ≡ s.status
run_closed [] s h = refl
run_closed (c ∷ cs) s h =
    let same = perform_closed c s h in run_closed cs (perform c s).0 (rw same h) ∙ same
