-- ===== src/Checkout/Session.antt =====
-- domain/checkout/checkout.go. A method takes the clock readings that it makes, in their order, and
-- returns the changed session with its error.
use Prim.Native.String.{◌++◌ as concat}
use mall.Base.{
  String, Bool, not, ◌&&◌, Option, none, some, if◌then◌else◌, ℤ, pos, leb_ℤ, add64, is_empty,
  is_none, no_items,
}
use mall.Kernel.{
  KernelId, Time, AggregateRoot, new_aggregate_root, add_event, clear_events, touch_root, Result,
  ok, err, Outcome, invalid, new_domain_error, invalid_argument, conflict,
}
use mall.Checkout.Values.{
  CheckoutStatus, incomplete, ready_for_complete, requires_escalation, completed, cancelled,
  status_text, status_eq, CartSnapshot, Address, is_valid, ShippingOption, CheckoutEvent,
  checkout_created, checkout_updated, checkout_ready_for_complete, checkout_requires_escalation,
  checkout_completed, checkout_cancelled,
}

pub record CheckoutSession : Type 0 where
  pub root : AggregateRoot CheckoutEvent
  pub open root use *
  pub user_id : KernelId
  pub cart_id : KernelId
  pub cart_snapshot : CartSnapshot
  pub shipping_address : Option Address
  pub billing_address : Option Address
  pub shipping_option : Option ShippingOption
  pub payment_handler : String
  pub mandate_id : KernelId
  pub wallet_provider : String
  pub wallet_token : String
  pub subtotal : ℤ
  pub shipping_cost : ℤ
  pub tax_amount : ℤ
  pub grand_total : ℤ
  pub status : CheckoutStatus
  pub continue_url : String
  pub stripe_session_id : String
  pub stripe_payment_intent_id : String
  pub stripe_payment_status : String
  pub completed_at : Option Time

abbrev pub raise_event : CheckoutEvent → CheckoutSession → CheckoutSession
raise_event e s = record s { root = add_event e s.root }

unfoldable pub touch : Time → CheckoutSession → CheckoutSession
touch now s = record s { root = touch_root now s.root }

-- `s.touch()` and the event that most changes raise.
abbrev updated : Time → CheckoutSession → CheckoutSession
unfolding touch
updated now s = raise_event (checkout_updated s.id s.user_id) (touch now s)

-- The error of a call in the wrong state.
abbrev pub in_state : String → CheckoutSession → String
in_state what s = concat what (status_text s.status)

unfoldable pub recalculate_total : CheckoutSession → CheckoutSession
recalculate_total s = record s {
  grand_total = add64 (add64 s.subtotal s.shipping_cost) s.tax_amount;
}

unfoldable pub new_checkout_session :
    KernelId → KernelId → KernelId → CartSnapshot → Time → Time → Result CheckoutSession
new_checkout_session id user_id cart_id snapshot created updated_at =
    if leb_ℤ user_id (pos 0)
    then err (new_domain_error invalid_argument "user_id must be positive")
    else if leb_ℤ cart_id (pos 0)
    then err (new_domain_error invalid_argument "cart_id must be positive")
    else if no_items snapshot.items
    then err (new_domain_error invalid_argument "cart snapshot must not be empty")
    else ok (
        raise_event (checkout_created id user_id) (record {
          root = new_aggregate_root id created updated_at;
          user_id = user_id;
          cart_id = cart_id;
          cart_snapshot = snapshot;
          shipping_address = none;
          billing_address = none;
          shipping_option = none;
          payment_handler = "";
          mandate_id = pos 0;
          wallet_provider = "";
          wallet_token = "";
          subtotal = snapshot.total;
          shipping_cost = pos 0;
          tax_amount = pos 0;
          grand_total = pos 0;
          status = incomplete;
          continue_url = "";
          stripe_session_id = "";
          stripe_payment_intent_id = "";
          stripe_payment_status = "";
          completed_at = none;
        }))

unfoldable pub set_shipping_address : Address → Time → CheckoutSession → Outcome CheckoutSession
unfolding updated
set_shipping_address address now s =
    if not (status_eq s.status incomplete)
    then (s, invalid (in_state "cannot set shipping address in current state: " s))
    else if not (is_valid address)
    then (s, invalid "invalid shipping address")
    else (updated now (record s { shipping_address = some address }), none)

unfoldable pub set_billing_address : Address → Time → CheckoutSession → Outcome CheckoutSession
unfolding updated
set_billing_address address now s =
    if not (status_eq s.status incomplete)
    then (s, invalid (in_state "cannot set billing address in current state: " s))
    else if not (is_valid address)
    then (s, invalid "invalid billing address")
    else (updated now (record s { billing_address = some address }), none)

unfoldable pub select_shipping_option :
    ShippingOption → Time → CheckoutSession → Outcome CheckoutSession
unfolding updated recalculate_total
select_shipping_option option now s =
    if not (status_eq s.status incomplete)
    then (s, invalid (in_state "cannot select shipping option in current state: " s))
    else if is_empty option.id
    then (s, invalid "shipping option id must not be empty")
    else (
      updated now (
          recalculate_total
            (record s { shipping_option = some option; shipping_cost = option.cost })),
      none,
    )

unfoldable pub select_payment_handler : String → Time → CheckoutSession → Outcome CheckoutSession
unfolding updated
select_payment_handler handler now s =
    if not (status_eq s.status incomplete)
    then (s, invalid (in_state "cannot select payment handler in current state: " s))
    else if is_empty handler
    then (s, invalid "payment handler must not be empty")
    else (updated now (record s { payment_handler = handler }), none)

unfoldable pub set_tax_amount : ℤ → Time → CheckoutSession → CheckoutSession
unfolding updated recalculate_total
set_tax_amount amount now s = updated now (recalculate_total (record s { tax_amount = amount }))

unfoldable pub mark_ready : Time → CheckoutSession → Outcome CheckoutSession
unfolding touch
mark_ready now s =
    if not (status_eq s.status incomplete)
    then (s, invalid (in_state "cannot mark ready in current state: " s))
    else if is_none s.shipping_address
    then (s, invalid "shipping address required")
    else if is_none s.billing_address
    then (s, invalid "billing address required")
    else if is_none s.shipping_option
    then (s, invalid "shipping option required")
    else if is_empty s.payment_handler
    then (s, invalid "payment handler required")
    else (
      raise_event (checkout_ready_for_complete s.id s.user_id)
          (touch now (record s { status = ready_for_complete })),
      none,
    )

unfoldable pub escalate : String → Time → CheckoutSession → Outcome CheckoutSession
unfolding touch
escalate continue_url now s =
    if not (status_eq s.status incomplete)
    then (s, invalid (in_state "cannot escalate in current state: " s))
    else if is_empty continue_url
    then (s, invalid "continue_url must not be empty")
    else (
      raise_event (checkout_requires_escalation s.id s.user_id continue_url)
          (touch now (record s { status = requires_escalation; continue_url = continue_url })),
      none,
    )

unfoldable pub select_mandate : KernelId → Time → CheckoutSession → Outcome CheckoutSession
unfolding touch
select_mandate mandate_id now s =
    if not (status_eq s.status incomplete)
    then (s, invalid "can only select mandate when incomplete")
    else if leb_ℤ mandate_id (pos 0)
    then (s, invalid "mandate_id must be positive")
    else (touch now (record s { mandate_id = mandate_id }), none)

unfoldable pub submit_payment_token :
    String → String → Time → CheckoutSession → Outcome CheckoutSession
unfolding updated
submit_payment_token provider token now s =
    if not (status_eq s.status incomplete)
    then (s, invalid "can only submit payment token when incomplete")
    else if is_empty provider
    then (s, invalid "wallet provider must not be empty")
    else if is_empty token
    then (s, invalid "payment token must not be empty")
    else (updated now (record s { wallet_provider = provider; wallet_token = token }), none)

unfoldable pub set_stripe_session_id : String → Time → CheckoutSession → Outcome CheckoutSession
unfolding touch
set_stripe_session_id session_id now s =
    if not (status_eq s.status incomplete)
    then (s, invalid "can only set stripe session id when incomplete")
    else if is_empty session_id
    then (s, invalid "stripe session id must not be empty")
    else (touch now (record s { stripe_session_id = session_id }), none)

unfoldable pub set_stripe_payment_intent_id :
    String → Time → CheckoutSession → Outcome CheckoutSession
unfolding touch
set_stripe_payment_intent_id payment_intent_id now s =
    if not (status_eq s.status incomplete)
    then (s, invalid "can only set stripe payment intent id when incomplete")
    else if is_empty payment_intent_id
    then (s, invalid "stripe payment intent id must not be empty")
    else (touch now (record s { stripe_payment_intent_id = payment_intent_id }), none)

unfoldable pub set_stripe_payment_status : String → Time → CheckoutSession → CheckoutSession
unfolding touch
set_stripe_payment_status status now s = touch now (record s { stripe_payment_status = status })

unfoldable pub complete : Time → Time → CheckoutSession → Outcome CheckoutSession
unfolding touch
complete now touched s =
    if not (status_eq s.status ready_for_complete) && not (status_eq s.status requires_escalation)
    then (s, invalid (in_state "cannot complete checkout in current state: " s))
    else (
      raise_event (checkout_completed s.id s.user_id)
          (touch touched (record s { status = completed; completed_at = some now })),
      none,
    )

unfoldable pub cancel : Time → CheckoutSession → Outcome CheckoutSession
unfolding touch
cancel now s =
    if status_eq s.status completed
    then (s, invalid "cannot cancel completed checkout")
    else if status_eq s.status cancelled
    then (s, some (new_domain_error conflict "checkout already cancelled"))
    else (
      raise_event (checkout_cancelled s.id s.user_id) (touch now (record s { status = cancelled })),
      none,
    )

unfoldable pub is_escalation_required : CheckoutSession → Bool
is_escalation_required s = status_eq s.status requires_escalation

-- The pending events are handed on and dropped at the end of a service call.
abbrev pub drop_events : CheckoutSession → CheckoutSession
drop_events s = record s { root = clear_events s.root }
