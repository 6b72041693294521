-- ===== src/Order/Machine.antt =====
-- The life of an order under all the methods that change it.
use mall.Base.{
  ℕ, ◌+◌, ◌≤◌, String, ◌≡◌, refl, sym, subst, Bool, true, false, not, Option, none, some, List, [],
  ◌∷◌, arith, is_none, is_empty,
}
use mall.Kernel.{KernelId, Time, ok, Outcome, Error}
use mall.Checkout.Session.{CheckoutSession}
use mall.Order.Types.{
  OrderStatus, confirmed, processing, shipped, delivered, returned, cancelled, Order,
}
use mall.Order.Creation.{new_order_is}
use mall.Order.Life.{
  new_order_from_checkout, order_of, start_processing, ship, mark_delivered, return_order, cancel,
}

-- A call of a method, with its arguments and clock readings.
pub data OrderCall : Type 0 where
  starts_processing delivers returns cancels : Time → Time → OrderCall
  ships : String → String → Time → Time → OrderCall

unfoldable pub perform_order : OrderCall → Order → Outcome Order
perform_order (starts_processing now t) o = start_processing now t o
perform_order (ships number carrier now t) o = ship number carrier now t o
perform_order (delivers now t) o = mark_delivered now t o
perform_order (returns now t) o = return_order now t o
perform_order (cancels now t) o = cancel now t o

-- The edges of the state diagram.
infix 40 ◌⟶◌
pub data ◌⟶◌ : OrderStatus → OrderStatus → Type 0 where
  process : confirmed ⟶ processing
  send : processing ⟶ shipped
  arrive : shipped ⟶ delivered
  send_back : delivered ⟶ returned
  call_off : confirmed ⟶ cancelled
  call_off_late : processing ⟶ cancelled

ruleset edges = (process, send, arrive, send_back, call_off, call_off_late)

-- A method of an order that succeeds follows an edge of the diagram.
pub perform_order-⟶ :
    (c : OrderCall) (o : Order)
    → (perform_order c o).1 ≡ none
    → o.status ⟶ (perform_order c o).0.status
unfolding perform_order start_processing ship mark_delivered return_order cancel
perform_order-⟶ (starts_processing now t) o h = grind (arith, edges)
perform_order-⟶ c o h = grind (arith, edges)

-- A method that returns an error leaves the order as it was.
pub perform_order_error_unchanged :
    (c : OrderCall) (o : Order) {e : Error}
    → (perform_order c o).1 ≡ some e
    → (perform_order c o).0 ≡ o
unfolding perform_order start_processing ship mark_delivered return_order cancel
perform_order_error_unchanged (starts_processing now t) o h = ground arith
perform_order_error_unchanged c o h = ground arith

-- No method changes what was ordered, by whom, and for how much.
pub perform_order_same_deal :
    (c : OrderCall) (o : Order)
    → let o' = (perform_order c o).0 in
      (o'.user_id ≡ o.user_id)
      × (o'.checkout_id ≡ o.checkout_id)
      × (o'.items ≡ o.items)
      × (o'.grand_total ≡ o.grand_total)
      × (o'.confirmed_at ≡ o.confirmed_at)
unfolding perform_order start_processing ship mark_delivered return_order cancel
perform_order_same_deal (starts_processing now t) o = ground arith
perform_order_same_deal c o = ground arith

abbrev pub has_shipped : OrderStatus → Bool
has_shipped shipped = true
has_shipped delivered = true
has_shipped returned = true
has_shipped _ = false

abbrev pub has_arrived : OrderStatus → Bool
has_arrived delivered = true
has_arrived returned = true
has_arrived _ = false

abbrev pub is_returned : OrderStatus → Bool
is_returned returned = true
is_returned _ = false

abbrev pub is_cancelled : OrderStatus → Bool
is_cancelled cancelled = true
is_cancelled _ = false

-- The dates and the shipment of an order tell its status.
pub record IsDated (o : Order) : Type 0 where
  pub shipped_date : is_none o.shipped_at ≡ not (has_shipped o.status)
  pub shipped_number : is_empty o.tracking_number ≡ not (has_shipped o.status)
  pub shipped_carrier : is_empty o.carrier ≡ not (has_shipped o.status)
  pub arrived_date : is_none o.delivered_at ≡ not (has_arrived o.status)
  pub returned_date : is_none o.returned_at ≡ not (is_returned o.status)
  pub cancelled_date : is_none o.cancelled_at ≡ not (is_cancelled o.status)
  pub processed_date : o.status ≡ confirmed → o.processing_at ≡ none
  pub sent_processed : has_shipped o.status ≡ true → is_none o.processing_at ≡ false
  pub processing_date : o.status ≡ processing → is_none o.processing_at ≡ false

order_of-IsDated :
    (id : KernelId) (session : CheckoutSession) (now : Time) → IsDated (order_of id session now)
unfolding order_of
order_of-IsDated id session now = record {
  shipped_date = refl;
  shipped_number = refl;
  shipped_carrier = refl;
  arrived_date = refl;
  returned_date = refl;
  cancelled_date = refl;
  processed_date = λ e. refl;
  sent_processed = λ e. ground arith;
  processing_date = λ e. ground arith;
}

new_order-IsDated :
    (id : KernelId) (session : CheckoutSession) (now : Time) (o : Order)
    → new_order_from_checkout id session now ≡ ok o
    → IsDated o
new_order-IsDated id session now o e =
    subst IsDated (sym (new_order_is id session now o e).0) (order_of-IsDated id session now)

perform_order-IsDated : (c : OrderCall) (o : Order) → IsDated o → IsDated (perform_order c o).0
unfolding perform_order start_processing ship mark_delivered return_order cancel
perform_order-IsDated (starts_processing now t) o h = ground arith
perform_order-IsDated c o h = ground arith

-- The order after a list of calls, whose errors the callers return, and the calls that succeeded.
abbrev pub run_order : List OrderCall → Order → Order
run_order [] o = o
run_order (c ∷ cs) o = run_order cs (perform_order c o).0

run_order-IsDated_from : (cs : List OrderCall) (o : Order) → IsDated o → IsDated (run_order cs o)
run_order-IsDated_from [] o h = h
run_order-IsDated_from (c ∷ cs) o h =
    run_order-IsDated_from cs (perform_order c o).0 (perform_order-IsDated c o h)

-- Whatever is called on a new order, in any sequence: it has a shipping date, a tracking number and
-- a carrier exactly if it was shipped, a delivery date exactly if it arrived, a return date exactly
-- if it was returned, a cancellation date exactly if it was cancelled, and a processing date while
-- it is processed and ever after it was shipped.
pub run_order-IsDated :
    (id : KernelId) (session : CheckoutSession) (now : Time) (o : Order) (cs : List OrderCall)
    → new_order_from_checkout id session now ≡ ok o
    → IsDated (run_order cs o)
run_order-IsDated id session now o cs e =
    run_order-IsDated_from cs o (new_order-IsDated id session now o e)

-- How far an order is from an end.
abbrev pub steps_left : OrderStatus → ℕ
steps_left confirmed = 4
steps_left processing = 3
steps_left shipped = 2
steps_left delivered = 1
steps_left returned = 0
steps_left cancelled = 0

abbrev pub count_ok : Option Error → ℕ
count_ok none = 1
count_ok (some e) = 0

abbrev pub successes : List OrderCall → Order → ℕ
successes [] o = 0
successes (c ∷ cs) o = count_ok (perform_order c o).1 + successes cs (perform_order c o).0

perform_order_steps :
    (c : OrderCall) (o : Order)
    → count_ok (perform_order c o).1 + steps_left (perform_order c o).0.status ≤ steps_left o.status
unfolding perform_order start_processing ship mark_delivered return_order cancel
perform_order_steps (starts_processing now t) o = ground arith
perform_order_steps c o = ground arith

-- Of any sequence of calls no more succeed than the status has steps left: four for a confirmed
-- order, none for one that was returned or cancelled.
pub successes-le : (cs : List OrderCall) (o : Order) → successes cs o ≤ steps_left o.status
successes-le [] o = omega arith
successes-le (c ∷ cs) o =
    omega (arith, perform_order_steps c o, successes-le cs (perform_order c o).0)
