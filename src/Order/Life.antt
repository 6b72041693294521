-- ===== src/Order/Life.antt =====
-- domain/order/order.go: how an order is made from a checkout, and the methods that move it on. A
-- method takes the clock readings that it makes, in their order.
use Prim.Native.String.{◌++◌ as concat}
use mall.Base.{
  String, not, ◌&&◌, Option, none, some, List, [], ◌∷◌, if◌then◌else◌, pos, leb_ℤ, is_empty,
}
use mall.Kernel.{
  KernelId, Time, new_aggregate_root, Result, ok, err, Outcome, invalid, new_domain_error,
  invalid_argument, conflict,
}
use mall.Checkout.Values.{
  CartSnapshotItem, total_price, Address, ShippingOption, completed,
  status_eq as checkout_status_eq,
}
use mall.Checkout.Session.{CheckoutSession}
use mall.Order.Types.{
  confirmed, processing, shipped, delivered, returned, cancelled, status_text, status_eq,
  order_confirmed, order_processing, order_shipped, order_delivered, order_returned,
  order_cancelled, OrderLineItem, Order, raise_event, touch,
}

unfoldable pub line_item : CartSnapshotItem → OrderLineItem
line_item item = record {
  product_id = item.product_id;
  sku = item.sku;
  name = item.name;
  quantity = item.quantity;
  unit_price = item.unit_price;
  total_price = total_price item;
}

-- The loop over the items of the snapshot.
unfoldable pub line_items : List CartSnapshotItem → List OrderLineItem
line_items [] = []
line_items (item ∷ items) = line_item item ∷ line_items items

-- Go's zero values of the two structs.
abbrev pub zero_address : Address
zero_address = record {
  line1 = "";
  line2 = "";
  city = "";
  state = "";
  postal_code = "";
  country = "";
}

abbrev pub zero_shipping_option : ShippingOption
zero_shipping_option = record { id = ""; name = ""; cost = pos 0; estimated = "" }

abbrev pub or_zero : {A : Type 0} → A → Option A → A
or_zero z none = z
or_zero z (some a) = a

-- The order that `NewOrderFromCheckout` builds. The readings inside `NewAggregateRoot` are
-- overwritten by `now`.
unfoldable pub order_of : KernelId → CheckoutSession → Time → Order
order_of id session now = raise_event (order_confirmed id session.user_id) (record {
  root = new_aggregate_root id now now;
  user_id = session.user_id;
  checkout_id = session.id;
  cart_id = session.cart_id;
  items = line_items session.cart_snapshot.items;
  shipping_address = or_zero zero_address session.shipping_address;
  billing_address = or_zero zero_address session.billing_address;
  shipping_option = or_zero zero_shipping_option session.shipping_option;
  payment_handler = session.payment_handler;
  subtotal = session.subtotal;
  shipping_cost = session.shipping_cost;
  tax_amount = session.tax_amount;
  grand_total = session.grand_total;
  status = confirmed;
  tracking_number = "";
  carrier = "";
  confirmed_at = now;
  processing_at = none;
  shipped_at = none;
  delivered_at = none;
  returned_at = none;
  cancelled_at = none;
})

unfoldable pub new_order_from_checkout : KernelId → CheckoutSession → Time → Result Order
new_order_from_checkout id session now =
    if not (checkout_status_eq session.status completed)
    then err (new_domain_error invalid_argument "checkout must be completed to create order")
    else if leb_ℤ id (pos 0)
    then err (new_domain_error invalid_argument "order id must be positive")
    else ok (order_of id session now)

unfoldable pub start_processing : Time → Time → Order → Outcome Order
unfolding touch
start_processing now touched o =
    if not (status_eq o.status confirmed)
    then (
      o,
      invalid (
          concat "can only start processing from confirmed status, current: "
            (status_text o.status)),
    )
    else (
      raise_event (order_processing o.id o.user_id)
          (touch touched (record o { status = processing; processing_at = some now })),
      none,
    )

unfoldable pub ship : String → String → Time → Time → Order → Outcome Order
unfolding touch
ship tracking_number carrier now touched o =
    if not (status_eq o.status processing)
    then (
      o,
      invalid (concat "can only ship from processing status, current: " (status_text o.status)),
    )
    else if is_empty tracking_number
    then (o, invalid "tracking number must not be empty")
    else if is_empty carrier
    then (o, invalid "carrier must not be empty")
    else (
      raise_event (order_shipped o.id o.user_id) (
          touch touched (record o {
            status = shipped;
            tracking_number = tracking_number;
            carrier = carrier;
            shipped_at = some now;
          })),
      none,
    )

unfoldable pub mark_delivered : Time → Time → Order → Outcome Order
unfolding touch
mark_delivered now touched o =
    if not (status_eq o.status shipped)
    then (
      o,
      invalid
          (concat "can only mark delivered from shipped status, current: " (status_text o.status)),
    )
    else (
      raise_event (order_delivered o.id o.user_id)
          (touch touched (record o { status = delivered; delivered_at = some now })),
      none,
    )

-- `Return`
unfoldable pub return_order : Time → Time → Order → Outcome Order
unfolding touch
return_order now touched o =
    if not (status_eq o.status delivered)
    then (
      o,
      invalid (concat "can only return from delivered status, current: " (status_text o.status)),
    )
    else (
      raise_event (order_returned o.id o.user_id)
          (touch touched (record o { status = returned; returned_at = some now })),
      none,
    )

unfoldable pub cancel : Time → Time → Order → Outcome Order
unfolding touch
cancel now touched o =
    if status_eq o.status cancelled
    then (o, some (new_domain_error conflict "order already cancelled"))
    else if not (status_eq o.status confirmed) && not (status_eq o.status processing)
    then (
      o,
      invalid (
          concat "can only cancel from confirmed or processing status, current: "
            (status_text o.status)),
    )
    else (
      raise_event (order_cancelled o.id o.user_id)
          (touch touched (record o { status = cancelled; cancelled_at = some now })),
      none,
    )
