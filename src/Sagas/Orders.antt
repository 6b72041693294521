-- ===== src/Sagas/Orders.antt =====
-- application/order/saga.go and dtm_saga.go: the two consumers of a completed checkout's event.
-- What json.Unmarshal makes of the event's bytes is an argument, a payload or an error. Logging is
-- left out.
use Prim.Native.String.{◌++◌ as concat}
use mall.Base.{String, Option, none, some, List, not, if◌then◌else◌, ℤ, pos, str_eq, decimal, map}
use mall.Kernel.{
  KernelId, Time, Result, ok, err, Error, Action, Repository, World, new_aggregate_root,
}
use mall.Checkout.Values.{
  CartSnapshotItem, Address, ShippingOption, new_cart_snapshot, completed, status_text,
}
use mall.Checkout.Session.{CheckoutSession}
use mall.Order.Types.{Order}
use mall.Order.Service.{create_order}
use mall.Sagas.Handlers.{SagaItem, SagaOrderCreateReq}

pub record CheckoutCompletedPayload : Type 0 where
  pub checkout_id : KernelId
  pub user_id : KernelId
  pub cart_id : KernelId
  pub status : String
  pub subtotal : ℤ
  pub shipping_cost : ℤ
  pub tax_amount : ℤ
  pub grand_total : ℤ
  pub payment_handler : String
  pub mandate_id : KernelId
  pub items : List CartSnapshotItem
  pub shipping_address : Option Address
  pub billing_address : Option Address
  pub shipping_option : Option ShippingOption

-- `now` is the reading of the function, `created` and `updated` those of `NewAggregateRoot`.
unfoldable pub rebuild_session : CheckoutCompletedPayload → Time → Time → Time → CheckoutSession
rebuild_session evt now created updated = record {
  root = new_aggregate_root evt.checkout_id created updated;
  user_id = evt.user_id;
  cart_id = evt.cart_id;
  cart_snapshot = new_cart_snapshot evt.items;
  shipping_address = evt.shipping_address;
  billing_address = evt.billing_address;
  shipping_option = evt.shipping_option;
  payment_handler = evt.payment_handler;
  mandate_id = pos 0;
  wallet_provider = "";
  wallet_token = "";
  subtotal = evt.subtotal;
  shipping_cost = evt.shipping_cost;
  tax_amount = evt.tax_amount;
  grand_total = evt.grand_total;
  status = completed;
  continue_url = "";
  stripe_session_id = "";
  stripe_payment_intent_id = "";
  stripe_payment_status = "";
  completed_at = some now;
}

-- `FindByCheckoutID`: an order, or an error.
abbrev pub FindByCheckout : Type 0 → Type 0
FindByCheckout S = KernelId → S → Result Order

-- The orders, and the generator of ids.
pub record SagaWorld (S G : Type 0) : Type 0 where
  pub orders : World S Order
  pub ids : G

-- The readings of a call: of `rebuildSession` and of `NewOrderFromCheckout`.
pub record SagaClock : Type 0 where
  pub now : Time
  pub created : Time
  pub updated : Time
  pub ordered : Time

abbrev error_of : {A : Type 0} → Result A → Option Error
error_of (ok a) = none
error_of (err e) = some e

module _ {S G : Type 0} (repo : Repository S Order KernelId) (find_by_checkout : FindByCheckout S)
    (id_gen : Action G KernelId) where
  abbrev order_created :
      Result KernelId × G
      → SagaClock
      → CheckoutCompletedPayload
      → World S Order
      → Option Error × SagaWorld S G
  order_created (err e, g) t evt w = (some e, record { orders = w; ids = g })
  order_created (ok id, g) t evt w =
      let (r, w') =
        create_order repo id (rebuild_session evt t.now t.created t.updated) t.ordered w in
      (error_of r, record { orders = w'; ids = g })

  -- From the look-up on. Any error of it counts as no order.
  abbrev unless_ordered :
      Result Order
      → SagaClock
      → CheckoutCompletedPayload
      → SagaWorld S G
      → Option Error × SagaWorld S G
  unless_ordered (ok existing) t evt w = (none, w)
  unless_ordered (err e) t evt w = order_created (id_gen w.ids) t evt w.orders

  unfoldable pub handle :
      Result CheckoutCompletedPayload → SagaClock → SagaWorld S G → Option Error × SagaWorld S G
  handle (err e) t w = (some e, w)
  handle (ok evt) t w =
      if not (str_eq evt.status (status_text completed))
      then (none, w)
      else unless_ordered (find_by_checkout evt.checkout_id w.orders.store) t evt w

-- The variant that submits a saga in place of making the order.
abbrev SubmitFn : Type 0 → Type 0
SubmitFn X =
    String → String → String → List SagaItem → KernelId → SagaOrderCreateReq → X → Option Error × X

pub record DtmCheckoutSaga (G X : Type 0) : Type 0 where
  pub submit_fn : SubmitFn X
  pub dtm_server : String
  pub cb_url : String
  pub id_gen : Action G KernelId

-- The generator of ids, and what stands behind the DTM client.
pub record DtmWorld (G X : Type 0) : Type 0 where
  pub ids : G
  pub dtm : X

abbrev pub saga_item : CartSnapshotItem → SagaItem
saga_item i = record { product_id = i.product_id; quantity = i.quantity }

abbrev pub saga_gid : KernelId → KernelId → String
saga_gid checkout_id id = concat "co-" (concat (decimal checkout_id) (concat "-" (decimal id)))

abbrev pub saga_order : KernelId → CheckoutCompletedPayload → SagaOrderCreateReq
saga_order id evt = record {
  order_id = id;
  checkout_id = evt.checkout_id;
  user_id = evt.user_id;
  cart_id = evt.cart_id;
}

module _ {S G X : Type 0} (saga : DtmCheckoutSaga G X) (find_by_checkout : FindByCheckout S) where
  abbrev saga_submitted :
      Result KernelId × G → CheckoutCompletedPayload → X → Option Error × DtmWorld G X
  saga_submitted (err e, g) evt x = (some e, record { ids = g; dtm = x })
  saga_submitted (ok id, g) evt x =
      let (e, x') =
        saga.submit_fn saga.dtm_server (saga_gid evt.checkout_id id) saga.cb_url
          (map saga_item evt.items) evt.mandate_id (saga_order id evt) x in
      (e, record { ids = g; dtm = x' })

  abbrev unless_there :
      Result Order → CheckoutCompletedPayload → DtmWorld G X → Option Error × DtmWorld G X
  unless_there (ok existing) evt w = (none, w)
  unless_there (err e) evt w = saga_submitted (saga.id_gen w.ids) evt w.dtm

  unfoldable pub handle_dtm :
      Result CheckoutCompletedPayload → S → DtmWorld G X → Option Error × DtmWorld G X
  handle_dtm (err e) orders w = (some e, w)
  handle_dtm (ok evt) orders w =
      if not (str_eq evt.status (status_text completed))
      then (none, w)
      else unless_there (find_by_checkout evt.checkout_id orders) evt w
