-- ===== src/Order/Service.antt =====
-- domain/order/service.go, over a repository and the record of the publisher's calls. Logging,
-- tracing and the methods that only read are left out.
use mall.Base.{String, Bool, ◌||◌, str_eq}
use mall.Kernel.{
  KernelId, Time, Outcome, Action, ◌>>=◌, ok, Repository, World, in_store, publish_each,
  modify_stored, create_stored,
}
use mall.Checkout.Session.{CheckoutSession}
use mall.Order.Types.{Order, OrderEvent, event_name, drop_events}
use mall.Order.Life

-- The names that `publishEvents` passes on.
abbrev pub is_published : OrderEvent → Bool
is_published e =
    str_eq (event_name e) "order.confirmed"
    || str_eq (event_name e) "order.processing"
    || str_eq (event_name e) "order.shipped"
    || str_eq (event_name e) "order.delivered"
    || str_eq (event_name e) "order.returned"
    || str_eq (event_name e) "order.cancelled"

unfoldable pub publish_events : {S : Type 0} → Order → Action (World S Order) Order
unfolding publish_each
publish_events o w =
    (ok (drop_events o), record w { published = publish_each is_published o.events o w.published })

module _ {S : Type 0} (repo : Repository S Order KernelId) where
  unfoldable pub create_order : KernelId → CheckoutSession → Time → Action (World S Order) Order
  create_order id session now = do
    order ← in_store (create_stored repo (Life.new_order_from_checkout id session now))
    publish_events order

  -- Find, change, save, publish.
  unfoldable pub modify_order : KernelId → (Order → Outcome Order) → Action (World S Order) Order
  modify_order id method = do order ← in_store (modify_stored repo id method); publish_events order

  unfoldable pub start_processing : KernelId → Time → Time → Action (World S Order) Order
  start_processing id now touched = modify_order id (Life.start_processing now touched)

  unfoldable pub ship : KernelId → String → String → Time → Time → Action (World S Order) Order
  ship id tracking_number carrier now touched =
      modify_order id (Life.ship tracking_number carrier now touched)

  unfoldable pub mark_delivered : KernelId → Time → Time → Action (World S Order) Order
  mark_delivered id now touched = modify_order id (Life.mark_delivered now touched)

  unfoldable pub return_order : KernelId → Time → Time → Action (World S Order) Order
  return_order id now touched = modify_order id (Life.return_order now touched)

  unfoldable pub cancel : KernelId → Time → Time → Action (World S Order) Order
  cancel id now touched = modify_order id (Life.cancel now touched)
