-- ===== src/Order/Tests.antt =====
-- The order theorems at the order of a paid checkout for two pieces of one product.
use mall.Base.{◌≡◌, refl, List, [], ◌∷◌, arith, pos, add64}
use mall.Kernel.{
  KernelId, Time, new_aggregate_root, clear_events, ok, err, Result, memory, memory-IsFaithful,
  Repository, IsFaithful, Error, World, Outcome,
}
use mall.Checkout.Values.{completed}
use mall.Checkout.Session.{CheckoutSession}
use mall.Checkout.Machine.{run}
use mall.Checkout.Samples.{
  line, fresh, calls, new_fresh, calls_complete, new_cart_snapshot_total, calls_shipped,
}
use mall.Order.Types.{Order, confirmed, drop_events}
use mall.Order.Life.{new_order_from_checkout, order_of, ship}
use mall.Order.Creation.{new_order_made, order_adds_up, add_lines}
use mall.Order.Machine.{
  OrderCall, starts_processing, ships, delivers, returns, perform_order, run_order,
  run_order-IsDated, IsDated,
}
use mall.Order.Announce.{serve, serve_publishes, serve_error}

abbrev paid : CheckoutSession
paid = record fresh { status = completed; grand_total = pos 1400 }

abbrev order : Order
order = order_of (pos 5) paid 300

order_made : new_order_from_checkout (pos 5) paid 300 ≡ ok order
unfolding new_order_from_checkout
order_made = refl

pending_order : order.status ≡ confirmed
unfolding order_of
pending_order = refl

abbrev sent : List OrderCall
sent = starts_processing 310 311 ∷ ships "1Z999" "UPS" 320 321 ∷ delivers 330 331 ∷ []

run_order-IsDated_example : IsDated (run_order sent order)
run_order-IsDated_example = run_order-IsDated (pos 5) paid 300 order sent order_made

abbrev made_order : Order
made_order = order_of (pos 6) (run calls fresh) 300

order_made_from_calls : new_order_from_checkout (pos 6) (run calls fresh) 300 ≡ ok made_order
order_made_from_calls = new_order_made (pos 6) (run calls fresh) 300 calls_complete (omega arith)

order_adds_up_example :
    (add_lines (pos 0) made_order.items ≡ made_order.subtotal)
    × (made_order.grand_total
        ≡ add64 (add64 made_order.subtotal made_order.shipping_cost) made_order.tax_amount)
order_adds_up_example =
    order_adds_up (pos 1) (pos 2) (pos 3) (line ∷ []) 10 20 fresh calls (pos 6) 300 made_order
      (rw new_cart_snapshot_total new_fresh) calls_shipped order_made_from_calls

-- A storage that keeps all but the events.
abbrev orders : Repository (List Order) Order KernelId
orders = memory (λ o. o.id) drop_events

orders-IsFaithful : IsFaithful orders (λ o. o.id) drop_events
orders-IsFaithful = memory-IsFaithful (λ o. o.id) drop_events (λ o. refl)

abbrev shop : World (List Order) Order
shop = record { store = drop_events order ∷ []; published = [] }

found_order : orders.find (pos 5) shop.store ≡ ok (drop_events order)
unfolding memory order_of
found_order = refl

serve_publishes_example :
    let (r, w') = serve orders (starts_processing 310 311) (pos 5) shop in
    let o = (perform_order (starts_processing 310 311) (drop_events order)).0 in
    (r ≡ ok (drop_events o)) × (w'.store ≡ (orders.save o shop.store).1) × (w'.published ≡ o ∷ [])
unfolding perform_order order_of mall.Order.Life.start_processing memory
serve_publishes_example =
    serve_publishes orders (starts_processing 310 311) (pos 5) shop (drop_events order) found_order
      refl refl refl

serve_error_example : (serve orders (returns 310 311) (pos 5) shop).1 ≡ shop
unfolding perform_order order_of mall.Order.Life.return_order memory mall.Order.Service.return_order
    mall.Order.Service.modify_order mall.Kernel.modify_stored
serve_error_example =
    serve_error orders drop_events (returns 310 311) (pos 5) shop orders-IsFaithful refl
