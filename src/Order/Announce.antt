-- ===== src/Order/Announce.antt =====
-- What the order service publishes.
use mall.Base.{◌≡◌, refl, ap, sym, ◌≢◌, ◌∙◌, none, [], ◌∷◌, ◌++◌, arith}
use mall.Kernel.{
  KernelId, Result, ok, err, Outcome, Error, Action, Repository, World, modify_stored,
  modify_stored_done, IsFaithful, modify_stored-Ends, Ends,
}
use mall.Order.Types.{Order, drop_events}
use mall.Order.Machine.{
  OrderCall, starts_processing, ships, delivers, returns, cancels, perform_order,
}
use mall.Order.Life.{start_processing, ship, mark_delivered, return_order, cancel}
use mall.Order.Service
use mall.Order.Service.{modify_order, publish_events}

-- A method that succeeds on an order with no pending events leaves one event, whose name is
-- published.
one_event :
    {S : Type 0} (c : OrderCall) (o : Order) (w : World S Order)
    → o.events ≡ []
    → (perform_order c o).1 ≡ none
    → (publish_events (perform_order c o).0 w).1.published
      ≡ w.published ++ ((perform_order c o).0 ∷ [])
unfolding perform_order start_processing ship mark_delivered return_order cancel publish_events
one_event (starts_processing now t) o w none_pending h = ground arith
one_event c o w none_pending h = ground arith

published_once :
    {S : Type 0} (o : Order) (w : World S Order)
    → ((publish_events o w).0 ≡ ok (drop_events o)) × ((publish_events o w).1.store ≡ w.store)
unfolding publish_events
published_once o w = (refl, refl)

published_ok :
    {S : Type 0} (o : Order) (w : World S Order) {e : Error} → (publish_events o w).0 ≢ err e
unfolding publish_events
published_ok o w h = cc

module _ {S : Type 0} (repo : Repository S Order KernelId) where
  -- The methods of `OrderService` on a stored order.
  abbrev pub serve : OrderCall → KernelId → Action (World S Order) Order
  serve (starts_processing now t) id = Service.start_processing repo id now t
  serve (ships number carrier now t) id = Service.ship repo id number carrier now t
  serve (delivers now t) id = Service.mark_delivered repo id now t
  serve (returns now t) id = Service.return_order repo id now t
  serve (cancels now t) id = Service.cancel repo id now t

  serve_lem :
      (c : OrderCall) (id : KernelId) (w : World S Order)
      → serve c id w ≡ modify_order repo id (perform_order c) w
  unfolding perform_order Service.start_processing Service.ship Service.mark_delivered
      Service.return_order Service.cancel
  serve_lem (starts_processing now t) id w = refl
  serve_lem c id w = refl

  -- A change that is stored is published.
  modify_order_done :
      (method : Order → Outcome Order) (id : KernelId) (w : World S Order) (a : Order) (s : S)
      → modify_stored repo id method w.store ≡ (ok a, s)
      → modify_order repo id method w ≡ publish_events a (record w { store = s })
  unfolding modify_order
  modify_order_done method id w a s e = ground (arith, e)

  modify_order_failed :
      (method : Order → Outcome Order) (id : KernelId) (w : World S Order) (e : Error) (s : S)
      → modify_stored repo id method w.store ≡ (err e, s)
      → modify_order repo id method w ≡ (err e, record w { store = s })
  unfolding modify_order
  modify_order_failed method id w e s h = ground (arith, h)

  modify_order_error :
      (kept : Order → Order) (faithful : IsFaithful repo (λ o. o.id) kept)
      (method : Order → Outcome Order) (id : KernelId) (w : World S Order) {e : Error}
      (end : Result Order × S)
      → modify_stored repo id method w.store ≡ end
      → Ends repo (λ o. o.id) kept faithful id method w.store end
      → (modify_order repo id method w).0 ≡ err e
      → (modify_order repo id method w).1 ≡ w
  modify_order_error kept faithful method id w (ok a, s) same ends h =
      let done = modify_order_done method id w a s same in
      absurd (
        published_ok a (record w { store = s })
          (ap (λ (o : Result Order × World S Order). o.0) (sym done) ∙ h))
  modify_order_error kept faithful method id w (err x, s) same ends h =
      rw (modify_order_failed method id w x s same) (rw ends refl)

  -- Where the storage gives an order with no pending events and saves the changed one, a call whose
  -- method succeeds returns the changed order with no pending events, stores it, and publishes it
  -- exactly once.
  pub serve_publishes :
      (c : OrderCall) (id : KernelId) (w : World S Order) (o : Order)
      → repo.find id w.store ≡ ok o
      → o.events ≡ []
      → (perform_order c o).1 ≡ none
      → (repo.save (perform_order c o).0 w.store).0 ≡ none
      → let (r, w') = serve c id w in
        (r ≡ ok (drop_events (perform_order c o).0))
        × (w'.store ≡ (repo.save (perform_order c o).0 w.store).1)
        × (w'.published ≡ w.published ++ ((perform_order c o).0 ∷ []))
  serve_publishes c id w o found none_pending done saved =
      let end = modify_stored_done repo id (perform_order c) w.store o found done saved in
      let (r, stored) =
        published_once (perform_order c o).0
          (record w { store = (repo.save (perform_order c o).0 w.store).1 }) in
      rw (serve_lem c id w, modify_order_done (perform_order c) id w _ _ end)
        (
          r,
          stored,
          one_event c o (record w { store = (repo.save (perform_order c o).0 w.store).1 })
              none_pending done,
        )

  -- Over a faithful repository, a call that returns an error has published nothing and stored
  -- nothing.
  pub serve_error :
      (kept : Order → Order) (c : OrderCall) (id : KernelId) (w : World S Order) {e : Error}
      → IsFaithful repo (λ o. o.id) kept
      → (serve c id w).0 ≡ err e
      → (serve c id w).1 ≡ w
  serve_error kept c id w faithful h =
      let same = serve_lem c id w in
      ap (λ (o : Result Order × World S Order). o.1) same
      ∙ (modify_order_error kept faithful (perform_order c) id w
          (modify_stored repo id (perform_order c) w.store) refl
          (modify_stored-Ends repo (λ o. o.id) kept faithful id (perform_order c) w.store)
          (ap (λ (o : Result Order × World S Order). o.0) (sym same) ∙ h))
