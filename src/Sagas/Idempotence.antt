-- ===== src/Sagas/Idempotence.antt =====
-- application/order/saga.go and dtm_saga.go: what a second delivery of an event does.
use mall.Base.{◌≡◌, Option, none, arith, inl, inr, Bool-cases, true, false, subst, map, str_eq}
use mall.Kernel.{
  KernelId, Time, Result, ok, err, Error, Action, Repository, World, create_stored, Result-cases,
}
use mall.Checkout.Session.{CheckoutSession}
use mall.Checkout.Values.{completed, status_text}
use mall.Order.Types.{Order}
use mall.Order.Life.{order_of, new_order_from_checkout}
use mall.Order.Service.{create_order, publish_events}
use mall.Sagas.Orders.{
  CheckoutCompletedPayload, DtmCheckoutSaga, DtmWorld, FindByCheckout, SagaWorld, handle_dtm,
  saga_gid, saga_item, saga_order, SagaClock, handle, rebuild_session,
}

-- What the saga relies on: an order that was saved is found by its checkout.
pub record IsIndexed {S : Type 0} (repo : Repository S Order KernelId)
    (find_by_checkout : FindByCheckout S) : Type 0 where
  pub find_saved :
      (o : Order) (s : S)
      → (repo.save o s).0 ≡ none
      → (p : Order) × (find_by_checkout o.checkout_id (repo.save o s).1 ≡ ok p)

module _ {S : Type 0} (repo : Repository S Order KernelId) where
  -- An order that is made was saved, with the checkout it was made from.
  create_order_saved :
      (id : KernelId) (session : CheckoutSession) (now : Time) (w : World S Order) (r : Order)
      → (create_order repo id session now w).0 ≡ ok r
      → let o = order_of id session now in
        (o.checkout_id ≡ session.id)
        × ((repo.save o w.store).0 ≡ none)
        × ((create_order repo id session now w).1.store ≡ (repo.save o w.store).1)
  unfolding create_order create_stored new_order_from_checkout publish_events order_of
  create_order_saved id session now w r h = ground arith

module _ {S G : Type 0} (repo : Repository S Order KernelId) (find_by_checkout : FindByCheckout S)
    (indexed : IsIndexed repo find_by_checkout) (id_gen : Action G KernelId) where
  -- A call that found an order, or no reason to make one.
  handle_idle :
      (evt : CheckoutCompletedPayload) (t : SagaClock) (w : SagaWorld S G) (o : Order)
      → find_by_checkout evt.checkout_id w.orders.store ≡ ok o
      → handle repo find_by_checkout id_gen (ok evt) t w ≡ (none, w)
  unfolding handle
  handle_idle evt t w o found = ground (arith, found)

  handle_other :
      (evt : CheckoutCompletedPayload) (t : SagaClock) (w : SagaWorld S G)
      → str_eq evt.status (status_text completed) ≡ false
      → handle repo find_by_checkout id_gen (ok evt) t w ≡ (none, w)
  unfolding handle
  handle_other evt t w other = ground (arith, other)

  -- A call that made an order has left one that is found.
  handle_made :
      (evt : CheckoutCompletedPayload) (t : SagaClock) (w w' : SagaWorld S G) (e : Error)
      → str_eq evt.status (status_text completed) ≡ true
      → find_by_checkout evt.checkout_id w.orders.store ≡ err e
      → handle repo find_by_checkout id_gen (ok evt) t w ≡ (none, w')
      → (p : Order) × (find_by_checkout evt.checkout_id w'.orders.store ≡ ok p)
  unfolding handle rebuild_session
  handle_made evt t w w' e completes missing done = elim (Result-cases (id_gen w.ids).0) [
    | inr (x, no_id) ↦ absurd (ground (arith, completes, missing, done, no_id))
    | inl (id, made) ↦
        let session = rebuild_session evt t.now t.created t.updated in
        elim (Result-cases (create_order repo id session t.ordered w.orders).0) [
          | inr (x, failed) ↦ absurd (ground (arith, completes, missing, done, made, failed))
          | inl (r, fine) ↦
              let (same, saved, stored) =
                create_order_saved repo id session t.ordered w.orders r fine in
              let o = order_of id session t.ordered in
              let end : w'.orders.store ≡ (repo.save o w.orders.store).1 =
                ground (arith, completes, missing, done, made, fine, stored) in
              let (p, found) = indexed.find_saved o w.orders.store saved in
              (
                p,
                rw end (
                    subst (λ k. find_by_checkout k (repo.save o w.orders.store).1 ≡ ok p) same
                      found),
              )
        ]
  ]

  -- Over orders that are found by their checkout once they are saved: where a delivery of an event
  -- returns no error, a further delivery of the same event, at any other time, returns none either
  -- and changes nothing: it makes no second order, publishes nothing and draws no id.
  pub handle_twice :
      (event : Result CheckoutCompletedPayload) (t later : SagaClock) (w w' : SagaWorld S G)
      → handle repo find_by_checkout id_gen event t w ≡ (none, w')
      → handle repo find_by_checkout id_gen event later w' ≡ (none, w')
  unfolding handle
  handle_twice (err e) t later w w' done = absurd (ground (arith, done))
  handle_twice (ok evt) t later w w' done =
      elim (Bool-cases (str_eq evt.status (status_text completed))) [
        | inr other ↦ handle_other evt later w' other
        | inl completes ↦ elim (Result-cases (find_by_checkout evt.checkout_id w.orders.store)) [
          | inl (o, found) ↦
              let same : w ≡ w' = ground (arith, completes, found, done) in
              handle_idle evt later w' o (
                subst
                  (λ (x : SagaWorld S G). find_by_checkout evt.checkout_id x.orders.store ≡ ok o)
                  same found)
          | inr (e, missing) ↦
              let (p, found) = handle_made evt t w w' e completes missing done in
              handle_idle evt later w' p found
        ]
      ]

module _ {S G X : Type 0} (saga : DtmCheckoutSaga G X) (find_by_checkout : FindByCheckout S) where
  -- What one delivery submits.
  abbrev pub submitted : CheckoutCompletedPayload → KernelId → X → Option Error × X
  submitted evt id =
      saga.submit_fn saga.dtm_server (saga_gid evt.checkout_id id) saga.cb_url
        (map saga_item evt.items) evt.mandate_id (saga_order id evt)

  handle_dtm_submits :
      (evt : CheckoutCompletedPayload) (orders : S) (w : DtmWorld G X) (a : KernelId) (e : Error)
      → str_eq evt.status (status_text completed) ≡ true
      → find_by_checkout evt.checkout_id orders ≡ err e
      → (saga.id_gen w.ids).0 ≡ ok a
      → ((handle_dtm saga find_by_checkout (ok evt) orders w).1.dtm ≡ (submitted evt a w.dtm).1)
        × ((handle_dtm saga find_by_checkout (ok evt) orders w).1.ids ≡ (saga.id_gen w.ids).1)
  unfolding handle_dtm
  handle_dtm_submits evt orders w a e completes missing drawn =
      (ground (arith, completes, missing, drawn), ground (arith, completes, missing, drawn))

  -- The variant that submits a saga looks for the order alone, which is made later, by a branch of
  -- the saga: where an event is delivered twice before that, each delivery submits a saga, with an
  -- id, and so an order, of its own.
  pub handle_dtm_again :
      (evt : CheckoutCompletedPayload) (orders : S) (w : DtmWorld G X) (a b : KernelId) (e : Error)
      → str_eq evt.status (status_text completed) ≡ true
      → find_by_checkout evt.checkout_id orders ≡ err e
      → (saga.id_gen w.ids).0 ≡ ok a
      → (saga.id_gen (saga.id_gen w.ids).1).0 ≡ ok b
      → let first = handle_dtm saga find_by_checkout (ok evt) orders w in
        let second = handle_dtm saga find_by_checkout (ok evt) orders first.1 in
        second.1.dtm ≡ (submitted evt b (submitted evt a w.dtm).1).1
  handle_dtm_again evt orders w a b e completes missing drawn next =
      let (sent, ids) = handle_dtm_submits evt orders w a e completes missing drawn in
      let first = handle_dtm saga find_by_checkout (ok evt) orders w in
      let (again, _) = handle_dtm_submits evt orders first.1 b e completes missing (rw ids next) in
      rw sent at again
