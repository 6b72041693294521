-- ===== src/Sagas/Compensation.antt =====
-- interfaces/rest/saga.go: whether the compensation of a branch undoes it.
use mall.Base.{
  ℕ, ◌+◌, ◌≡◌, ◌∙◌, sym, ap, refl, Option, none, some, List, [], ◌∷◌, String, arith, pos, ◌+ℤ◌,
  ◌-ℤ◌, ◌≤ℤ◌, ◌<ℤ◌, ℤ, int_laws, negsuc, pos_part, eqb_ℤ, eq_of_parts, Bool-cases, inl, inr,
}
use mall.Kernel.{
  KernelId, Time, Error, Repository, AllFound, ok, err, new_domain_error, invalid_argument,
  modify_stored_refused,
}
use mall.Inventory.Item
use mall.Inventory.Item.{InventoryItem}
use mall.Inventory.Invariant.{IsSound, available_exact}
use mall.Inventory.Service.{reserve}
use mall.Sagas.Handlers.{
  SagaItem, SagaReserveReq, Body, decoded, Reply, write_saga_ok, reply_to_all, call_each,
  reserve_item, release_item, reserve_inventory, release_inventory,
}
use mall.Sagas.Numbers.{
  Numbers, numbers, found_numbers, total, raise, lower, lower-raise, stock, IsShelf,
}
use mall.Sagas.Holding.{found_item}
use mall.Sagas.Undoing.{
  total_own, call_each_failed, Covers, Holds, reserve_each_ok, release_each_ok,
}

short_stock :
    (q : ℤ) (now : Time) (b : InventoryItem)
    → IsSound b
    → pos 0 <ℤ q
    → b.quantity_available <ℤ b.reserved_quantity +ℤ q
    → (e : Error) × ((Item.reserve q now b).1 ≡ some e)
unfolding Item.reserve
short_stock q now b sound positive short = (
  new_domain_error invalid_argument "insufficient stock",
  grind (int_laws, available_exact b sound),
)

quantity_total : (q : ℤ) → pos 0 <ℤ q → pos (pos_part q + 0) ≡ q
quantity_total (pos n) h = ap pos (omega arith)
quantity_total (negsuc n) h = absurd (omega (arith, h))

reply_to_all_ok :
    {S : Type 0} (text : Error → String) (o : Option Error × S)
    → (reply_to_all text o).0 ≡ write_saga_ok
    → o.0 ≡ none
reply_to_all_ok text (none, s) h = refl
reply_to_all_ok text (some e, s) h = absurd (ground (arith, ap (λ (r : Reply). r.status) h))

reply_to_all-none :
    {S : Type 0} (text : Error → String) (o : Option Error × S)
    → o.0 ≡ none
    → (reply_to_all text o).0 ≡ write_saga_ok
reply_to_all-none text (none, s) h = refl
reply_to_all-none text (some e, s) h = absurd (ground (arith, h))

reply_to_all-some :
    {S : Type 0} (text : Error → String) (o : Option Error × S) (e : Error)
    → o.0 ≡ some e
    → (reply_to_all text o).0.status ≡ 409
reply_to_all-some text (none, s) e h = absurd (ground (arith, h))
reply_to_all-some text (some x, s) e h = refl

reply_to_all_end :
    {S : Type 0} (text : Error → String) (o : Option Error × S) → (reply_to_all text o).1 ≡ o.1
reply_to_all_end text (none, s) = refl
reply_to_all_end text (some e, s) = refl

module _ {S : Type 0} (repo : Repository S InventoryItem KernelId)
    (kept : InventoryItem → InventoryItem) (shelf : IsShelf repo kept)
    (kept-IsSound : (i : InventoryItem) → IsSound i → IsSound (kept i)) where
  Holds-Covers :
      (items : List SagaItem) (s s' : S)
      → AllFound repo IsSound s
      → Holds repo kept items s s'
      → Covers repo kept items s'
  Holds-Covers items s s' all held k some_of_it =
      let (n, known) = held.knows k some_of_it in
      let (b, found, same) = found_item (repo.find k s) n known in
      let sound : pos 0 ≤ℤ n.1 =
        rw (sym (ap (λ (x : Numbers). x.1) same)) ((all k b found).reserved_nonneg) in
      (
        (n.0, n.1 +ℤ pos (total k items)),
        held.raised k ∙ ap (raise (total k items)) known,
        omega (int_laws, sound),
      )

  module _ (text : Error → String) (items : List SagaItem) (clock later : ℕ → Time) (s : S)
      (all : AllFound repo IsSound s) where
    abbrev body : Body SagaReserveReq
    body = decoded (record { items = items })

    -- On a faithful storage that has room for every item, and whose items are all sound: where
    -- ReserveInventory has replied that it succeeded, ReleaseInventory of the same items, which may
    -- name a product more than once, replies that it succeeded, and afterwards every product has
    -- the stock and the reserved quantity of before the reservation.
    pub release-reserve_inventory :
        (reserve_inventory repo text body clock s).0 ≡ write_saga_ok
        → let (reply, s') =
            release_inventory repo text body later (reserve_inventory repo text body clock s).1 in
          (reply ≡ write_saga_ok) × ((k : KernelId) → stock repo kept s' k ≡ stock repo kept s k)
    unfolding reserve_inventory release_inventory
    release-reserve_inventory replied =
        let done = reply_to_all_ok text (call_each (reserve_item repo) items clock s) replied in
        let held = reserve_each_ok repo kept shelf kept-IsSound items clock s all done in
        let (released, lowered) =
          release_each_ok repo kept shelf kept-IsSound items later _ held.sound held.positive
            (Holds-Covers items s _ all held) in
        rw
          (
            reply_to_all_end text (call_each (reserve_item repo) items clock s),
            reply_to_all_end text (call_each (release_item repo) items later _),
          )
          (
            reply_to_all-none text _ released,
            λ k.
                lowered k
                ∙ ap (lower (total k items)) (held.raised k)
                ∙ lower-raise (total k items) _,
          )

  module _ (text : Error → String) (i : SagaItem) (clock later : ℕ → Time) (s : S)
      (b : InventoryItem) (all : AllFound repo IsSound s)
      (found : repo.find i.product_id s ≡ ok b) where
    reserve_item_short :
        pos 0 <ℤ i.quantity
        → b.quantity_available <ℤ b.reserved_quantity +ℤ i.quantity
        → (e : Error) × (reserve_item repo i (clock 0) s ≡ (err e, s))
    unfolding reserve
    reserve_item_short positive short =
        let (e, refused) =
          short_stock i.quantity (clock 0) b (all i.product_id b found) positive short in
        (
          e,
          modify_stored_refused repo i.product_id (Item.reserve i.quantity (clock 0)) s b found
              refused,
        )

    one_covered :
        pos 0 <ℤ i.quantity → i.quantity ≤ℤ b.reserved_quantity → Covers repo kept (i ∷ []) s
    one_covered positive enough k some_of_it = elim (Bool-cases (eqb_ℤ k i.product_id)) [
      | inl same ↦
          let here = eq_of_parts k i.product_id (ground (arith, same)) in
          (numbers b, rw (here, found) refl, ground (arith, same, enough))
      | inr other ↦ absurd (ground (arith, some_of_it, other))
    ]

    -- On such a storage, where ReserveInventory is asked for one item, for a quantity that is
    -- positive and that the free stock does not cover, it replies 409 and changes nothing. Where
    -- others have reserved as much, its compensation with the same item replies that it succeeded,
    -- and takes the quantity from what they have reserved.
    pub release_inventory_takes :
        pos 0 <ℤ i.quantity
        → b.quantity_available <ℤ b.reserved_quantity +ℤ i.quantity
        → i.quantity ≤ℤ b.reserved_quantity
        → let req : Body SagaReserveReq = decoded (record { items = i ∷ [] }) in
          let (reply, s') = reserve_inventory repo text req clock s in
          let (reply', s'') = release_inventory repo text req later s' in
          (reply.status ≡ 409)
          × (s' ≡ s)
          × (reply' ≡ write_saga_ok)
          × (stock repo kept s'' i.product_id
              ≡ some (b.quantity_available, b.reserved_quantity -ℤ i.quantity))
    unfolding reserve_inventory release_inventory
    release_inventory_takes positive short enough =
        let (e, refused) = reserve_item_short positive short in
        let failed = call_each_failed (reserve_item repo) i [] clock s e refused in
        let (released, lowered) =
          release_each_ok repo kept shelf kept-IsSound (i ∷ []) later s all (positive, tt)
            (one_covered positive enough) in
        let taken : lower (total i.product_id (i ∷ [])) (some (numbers b))
            ≡ some (b.quantity_available, b.reserved_quantity -ℤ i.quantity) =
          rw (total_own i []) (
            ap (λ z. some (b.quantity_available, b.reserved_quantity -ℤ z))
              (quantity_total i.quantity positive)) in
        rw (failed, reply_to_all_end text (call_each (release_item repo) (i ∷ []) later s))
          (
            refl,
            refl,
            reply_to_all-none text _ released,
            lowered i.product_id ∙ ap (lower _) (ap found_numbers found) ∙ taken,
          )
