-- ===== src/Sagas/Holding.antt =====
-- interfaces/rest/saga.go: the loops that reserve and release all the items of a checkout, by what
-- they do to the numbers of every product.
use mall.Base.{
  ◌≡◌, refl, ◌∙◌, ap, none, some, arith, ℤ, pos, negsuc, pos_part, eqb_ℤ, ◌+ℤ◌, ◌-ℤ◌, ◌≤ℤ◌, ◌<ℤ◌,
  int_laws, if◌then◌else◌, eq_of_parts, Bool-cases, inl, inr, sub64_exact, Option-cases,
}
use mall.Kernel.{
  KernelId, Time, Result, ok, err, Repository, AllFound, Result-cases, modify_stored_done,
  modify_stored_missing, modify_stored_refused,
}
use mall.Inventory.Item
use mall.Inventory.Item.{InventoryItem}
use mall.Inventory.Invariant.{IsSound, reserves, releases}
use mall.Inventory.Reservation.{reserve_ok_iff, reserve_available}
use mall.Inventory.Service.{reserve, release_reservation}
use mall.Inventory.Stock.{reserve-product_id, change-AllFound}
use mall.Sagas.Handlers.{SagaItem, reserve_item, release_item}
use mall.Sagas.Numbers.{
  Numbers, numbers, found_numbers, raise, lower, stock, IsShelf, stock-modify_stored,
}

then_at :
    {A : Type 0} (k p : KernelId) (z : A) {x y : A}
    → (k ≡ p → x ≡ y)
    → (if eqb_ℤ k p then x else z) ≡ (if eqb_ℤ k p then y else z)
then_at k p z same = elim (Bool-cases (eqb_ℤ k p)) [
  | inl here ↦ rw here (same (eq_of_parts k p (ground (arith, here))))
  | inr there ↦ rw there refl
]

release_reservation-product_id :
    (q : ℤ) (now : Time) (i : InventoryItem)
    → (Item.release_reservation q now i).0.product_id ≡ i.product_id
unfolding Item.release_reservation
release_reservation-product_id q now i = ground arith

pos_of_positive : (q : ℤ) → pos 0 <ℤ q → q ≡ pos (pos_part q)
pos_of_positive (pos n) h = refl
pos_of_positive (negsuc n) h = absurd (omega (arith, h))

release_numbers :
    (q : ℤ) (now : Time) (i : InventoryItem)
    → IsSound i
    → pos 0 <ℤ q
    → q ≤ℤ i.reserved_quantity
    → let (j, e) = Item.release_reservation q now i in
      (e ≡ none)
      × (j.quantity_available ≡ i.quantity_available)
      × (j.reserved_quantity ≡ i.reserved_quantity -ℤ q)
unfolding Item.release_reservation
release_numbers q now i h p c = grind (int_laws, sub64_exact i.reserved_quantity q)

-- On a sound item, a positive quantity that is reserved is released.
release_lowers :
    (q : ℤ) (now : Time) (i : InventoryItem)
    → IsSound i
    → pos 0 <ℤ q
    → q ≤ℤ i.reserved_quantity
    → let (j, e) = Item.release_reservation q now i in
      (e ≡ none) × (some (numbers j) ≡ lower (pos_part q) (some (numbers i)))
release_lowers q now i h p c =
    let (fine, a, r) = release_numbers q now i h p c in
    (
      fine,
      rw (a, r)
          (ap (λ z. some (i.quantity_available, i.reserved_quantity -ℤ z)) (pos_of_positive q p)),
    )

reserve_raises :
    (q : ℤ) (now : Time) (i : InventoryItem)
    → IsSound i
    → (Item.reserve q now i).1 ≡ none
    → (pos 0 <ℤ q)
      × (some (numbers (Item.reserve q now i).0) ≡ raise (pos_part q) (some (numbers i)))
reserve_raises q now i h done =
    let positive = ((reserve_ok_iff q i h now).0 done).0 in
    let (_, a, r) = reserve_available q i h now done in
    (
      positive,
      rw (a, r)
          (ap (λ z. some (i.quantity_available, i.reserved_quantity +ℤ z))
            (pos_of_positive q positive)),
    )

pub found_item :
    (r : Result InventoryItem) (n : Numbers)
    → found_numbers r ≡ some n
    → (b : InventoryItem) × (r ≡ ok b) × (numbers b ≡ n)
found_item (ok b) n h = (b, refl, cc)
found_item (err e) n h = absurd (ground (arith, h))

module _ {S : Type 0} (repo : Repository S InventoryItem KernelId)
    (kept : InventoryItem → InventoryItem) (shelf : IsShelf repo kept)
    (kept-IsSound : (i : InventoryItem) → IsSound i → IsSound (kept i)) where
  -- A call that succeeds has found the item and reserved the quantity.
  pub reserve_item_ok :
      (i : SagaItem) (now : Time) (s : S) (a : InventoryItem)
      → AllFound repo IsSound s
      → (reserve_item repo i now s).0 ≡ ok a
      → let s' = (reserve_item repo i now s).1 in
        (pos 0 <ℤ i.quantity)
        × AllFound repo IsSound s'
        × ((n : Numbers) × (stock repo kept s i.product_id ≡ some n))
        × ((k : KernelId)
            → stock repo kept s' k ≡ (
                if eqb_ℤ k i.product_id
                then raise (pos_part i.quantity) (stock repo kept s k)
                else stock repo kept s k))
  unfolding reserve
  reserve_item_ok i now s a all done = elim (Result-cases (repo.find i.product_id s)) [
    | inr (e, missing) ↦ absurd (
        ground
          (arith, modify_stored_missing repo i.product_id (Item.reserve i.quantity now) s missing))
    | inl (b, found) ↦ elim (Option-cases (Item.reserve i.quantity now b).1) [
      | inr (e, refused) ↦ absurd (
          ground (
            arith,
            modify_stored_refused repo i.product_id (Item.reserve i.quantity now) s b found refused,
          ))
      | inl fine ↦
          let (positive, raised) =
            reserve_raises i.quantity now b (all i.product_id b found) fine in
          (
            positive,
            change-AllFound repo kept shelf.faithful kept-IsSound i.product_id (reserves i.quantity)
                now s all (λ i f. tt),
            (numbers b, ap found_numbers found),
            λ k.
                stock-modify_stored repo kept shelf i.product_id (Item.reserve i.quantity now) s b
                  found fine (reserve-product_id i.quantity now b) k
                ∙ then_at k i.product_id _ (λ same. rw (same, found) raised),
          )
    ]
  ]

  -- A release that is covered succeeds.
  pub release_item_ok :
      (i : SagaItem) (now : Time) (s : S) (n : Numbers)
      → AllFound repo IsSound s
      → pos 0 <ℤ i.quantity
      → stock repo kept s i.product_id ≡ some n
      → i.quantity ≤ℤ n.1
      → let (r, s') = release_item repo i now s in
        ((a : InventoryItem) × (r ≡ ok a))
        × AllFound repo IsSound s'
        × ((k : KernelId)
            → stock repo kept s' k ≡ (
                if eqb_ℤ k i.product_id
                then lower (pos_part i.quantity) (stock repo kept s k)
                else stock repo kept s k))
  unfolding release_reservation
  release_item_ok i now s n all positive known covered =
      let (b, found, same) = found_item (repo.find i.product_id s) n known in
      let held : i.quantity ≤ℤ b.reserved_quantity = rw (ap (λ (x : Numbers). x.1) same) covered in
      let method = Item.release_reservation i.quantity now in
      let (fine, lowered) =
        release_lowers i.quantity now b (all i.product_id b found) positive held in
      let done =
        modify_stored_done repo i.product_id method s b found fine (shelf.roomy.saved _ s) in
      (
        ((method b).0, ap (λ (o : Result InventoryItem × S). o.0) done),
        change-AllFound repo kept shelf.faithful kept-IsSound i.product_id (releases i.quantity) now
            s all (λ i f. tt),
        λ k.
            stock-modify_stored repo kept shelf i.product_id method s b found fine
              (release_reservation-product_id i.quantity now b) k
            ∙ then_at k i.product_id _ (λ same. rw (same, found) lowered),
      )
