-- ===== src/Inventory/Reservation.antt =====
-- What a reservation does to an item's numbers, and how it is undone or used up.
use mall.Base.{◌≡◌, ◌↔◌, none, ℤ, pos, ◌+ℤ◌, ◌-ℤ◌, ◌≤ℤ◌, ◌<ℤ◌, int_laws, add64_exact, sub64_exact}
use mall.Kernel.{Time}
use mall.Inventory.Item.{
  InventoryItem, available_quantity, set_stock, reserve, release_reservation, confirm_reservation,
}
use mall.Inventory.Invariant.{IsSound, available_exact, reserves, change-IsSound}

-- Confirming a covered quantity takes it out of both numbers.
confirm_numbers :
    (q : ℤ) (now : Time) (i : InventoryItem)
    → IsSound i
    → pos 0 <ℤ q
    → q ≤ℤ i.reserved_quantity
    → let (j, e) = confirm_reservation q now i in
      (e ≡ none)
      × (j.quantity_available ≡ i.quantity_available -ℤ q)
      × (j.reserved_quantity ≡ i.reserved_quantity -ℤ q)
unfolding confirm_reservation
confirm_numbers q now i h p c =
    grind (int_laws, sub64_exact i.reserved_quantity q, sub64_exact i.quantity_available q)

module _ (q : ℤ) (i : InventoryItem) (h : IsSound i) where
  -- In a sound item a reservation succeeds exactly when it is positive and the free stock covers
  -- it.
  pub reserve_ok_iff :
      (now : Time)
      → ((reserve q now i).1 ≡ none)
        ↔ ((pos 0 <ℤ q) × (i.reserved_quantity +ℤ q ≤ℤ i.quantity_available))
  unfolding reserve
  reserve_ok_iff now =
      (λ e. grind (int_laws, available_exact i h), λ p. grind (int_laws, available_exact i h))

  reserve_positive : (now : Time) → (reserve q now i).1 ≡ none → pos 0 <ℤ q
  reserve_positive now e = ((reserve_ok_iff now).0 e).0

  -- The numbers of an item after a reservation that succeeds.
  reserve_numbers :
      (now : Time)
      → (reserve q now i).1 ≡ none
      → let j = (reserve q now i).0 in
        (j.quantity_available ≡ i.quantity_available)
        × (j.reserved_quantity ≡ i.reserved_quantity +ℤ q)
  unfolding reserve
  reserve_numbers now e = grind (int_laws, available_exact i h, add64_exact i.reserved_quantity q)

  -- A reservation that succeeds on a sound item lowers the free stock by its quantity, adds it to
  -- the reserved one, and leaves the stock itself.
  pub reserve_available :
      (now : Time)
      → (reserve q now i).1 ≡ none
      → let j = (reserve q now i).0 in
        (available_quantity j ≡ available_quantity i -ℤ q)
        × (j.quantity_available ≡ i.quantity_available)
        × (j.reserved_quantity ≡ i.reserved_quantity +ℤ q)
  unfolding available_quantity
  reserve_available now e =
      let (a, r) = reserve_numbers now e in
      let sound = change-IsSound (reserves q) now i h tt in
      (rw (available_exact _ sound, available_exact i h, a, r) (omega int_laws), a, r)

  -- On a sound item, releasing what a reservation that succeeded has just reserved succeeds and
  -- brings both numbers back.
  pub release-reserve :
      (now later : Time)
      → (reserve q now i).1 ≡ none
      → let (j, e) = release_reservation q later (reserve q now i).0 in
        (e ≡ none)
        × (j.quantity_available ≡ i.quantity_available)
        × (j.reserved_quantity ≡ i.reserved_quantity)
  unfolding release_reservation
  release-reserve now later e = grind (
    int_laws,
    reserve_numbers now e,
    reserve_positive now e,
    sub64_exact (reserve q now i).0.reserved_quantity q,
    h.reserved_held,
  )

  -- On a sound item, confirming what a reservation that succeeded has just reserved succeeds, takes
  -- the quantity out of the stock, and brings the reserved number back.
  pub confirm-reserve :
      (now later : Time)
      → (reserve q now i).1 ≡ none
      → let (j, e) = confirm_reservation q later (reserve q now i).0 in
        (e ≡ none)
        × (j.quantity_available ≡ i.quantity_available -ℤ q)
        × (j.reserved_quantity ≡ i.reserved_quantity)
  confirm-reserve now later e =
      let (a, r) = reserve_numbers now e in
      let sound = change-IsSound (reserves q) now i h tt in
      let (ok, a', r') =
        confirm_numbers q later _ sound (reserve_positive now e)
          (rw r (omega (int_laws, h.reserved_nonneg))) in
      (ok, rw (a', a), rw (r', r) (omega int_laws))

  -- A stock set below what is reserved is accepted, and leaves an item with more reserved than
  -- there is, so the free stock is negative and confirming all that is reserved leaves a negative
  -- stock.
  pub set_stock_undercuts :
      (now : Time)
      → pos 0 ≤ℤ q
      → q <ℤ i.reserved_quantity
      → ((set_stock q now i).1 ≡ none)
        × (available_quantity (set_stock q now i).0 <ℤ pos 0)
        × ((confirm_reservation i.reserved_quantity now (set_stock q now i).0).1 ≡ none)
        × ((confirm_reservation i.reserved_quantity now (set_stock q now i).0).0.quantity_available
            <ℤ pos 0)
  unfolding set_stock confirm_reservation available_quantity
  set_stock_undercuts now nonneg below = grind (int_laws, sub64_exact q i.reserved_quantity)
