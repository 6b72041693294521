-- ===== src/Inventory/Invariant.antt =====
-- What the methods keep of an item's numbers.
use mall.Base.{
  ◌<◌, ◌≡◌, some, arith, ℤ, pos, pos_part, ◌+ℤ◌, ◌-ℤ◌, ◌≤ℤ◌, ◌<ℤ◌, int_laws, half_range, IsInt64,
  IsInt64-InRange, sub64, add64_exact, sub64_exact,
}
use mall.Kernel.{Time, Outcome, Error}
use mall.Inventory.Item.{
  InventoryItem, set_stock, reserve, release_reservation, confirm_reservation, restock,
}

-- Nothing is reserved that is not there, and the numbers are counts.
pub record IsSound (i : InventoryItem) : Type 0 where
  pub reserved_nonneg : pos 0 ≤ℤ i.reserved_quantity
  pub reserved_held : i.reserved_quantity ≤ℤ i.quantity_available
  pub counted : pos_part i.quantity_available < half_range

-- In a sound item the difference of the two counts does not wrap.
pub available_exact :
    (i : InventoryItem)
    → IsSound i
    → sub64 i.quantity_available i.reserved_quantity ≡ i.quantity_available -ℤ i.reserved_quantity
available_exact i h = sub64_exact _ _ (omega int_laws)

module _ (q : ℤ) (now : Time) (i : InventoryItem) (h : IsSound i) where
  reserve-IsSound : IsSound (reserve q now i).0
  unfolding reserve
  reserve-IsSound = grind (int_laws, available_exact i h, add64_exact i.reserved_quantity q)

  release_reservation-IsSound : IsSound (release_reservation q now i).0
  unfolding release_reservation
  release_reservation-IsSound = grind (int_laws, sub64_exact i.reserved_quantity q)

  confirm_reservation-IsSound : IsSound (confirm_reservation q now i).0
  unfolding confirm_reservation
  confirm_reservation-IsSound =
      grind (int_laws, sub64_exact i.reserved_quantity q, sub64_exact i.quantity_available q)

  restock-IsSound : i.quantity_available +ℤ q <ℤ pos half_range → IsSound (restock q now i).0
  unfolding restock
  restock-IsSound room = grind (int_laws, add64_exact i.quantity_available q)

  set_stock-IsSound : i.reserved_quantity ≤ℤ q → IsInt64 q → IsSound (set_stock q now i).0
  unfolding set_stock
  set_stock-IsSound held range = grind (int_laws, IsInt64-InRange q)

-- The five changes of a stored item's numbers.
pub data StockChange : Type 0 where
  sets reserves releases confirms restocks : ℤ → StockChange

abbrev pub change : StockChange → Time → InventoryItem → Outcome InventoryItem
change (sets q) = set_stock q
change (reserves q) = reserve q
change (releases q) = release_reservation q
change (confirms q) = confirm_reservation q
change (restocks q) = restock q

-- What a change must leave possible: a stock that is set covers the reservations, and a restocked
-- quantity is an int64.
abbrev pub Fits : StockChange → InventoryItem → Type 0
Fits (sets q) i = (i.reserved_quantity ≤ℤ q) × IsInt64 q
Fits (reserves q) i = Unit
Fits (releases q) i = Unit
Fits (confirms q) i = Unit
Fits (restocks q) i = i.quantity_available +ℤ q <ℤ pos half_range

-- Every method keeps the reservations between zero and the stock, for every quantity it is given
-- and on every branch; set_stock where the new stock is an int64 that covers the reservations, and
-- restock where the sum is an int64.
pub change-IsSound :
    (c : StockChange) (now : Time) (i : InventoryItem)
    → IsSound i
    → Fits c i
    → IsSound (change c now i).0
change-IsSound (sets q) now i h f = set_stock-IsSound q now i h f.0 f.1
change-IsSound (reserves q) now i h f = reserve-IsSound q now i h
change-IsSound (releases q) now i h f = release_reservation-IsSound q now i h
change-IsSound (confirms q) now i h f = confirm_reservation-IsSound q now i h
change-IsSound (restocks q) now i h f = restock-IsSound q now i h f

-- A method that returns an error has changed nothing.
pub change_error_unchanged :
    (c : StockChange) (now : Time) (i : InventoryItem) {e : Error}
    → (change c now i).1 ≡ some e
    → (change c now i).0 ≡ i
unfolding set_stock reserve release_reservation confirm_reservation restock
change_error_unchanged (sets q) now i h = ground arith
change_error_unchanged (reserves q) now i h = ground arith
change_error_unchanged (releases q) now i h = ground arith
change_error_unchanged (confirms q) now i h = ground arith
change_error_unchanged (restocks q) now i h = ground arith
