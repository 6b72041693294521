-- ===== src/Inventory/Tests.antt =====
-- The inventory theorems at a product with ten pieces, three of them reserved.
use mall.Base.{◌≡◌, refl, none, List, [], ◌∷◌, arith, pos, ◌+ℤ◌, add64, sub64}
use mall.Kernel.{
  KernelId, ok, new_aggregate_root, clear_events, memory, memory-IsFaithful, memory-AllFound,
  modify_stored, create_stored, AllFound, Repository, IsFaithful,
}
use mall.Inventory.Item.{
  InventoryItem, reserve, set_stock, confirm_reservation, check_low_stock, new_inventory_item,
}
use mall.Inventory.Invariant.{IsSound, reserves, confirms, sets, restocks}
use mall.Inventory.Race.{first, second, waiting, returned, take_turns, take_turns_lost}
use mall.Inventory.Service
use mall.Inventory.Stock.{
  StockCall, creates, changes, FitCalls, run_calls, run_calls-AllFound, Reserves, reserve-Reserves,
}

abbrev item : InventoryItem
item = record {
  root = new_aggregate_root (pos 1) 100 100;
  product_id = pos 7;
  quantity_available = pos 10;
  reserved_quantity = pos 3;
  low_stock_threshold = pos 2;
}

item-IsSound : IsSound item
item-IsSound = omega arith

reserves_four :
    ((reserve (pos 4) 200 item).0.reserved_quantity ≡ pos 7) × ((reserve (pos 4) 200 item).1 ≡ none)
unfolding reserve add64 sub64
reserves_four = (refl, refl)

six_reserved : (reserve (pos 6) 200 item).1 ≡ none
unfolding reserve sub64
six_reserved = refl

four_reserved : (reserve (pos 4) 200 item).1 ≡ none
four_reserved = reserves_four.1

-- A storage that keeps all but the events.
abbrev kept : InventoryItem → InventoryItem
kept i = record i { root = clear_events i.root }

abbrev shelf : Repository (List InventoryItem) InventoryItem KernelId
shelf = memory (λ i. i.product_id) kept

shelf-IsFaithful : IsFaithful shelf (λ i. i.product_id) kept
shelf-IsFaithful = memory-IsFaithful (λ i. i.product_id) kept (λ i. refl)

kept-IsSound : (i : InventoryItem) → IsSound i → IsSound (kept i)
kept-IsSound i h = omega (arith, h)

stocked-AllFound : AllFound shelf IsSound (item ∷ [])
stocked-AllFound = memory-AllFound (λ i. i.product_id) kept IsSound (item ∷ []) (item-IsSound, tt)

-- The stock of the new product is set below what is reserved of the other.
abbrev day : List StockCall
day =
    changes (pos 7) (reserves (pos 4)) 200
    ∷ creates (pos 2) (pos 8) (pos 5) (pos 1) 210 220
    ∷ changes (pos 8) (sets (pos 2)) 230
    ∷ changes (pos 7) (confirms (pos 4)) 300
    ∷ changes (pos 7) (restocks (pos 6)) 310
    ∷ []

day_fits : FitCalls shelf day (item ∷ [])
unfolding memory Service.set_stock Service.update_stock Service.reserve Service.confirm_reservation
    modify_stored create_stored new_inventory_item set_stock reserve confirm_reservation
    check_low_stock add64 sub64
day_fits = (tt, (omega arith, ((omega arith, omega arith), (tt, (omega arith, tt)))))

run_calls-AllFound_example : AllFound shelf IsSound (run_calls shelf day (item ∷ []))
run_calls-AllFound_example =
    run_calls-AllFound shelf kept shelf-IsFaithful kept-IsSound day (item ∷ []) stocked-AllFound
      day_fits

reserve-Reserves_example :
    Reserves shelf kept shelf-IsFaithful kept-IsSound
      (pos 7)
      (pos 4)
      (item ∷ [])
      (Service.reserve shelf (pos 7) (pos 4) 200 (item ∷ []))
reserve-Reserves_example =
    reserve-Reserves shelf kept shelf-IsFaithful kept-IsSound (pos 7) (pos 4) 200 (item ∷ [])
      stocked-AllFound

found_item : shelf.find (pos 7) (item ∷ []) ≡ ok item
unfolding memory
found_item = refl

shelf_saves : (i : InventoryItem) (is : List InventoryItem) → (shelf.save i is).0 ≡ none
unfolding memory
shelf_saves i is = refl

-- Seven pieces can be had: six and four are both promised.
take_turns_lost_example :
    let w =
      take_turns shelf
        (pos 7)
        200
        (pos 6)
        (pos 4)
        (first ∷ second ∷ first ∷ second ∷ [])
        (record { call1 = waiting; call2 = waiting; store = item ∷ [] }) in
    let i2 = (reserve (pos 4) 200 item).0 in
    (w.call1 ≡ returned (ok (reserve (pos 6) 200 item).0))
    × (w.call2 ≡ returned (ok i2))
    × (shelf.find (pos 7) w.store ≡ ok (kept i2))
    × (i2.reserved_quantity ≡ pos 3 +ℤ pos 4)
take_turns_lost_example =
    take_turns_lost shelf kept shelf-IsFaithful (pos 7) 200 (pos 6) (pos 4) (item ∷ []) item
      item-IsSound found_item shelf_saves six_reserved four_reserved
