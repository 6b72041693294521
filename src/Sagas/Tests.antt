-- ===== src/Sagas/Tests.antt =====
-- The theorems on the sagas at a shop with ten cups, three of them reserved, and one mandate.
use mall.Base.{String, ◌≡◌, refl, some, List, [], ◌∷◌, arith, pos, ◌-ℤ◌, add64, sub64, int_laws}
use mall.Kernel.{
  KernelId, Error, ok, Repository, new_aggregate_root, clear_events, memory, memory-IsFaithful,
  memory-IsRoomy, memory-AllFound, AllFound, modify_stored,
}
use mall.Inventory.Item
use mall.Inventory.Item.{InventoryItem}
use mall.Inventory.Invariant.{IsSound}
use mall.Inventory.Service as InventoryService
use mall.Sagas.Handlers.{
  SagaItem, SagaReserveReq, Body, decoded, write_saga_ok, call_each, reserve_inventory,
  release_inventory,
}
use mall.Sagas.Numbers.{IsShelf, stock}
use mall.Sagas.Compensation.{release-reserve_inventory, release_inventory_takes}

abbrev cups : InventoryItem
cups = record {
  root = new_aggregate_root (pos 1) 100 100;
  product_id = pos 7;
  quantity_available = pos 10;
  reserved_quantity = pos 3;
  low_stock_threshold = pos 2;
}

cups-IsSound : IsSound cups
cups-IsSound = omega arith

abbrev kept : InventoryItem → InventoryItem
kept i = record i { root = clear_events i.root }

abbrev shelf : Repository (List InventoryItem) InventoryItem KernelId
shelf = memory (λ i. i.product_id) kept

shelf-IsShelf : IsShelf shelf kept
shelf-IsShelf = record {
  faithful = memory-IsFaithful (λ i. i.product_id) kept (λ i. refl);
  roomy = memory-IsRoomy (λ i. i.product_id) kept (λ i. refl);
  kept-numbers = λ i. refl;
}

kept-IsSound : (i : InventoryItem) → IsSound i → IsSound (kept i)
kept-IsSound i h = omega (arith, h)

cups-AllFound : AllFound shelf IsSound (cups ∷ [])
cups-AllFound = memory-AllFound (λ i. i.product_id) kept IsSound (cups ∷ []) (cups-IsSound, tt)

abbrev text : Error → String
text e = "error"

abbrev two_and_four : Body SagaReserveReq
two_and_four = decoded (record {
  items =
      (record { product_id = pos 7; quantity = pos 2 })
      ∷ (record { product_id = pos 7; quantity = pos 4 })
      ∷ [];
})

six_reserved : (reserve_inventory shelf text two_and_four (λ n. 200) (cups ∷ [])).0 ≡ write_saga_ok
unfolding reserve_inventory call_each InventoryService.reserve memory modify_stored Item.reserve
    add64 sub64
six_reserved = refl

release-reserve_inventory_example :
    let (reply, s') =
      release_inventory shelf text two_and_four
        (λ n. 300)
        (reserve_inventory shelf text two_and_four (λ n. 200) (cups ∷ [])).1 in
    (reply ≡ write_saga_ok)
    × ((k : KernelId) → stock shelf kept s' k ≡ stock shelf kept (cups ∷ []) k)
release-reserve_inventory_example =
    release-reserve_inventory shelf kept shelf-IsShelf kept-IsSound text _ (λ n. 200) (λ n. 300)
      (cups ∷ []) cups-AllFound six_reserved

abbrev eight_cups : SagaItem
eight_cups = record { product_id = pos 7; quantity = pos 8 }

abbrev full_cups : InventoryItem
full_cups = record cups { reserved_quantity = pos 9 }

found_full : shelf.find (pos 7) (full_cups ∷ []) ≡ ok full_cups
unfolding memory
found_full = refl

full-AllFound : AllFound shelf IsSound (full_cups ∷ [])
full-AllFound = memory-AllFound (λ i. i.product_id) kept IsSound (full_cups ∷ []) (omega arith, tt)

-- One cup is free, and eight are asked for: their release takes eight of the nine that others have.
release_inventory_takes_example :
    let req : Body SagaReserveReq = decoded (record { items = eight_cups ∷ [] }) in
    let (reply, s') = reserve_inventory shelf text req (λ n. 200) (full_cups ∷ []) in
    let (reply', s'') = release_inventory shelf text req (λ n. 300) s' in
    (reply.status ≡ 409)
    × (s' ≡ full_cups ∷ [])
    × (reply' ≡ write_saga_ok)
    × (stock shelf kept s'' (pos 7) ≡ some (pos 10, pos 9 -ℤ pos 8))
release_inventory_takes_example =
    release_inventory_takes shelf kept shelf-IsShelf kept-IsSound text eight_cups (λ n. 200)
      (λ n. 300) (full_cups ∷ []) full_cups full-AllFound found_full (omega arith) (omega int_laws)
      (omega arith)
