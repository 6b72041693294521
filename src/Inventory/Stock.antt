-- ===== src/Inventory/Stock.antt =====
-- The stored items over any history of service calls.
use mall.Base.{
  ◌≡◌, ap, subst, sym, ◌∙◌, none, List, [], ◌∷◌, arith, ℤ, pos, ◌≤ℤ◌, ◌<ℤ◌, ◌+ℤ◌, IsInt64,
}
use mall.Kernel.{
  KernelId, Time, Outcome, Result, ok, err, Repository, IsFaithful, AllFound, ℤ-discrete,
  modify_stored, modify_stored-AllFound, modify_stored-Ends, Ends, create_stored-AllFound,
}
use mall.Inventory.Item
use mall.Inventory.Item.{InventoryItem, new_inventory_item}
use mall.Inventory.Invariant.{
  IsSound, StockChange, sets, reserves, releases, confirms, restocks, change, change-IsSound, Fits,
}
use mall.Inventory.Reservation.{reserve_ok_iff, reserve_available}
use mall.Inventory.Service.{
  set_stock, update_stock, reserve, release_reservation, confirm_reservation, restock,
}

new_inventory_item-IsSound :
    (id product_id : KernelId) (q t : ℤ) (created updated : Time) (i : InventoryItem)
    → IsInt64 q
    → new_inventory_item id product_id q t created updated ≡ ok i
    → IsSound i
unfolding new_inventory_item
new_inventory_item-IsSound id product_id (pos n) t created updated i range e = ground arith
new_inventory_item-IsSound id product_id q t created updated i range e = ground arith

-- A call of the service, with the clock readings it makes.
pub data StockCall : Type 0 where
  creates : KernelId → KernelId → ℤ → ℤ → Time → Time → StockCall
  changes : KernelId → StockChange → Time → StockCall

module _ {S : Type 0} (repo : Repository S InventoryItem KernelId) where
  abbrev pub run_change : KernelId → StockChange → Time → S → Result InventoryItem × S
  run_change p (sets q) now = update_stock repo p q now
  run_change p (reserves q) now = reserve repo p q now
  run_change p (releases q) now = release_reservation repo p q now
  run_change p (confirms q) now = confirm_reservation repo p q now
  run_change p (restocks q) now = restock repo p q now

  abbrev pub run_call : StockCall → S → S
  run_call (creates id p q t created updated) s = (set_stock repo id p q t created updated s).1
  run_call (changes p c now) s = (run_change p c now s).1

  -- What the change must leave possible of the item of its product, where there is one.
  abbrev pub FitsFound : StockChange → Result InventoryItem → Type 0
  FitsFound c (ok i) = Fits c i
  FitsFound c (err e) = Unit

  -- The calls of `reserve`, `release_reservation` and `confirm_reservation` are free; a new or set
  -- stock is an int64, a set one covers what is reserved of the same product, and a restocked one
  -- does not overflow.
  abbrev pub FitsCall : StockCall → S → Type 0
  FitsCall (creates id p q t created updated) s = IsInt64 q
  FitsCall (changes p c now) s = FitsFound c (repo.find p s)

  abbrev pub run_calls : List StockCall → S → S
  run_calls [] s = s
  run_calls (c ∷ cs) s = run_calls cs (run_call c s)

  abbrev pub FitCalls : List StockCall → S → Type 0
  FitCalls [] s = Unit
  FitCalls (c ∷ cs) s = FitsCall c s × FitCalls cs (run_call c s)

pub reserve-product_id :
    (q : ℤ) (now : Time) (i : InventoryItem) → (Item.reserve q now i).0.product_id ≡ i.product_id
unfolding Item.reserve
reserve-product_id q now i = ground arith

module _ {S : Type 0} (repo : Repository S InventoryItem KernelId)
    (kept : InventoryItem → InventoryItem) (faithful : IsFaithful repo (λ i. i.product_id) kept)
    (kept-IsSound : (i : InventoryItem) → IsSound i → IsSound (kept i)) where
  pub change-AllFound :
      (p : KernelId) (c : StockChange) (now : Time) (s : S)
      → AllFound repo IsSound s
      → ((i : InventoryItem) → repo.find p s ≡ ok i → Fits c i)
      → AllFound repo IsSound (modify_stored repo p (change c now) s).1
  change-AllFound p c now s all fit =
      modify_stored-AllFound repo (λ i. i.product_id) kept faithful ℤ-discrete IsSound kept-IsSound
        p (change c now) s all (λ i found sound. change-IsSound c now i sound (fit i found))

  change_fit :
      (p : KernelId) (c : StockChange) (s : S)
      → FitsFound repo c (repo.find p s)
      → (i : InventoryItem) → repo.find p s ≡ ok i
      → Fits c i
  change_fit p c s fit i found = subst (FitsFound repo c) found fit

  run_call-AllFound :
      (c : StockCall) (s : S)
      → AllFound repo IsSound s
      → FitsCall repo c s
      → AllFound repo IsSound (run_call repo c s)
  unfolding set_stock update_stock reserve release_reservation confirm_reservation restock
  run_call-AllFound (creates id p q t created updated) s all fit =
      create_stored-AllFound repo (λ i. i.product_id) kept faithful ℤ-discrete IsSound kept-IsSound
        _ s all (λ i made. new_inventory_item-IsSound id p q t created updated i fit made)
  run_call-AllFound (changes p (sets q) now) s all fit =
      change-AllFound p (sets q) now s all (change_fit p (sets q) s fit)
  run_call-AllFound (changes p (reserves q) now) s all fit =
      change-AllFound p (reserves q) now s all (change_fit p (reserves q) s fit)
  run_call-AllFound (changes p (releases q) now) s all fit =
      change-AllFound p (releases q) now s all (change_fit p (releases q) s fit)
  run_call-AllFound (changes p (confirms q) now) s all fit =
      change-AllFound p (confirms q) now s all (change_fit p (confirms q) s fit)
  run_call-AllFound (changes p (restocks q) now) s all fit =
      change-AllFound p (restocks q) now s all (change_fit p (restocks q) s fit)

  -- Over a faithful repository which keeps an item's soundness, and whatever the sequence of
  -- service calls that fit (a new or set stock is an int64, a set one covers what is then reserved
  -- of its own product, a restocked sum of its own product is an int64), a storage in which every
  -- item is sound stays one: no product is ever reserved beyond its stock.
  pub run_calls-AllFound :
      (cs : List StockCall) (s : S)
      → AllFound repo IsSound s
      → FitCalls repo cs s
      → AllFound repo IsSound (run_calls repo cs s)
  run_calls-AllFound [] s all fit = all
  run_calls-AllFound (c ∷ cs) s all fit =
      run_calls-AllFound cs (run_call repo c s) (run_call-AllFound c s all fit.0) fit.1

  -- A reservation of `q` of product `p` that ended.
  abbrev pub Reserves : KernelId → ℤ → S → Result InventoryItem × S → Type 0
  Reserves p q s (err e, s') = s' ≡ s
  Reserves p q s (ok i, s') =
      (b : InventoryItem) × (repo.find p s ≡ ok b)
      × (pos 0 <ℤ q)
      × (i.reserved_quantity ≡ b.reserved_quantity +ℤ q)
      × (i.reserved_quantity ≤ℤ i.quantity_available)
      × (i.quantity_available ≡ b.quantity_available)
      × (repo.find p s' ≡ ok (kept i))

  Ends-Reserves :
      (p : KernelId) (q : ℤ) (now : Time) (s : S) (end : Result InventoryItem × S)
      → AllFound repo IsSound s
      → Ends repo (λ i. i.product_id) kept faithful p (Item.reserve q now) s end
      → Reserves p q s end
  Ends-Reserves p q now s (err e, s') all same_store = same_store
  Ends-Reserves p q now s (ok i, s') all (b, found, done, stored, again) =
      let sound = all p b found in
      let item : (Item.reserve q now b).0 ≡ i = ap (λ (o : Outcome InventoryItem). o.0) done in
      let fine : (Item.reserve q now b).1 ≡ none = ap (λ (o : Outcome InventoryItem). o.1) done in
      let positive = ((reserve_ok_iff q b sound now).0 fine).0 in
      let (_, a, r) = reserve_available q b sound now fine in
      let same_key : i.product_id ≡ p =
        ap (λ (j : InventoryItem). j.product_id) (sym item)
        ∙ reserve-product_id q now b
        ∙ faithful.find_key p b s found in
      let sound' : IsSound i = subst IsSound item (change-IsSound (reserves q) now b sound tt) in
      (
        b,
        found,
        positive,
        rw item at r,
        sound'.reserved_held,
        rw item at a,
        subst (λ k. repo.find k s' ≡ ok (kept i)) same_key again,
      )

  -- Over a faithful repository in which every item is sound, a reservation through the service ends
  -- in one of two ways. With an error, and the storage as it was. Or with the item that is then
  -- found, as kept, for the product: the stored one with the positive quantity added to what is
  -- reserved, which stays within the stock, and the stock unchanged.
  pub reserve-Reserves :
      (p : KernelId) (q : ℤ) (now : Time) (s : S)
      → AllFound repo IsSound s
      → Reserves p q s (reserve repo p q now s)
  unfolding reserve
  reserve-Reserves p q now s all =
      Ends-Reserves p q now s (reserve repo p q now s) all
        (modify_stored-Ends repo (λ i. i.product_id) kept faithful p (Item.reserve q now) s)
