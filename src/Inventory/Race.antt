-- ===== src/Inventory/Race.antt =====
-- Two calls of `Reserve` (domain/inventory/service.go) on one product that take turns. A call finds
-- and changes the item in one step and saves it in another; nothing locks the item between the two.
use mall.Base.{◌≡◌, refl, subst, ◌∙◌, Option, none, some, List, [], ◌∷◌, arith, ℤ, ◌+ℤ◌}
use mall.Kernel.{
  KernelId, Time, Error, Outcome, Result, ok, err, Repository, IsFaithful, modify_stored,
}
use mall.Inventory.Item
use mall.Inventory.Item.{InventoryItem}
use mall.Inventory.Service
use mall.Inventory.Invariant.{IsSound}
use mall.Inventory.Reservation.{reserve_available}
use mall.Inventory.Stock.{reserve-product_id}

pub data Call : Type 0 where
  waiting : Call
  holding : InventoryItem → Call
  returned : Result InventoryItem → Call

abbrev pub hold : Outcome InventoryItem → Call
hold (i, none) = holding i
hold (i, some e) = returned (err e)

abbrev pub read_item : KernelId → ℤ → Time → Result InventoryItem → Call
read_item p q now (err e) = returned (err e)
read_item p q now (ok b) = hold (Item.reserve q now b)

abbrev pub wrote : {S : Type 0} → InventoryItem → Option Error × S → Call × S
wrote i (none, s) = (returned (ok i), s)
wrote i (some e, s) = (returned (err e), s)

module _ {S : Type 0} (repo : Repository S InventoryItem KernelId) (p : KernelId) (now : Time) where
  -- The next step of a call for `q` pieces.
  unfoldable pub step_reserve : ℤ → Call → S → Call × S
  step_reserve q waiting s = (read_item p q now (repo.find p s), s)
  step_reserve q (holding i) s = wrote i (repo.save i s)
  step_reserve q (returned r) s = (returned r, s)

  -- A call that is not interrupted is `reserve`.
  pub step_reserve_twice :
      (q : ℤ) (s : S)
      → let (c, s1) = step_reserve q waiting s in
        let (r, s2) = Service.reserve repo p q now s in step_reserve q c s1 ≡ (returned r, s2)
  unfolding step_reserve Service.reserve modify_stored
  step_reserve_twice q s = ground arith

-- Whose turn it is.
pub data Turn : Type 0 where
  first second : Turn

pub record Shared (S : Type 0) : Type 0 where
  pub call1 : Call
  pub call2 : Call
  pub store : S

module _ {S : Type 0} (repo : Repository S InventoryItem KernelId) (p : KernelId) (now : Time)
    (q1 q2 : ℤ) where
  abbrev pub take_turn : Turn → Shared S → Shared S
  take_turn first w =
      let (c, s) = step_reserve repo p now q1 w.call1 w.store in record w { call1 = c; store = s }
  take_turn second w =
      let (c, s) = step_reserve repo p now q2 w.call2 w.store in record w { call2 = c; store = s }

  abbrev pub take_turns : List Turn → Shared S → Shared S
  take_turns [] w = w
  take_turns (t ∷ ts) w = take_turns ts (take_turn t w)

read_found :
    {S : Type 0} (repo : Repository S InventoryItem KernelId) (p : KernelId) (now : Time) (q : ℤ)
    (s : S) (b : InventoryItem)
    → repo.find p s ≡ ok b
    → (Item.reserve q now b).1 ≡ none
    → step_reserve repo p now q waiting s ≡ (holding (Item.reserve q now b).0, s)
unfolding step_reserve
read_found repo p now q s b found done = ground (arith, found, done)

write_held :
    {S : Type 0} (repo : Repository S InventoryItem KernelId) (p : KernelId) (now : Time) (q : ℤ)
    (s : S) (i : InventoryItem)
    → (repo.save i s).0 ≡ none
    → step_reserve repo p now q (holding i) s ≡ (returned (ok i), (repo.save i s).1)
unfolding step_reserve
write_held repo p now q s i saved = ground (arith, saved)

module _ {S : Type 0} (repo : Repository S InventoryItem KernelId)
    (kept : InventoryItem → InventoryItem)
    (faithful : IsFaithful repo (λ i. i.product_id) kept) where
  -- Over a faithful repository whose saves succeed: where two calls of `Reserve` on a sound item,
  -- each of which would succeed alone, both read before either saves, both return their item, but
  -- the item that is found afterwards is the second one's, as kept, and has only the second
  -- quantity added to what was reserved.
  pub take_turns_lost :
      (p : KernelId) (now : Time) (q1 q2 : ℤ) (s : S) (b : InventoryItem)
      → IsSound b
      → repo.find p s ≡ ok b
      → ((i : InventoryItem) (t : S) → (repo.save i t).0 ≡ none)
      → (Item.reserve q1 now b).1 ≡ none
      → (Item.reserve q2 now b).1 ≡ none
      → let w =
          take_turns repo p now q1 q2
            (first ∷ second ∷ first ∷ second ∷ [])
            (record { call1 = waiting; call2 = waiting; store = s }) in
        let i2 = (Item.reserve q2 now b).0 in
        (w.call1 ≡ returned (ok (Item.reserve q1 now b).0))
        × (w.call2 ≡ returned (ok i2))
        × (repo.find p w.store ≡ ok (kept i2))
        × (i2.reserved_quantity ≡ b.reserved_quantity +ℤ q2)
  take_turns_lost p now q1 q2 s b sound found saves fits1 fits2 =
      let i1 = (Item.reserve q1 now b).0 in
      let i2 = (Item.reserve q2 now b).0 in
      let (_, _, reserved) = reserve_available q2 b sound now fits2 in
      let key : i2.product_id ≡ p = reserve-product_id q2 now b ∙ faithful.find_key p b s found in
      let again = faithful.find_saved i2 (repo.save i1 s).1 (saves i2 (repo.save i1 s).1) in
      rw
        (
          read_found repo p now q1 s b found fits1,
          read_found repo p now q2 s b found fits2,
          write_held repo p now q1 s i1 (saves i1 s),
          write_held repo p now q2 (repo.save i1 s).1 i2 (saves i2 (repo.save i1 s).1),
        )
        (
          refl,
          refl,
          subst (λ k. repo.find k (repo.save i2 (repo.save i1 s).1).1 ≡ ok (kept i2)) key again,
          reserved,
        )
