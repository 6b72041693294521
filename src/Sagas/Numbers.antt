-- ===== src/Sagas/Numbers.antt =====
-- What the saga's calls of the inventory do to the numbers of every product.
use mall.Base.{
  ℕ, ◌+◌, ◌≡◌, refl, ◌∙◌, sym, Option, none, some, List, [], ◌∷◌, arith, ℤ, pos, pos_part, eqb_ℤ,
  ◌+ℤ◌, ◌-ℤ◌, int_laws, if◌then◌else◌, eq_of_parts, Bool-cases, inl, inr,
}
use mall.Kernel.{
  KernelId, Result, ok, err, Outcome, Repository, IsFaithful, IsRoomy, modify_stored,
  modify_stored_done,
}
use mall.Inventory.Item.{InventoryItem}
use mall.Sagas.Handlers.{SagaItem}

-- The stock and what is reserved of it.
abbrev pub Numbers : Type 0
Numbers = ℤ × ℤ

abbrev pub numbers : InventoryItem → Numbers
numbers i = (i.quantity_available, i.reserved_quantity)

abbrev pub found_numbers : Result InventoryItem → Option Numbers
found_numbers (err e) = none
found_numbers (ok i) = some (numbers i)

-- How much of a product a list of items asks for.
abbrev pub total : KernelId → List SagaItem → ℕ
total k [] = 0
total k (i ∷ items) = (if eqb_ℤ k i.product_id then pos_part i.quantity else 0) + total k items

abbrev pub raise : ℕ → Option Numbers → Option Numbers
raise n none = none
raise n (some x) = some (x.0, x.1 +ℤ pos n)

abbrev pub lower : ℕ → Option Numbers → Option Numbers
lower n none = none
lower n (some x) = some (x.0, x.1 -ℤ pos n)

pub lower-raise : (n : ℕ) (o : Option Numbers) → lower n (raise n o) ≡ o
lower-raise n none = refl
lower-raise n (some x) = grind int_laws

pub raise_zero : (o : Option Numbers) → raise 0 o ≡ o
raise_zero none = refl
raise_zero (some x) = grind int_laws

pub lower_zero : (o : Option Numbers) → lower 0 o ≡ o
lower_zero none = refl
lower_zero (some x) = grind int_laws

pub raise_twice : (m n : ℕ) (o : Option Numbers) → raise m (raise n o) ≡ raise (n + m) o
raise_twice m n none = refl
raise_twice m n (some x) = grind int_laws

pub lower_twice : (m n : ℕ) (o : Option Numbers) → lower m (lower n o) ≡ lower (n + m) o
lower_twice m n none = refl
lower_twice m n (some x) = grind int_laws

module _ {S : Type 0} (repo : Repository S InventoryItem KernelId)
    (kept : InventoryItem → InventoryItem) where
  -- The numbers that are found for each product.
  abbrev pub stock : S → KernelId → Option Numbers
  stock s k = found_numbers (repo.find k s)

  -- A storage that keeps an item's numbers and has room for every item.
  pub record IsShelf : Type 0 where
    pub faithful : IsFaithful repo (λ i. i.product_id) kept
    pub roomy : IsRoomy repo (λ i. i.product_id)
    pub kept-numbers : (i : InventoryItem) → numbers (kept i) ≡ numbers i

  -- A change of a stored item that succeeds changes the numbers of its product alone.
  pub stock-modify_stored :
      IsShelf
      → (p : KernelId) (method : InventoryItem → Outcome InventoryItem) (s : S) (b : InventoryItem)
      → repo.find p s ≡ ok b
      → (method b).1 ≡ none
      → (method b).0.product_id ≡ b.product_id
      → (k : KernelId)
      → stock (modify_stored repo p method s).1 k
        ≡ (if eqb_ℤ k p then some (numbers (method b).0) else stock s k)
  stock-modify_stored shelf p method s b found done same_key k =
      let key : (method b).0.product_id ≡ p = same_key ∙ shelf.faithful.find_key p b s found in
      let saved = shelf.roomy.saved (method b).0 s in
      rw (modify_stored_done repo p method s b found done saved) (elim (Bool-cases (eqb_ℤ k p)) [
        | inl same ↦
            let eq = eq_of_parts k p (ground (arith, same)) in
            let again = shelf.faithful.find_saved (method b).0 s saved in
            rw (eq, sym key, again, shelf.kept-numbers (method b).0) (ground arith)
        | inr other ↦
            rw (other, shelf.roomy.find_rest k (method b).0 s (λ e. ground (arith, e, key))) refl
      ])
