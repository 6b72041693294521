-- ===== src/Sagas/Undoing.antt =====
-- interfaces/rest/saga.go: ReserveInventory, and its compensation ReleaseInventory.
use mall.Base.{
  ℕ, suc, ◌+◌, ◌<◌, ◌≡◌, refl, ◌∙◌, ap, sym, Option, none, some, List, [], ◌∷◌, arith, pos,
  pos_part, eqb_ℤ, ◌-ℤ◌, ◌≤ℤ◌, ◌<ℤ◌, int_laws, if◌then◌else◌, eq_of_parts, Bool-cases, inl, inr,
  All,
}
use mall.Kernel.{KernelId, Time, Error, ok, err, Action, Repository, AllFound, Result-cases}
use mall.Inventory.Item.{InventoryItem}
use mall.Inventory.Invariant.{IsSound}
use mall.Sagas.Handlers.{SagaItem, call_each, reserve_item, release_item}
use mall.Sagas.Numbers.{
  Numbers, total, raise, lower, raise_zero, lower_zero, raise_twice, lower_twice, stock, IsShelf,
}
use mall.Sagas.Holding.{reserve_item_ok, release_item_ok}

module _ {S : Type 0} (call : SagaItem → Time → Action S InventoryItem) (i : SagaItem)
    (items : List SagaItem) (clock : ℕ → Time) (s : S) where
  call_each_on :
      {a : InventoryItem}
      → (call i (clock 0) s).0 ≡ ok a
      → call_each call (i ∷ items) clock s
        ≡ call_each call items (λ n. clock (suc n)) (call i (clock 0) s).1
  unfolding call_each
  call_each_on done = ground arith

  call_each_stopped :
      {e : Error} → (call i (clock 0) s).0 ≡ err e → (call_each call (i ∷ items) clock s).0 ≡ some e
  unfolding call_each
  call_each_stopped failed = ground arith

  pub call_each_failed :
      (e : Error)
      → call i (clock 0) s ≡ (err e, s)
      → call_each call (i ∷ items) clock s ≡ (some e, s)
  unfolding call_each
  call_each_failed e failed = ground arith

raise_at :
    (k p : KernelId) (n : ℕ) (o : Option Numbers)
    → (if eqb_ℤ k p then raise n o else o) ≡ raise (if eqb_ℤ k p then n else 0) o
raise_at k p n o = elim (Bool-cases (eqb_ℤ k p)) [
  | inl same ↦ rw same refl
  | inr other ↦ rw other (sym (raise_zero o))
]

lower_at :
    (k p : KernelId) (n : ℕ) (o : Option Numbers)
    → (if eqb_ℤ k p then lower n o else o) ≡ lower (if eqb_ℤ k p then n else 0) o
lower_at k p n o = elim (Bool-cases (eqb_ℤ k p)) [
  | inl same ↦ rw same refl
  | inr other ↦ rw other (sym (lower_zero o))
]

pub total_own :
    (i : SagaItem) (items : List SagaItem)
    → total i.product_id (i ∷ items) ≡ pos_part i.quantity + total i.product_id items
total_own i items = ground arith

abbrev pub IsPositive : SagaItem → Type 0
IsPositive i = pos 0 <ℤ i.quantity

module _ {S : Type 0} (repo : Repository S InventoryItem KernelId)
    (kept : InventoryItem → InventoryItem) where
  -- Every product that is asked for is there.
  abbrev pub Knows : List SagaItem → S → Type 0
  Knows items s =
      (k : KernelId) → 0 < total k items → (n : Numbers) × (stock repo kept s k ≡ some n)

  -- As much of every product is reserved as is asked for.
  abbrev pub Covers : List SagaItem → S → Type 0
  Covers items s =
      (k : KernelId)
      → 0 < total k items
      → (n : Numbers) × (stock repo kept s k ≡ some n) × (pos (total k items) ≤ℤ n.1)

  pub record Holds (items : List SagaItem) (s s' : S) : Type 0 where
    pub sound : AllFound repo IsSound s'
    pub positive : All IsPositive items
    pub knows : Knows items s
    pub raised : (k : KernelId) → stock repo kept s' k ≡ raise (total k items) (stock repo kept s k)

module _ {S : Type 0} (repo : Repository S InventoryItem KernelId)
    (kept : InventoryItem → InventoryItem) (shelf : IsShelf repo kept)
    (kept-IsSound : (i : InventoryItem) → IsSound i → IsSound (kept i)) where
  Holds-cons :
      (i : SagaItem) (items : List SagaItem) (s mid s' : S)
      → pos 0 <ℤ i.quantity
      → ((n : Numbers) × (stock repo kept s i.product_id ≡ some n))
      → ((k : KernelId)
          → stock repo kept mid k ≡ (
              if eqb_ℤ k i.product_id
              then raise (pos_part i.quantity) (stock repo kept s k)
              else stock repo kept s k))
      → Holds repo kept items mid s'
      → Holds repo kept (i ∷ items) s s'
  Holds-cons i items s mid s' positive known step rest = record {
    sound = rest.sound;
    positive = (positive, rest.positive);
    knows = λ k some_of_it. elim (Bool-cases (eqb_ℤ k i.product_id)) [
      | inl same ↦ (known.0, rw (eq_of_parts k i.product_id (ground (arith, same))) known.1)
      | inr other ↦
          let (n, here) = rest.knows k (ground (arith, some_of_it, other)) in
          (n, sym (rw other at (step k)) ∙ here)
    ];
    raised = λ k.
        rest.raised k
        ∙ ap (raise (total k items))
            (step k ∙ raise_at k i.product_id (pos_part i.quantity) (stock repo kept s k))
        ∙ raise_twice (total k items) _ (stock repo kept s k);
  }

  pub reserve_each_ok :
      (items : List SagaItem) (clock : ℕ → Time) (s : S)
      → AllFound repo IsSound s
      → (call_each (reserve_item repo) items clock s).0 ≡ none
      → Holds repo kept items s (call_each (reserve_item repo) items clock s).1
  unfolding call_each
  reserve_each_ok [] clock s all done = record {
    sound = all;
    positive = tt;
    knows = λ k h. absurd (omega arith);
    raised = λ k. sym (raise_zero _);
  }
  reserve_each_ok (i ∷ items) clock s all done =
      elim (Result-cases (reserve_item repo i (clock 0) s).0) [
        | inr (e, failed) ↦
            absurd
              (ground (arith, done, call_each_stopped (reserve_item repo) i items clock s failed))
        | inl (a, fine) ↦
            let on = call_each_on (reserve_item repo) i items clock s fine in
            let (positive, sound, known, step) =
              reserve_item_ok repo kept shelf kept-IsSound i (clock 0) s a all fine in
            rw on (
              Holds-cons i items s _ _ positive known step
                (reserve_each_ok items (λ n. clock (suc n)) _ sound (rw on at done)))
      ]

  pub release_each_ok :
      (items : List SagaItem) (clock : ℕ → Time) (s : S)
      → AllFound repo IsSound s
      → All IsPositive items
      → Covers repo kept items s
      → let (e, s') = call_each (release_item repo) items clock s in
        (e ≡ none)
        × ((k : KernelId) → stock repo kept s' k ≡ lower (total k items) (stock repo kept s k))
  unfolding call_each
  release_each_ok [] clock s all positive covers = (refl, λ k. sym (lower_zero _))
  release_each_ok (i ∷ items) clock s all positive covers =
      let (n, known, covered) =
        covers i.product_id (rw (total_own i items) (omega (arith, positive.0))) in
      let ((a, fine), sound, step) =
        release_item_ok repo kept shelf kept-IsSound i (clock 0) s n all positive.0 known
          (omega (arith, covered, total_own i items, positive.0)) in
      let lowered : (k : KernelId) → _ =
        λ k. step k ∙ lower_at k i.product_id (pos_part i.quantity) (stock repo kept s k) in
      let (done, rest) =
        release_each_ok items (λ n. clock (suc n)) _ sound positive.1
          (λ k some_of_it.
            let (m, there, enough) = covers k (omega (arith, some_of_it)) in
            (
              (m.0, m.1 -ℤ pos (if eqb_ℤ k i.product_id then pos_part i.quantity else 0)),
              lowered k ∙ ap (lower _) there,
              omega (int_laws, enough),
            )) in
      rw (call_each_on (release_item repo) i items clock s fine) (
        done,
        λ k.
            rest k
            ∙ ap (lower (total k items)) (lowered k)
            ∙ lower_twice (total k items) _ (stock repo kept s k),
      )
