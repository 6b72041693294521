-- ===== src/Kernel/Memory.antt =====
-- A repository in memory, which shows that what the services rely on can be met: a list, which is
-- never full, so that saving does not fail.
use mall.Base.{
  ◌≡◌, ◌≢◌, none, List, [], ◌∷◌, arith, eqb_ℤ, if◌then◌else◌, eq_of_parts, All, Bool-cases, inl,
  inr, subst,
}
use mall.Kernel.Errors.{new_domain_error, not_found}
use mall.Kernel.Entities.{KernelId}
use mall.Kernel.Effects.{Result, ok, err, Repository}
use mall.Kernel.Stored.{IsFaithful, IsRoomy, AllFound}

find_in : {A : Type 0} → (A → KernelId) → KernelId → List A → Result A
find_in key k [] = err (new_domain_error not_found "not found")
find_in key k (a ∷ s) = if eqb_ℤ (key a) k then ok a else find_in key k s

save_in : {A : Type 0} → (A → KernelId) → (A → A) → A → List A → List A
save_in key kept a [] = kept a ∷ []
save_in key kept a (b ∷ s) = if eqb_ℤ (key b) (key a) then kept a ∷ s else b ∷ save_in key kept a s

unfoldable pub memory : {A : Type 0} → (A → KernelId) → (A → A) → Repository (List A) A KernelId
unfolding find_in save_in
memory key kept = record { find = find_in key; save = λ a s. (none, save_in key kept a s) }

module _ {A : Type 0} (key : A → KernelId) (kept : A → A)
    (kept-key : (a : A) → key (kept a) ≡ key a) where
  find_in-save_in : (a : A) (s : List A) → find_in key (key a) (save_in key kept a s) ≡ ok (kept a)
  unfolding find_in save_in
  find_in-save_in a [] = ground (arith, kept-key a)
  find_in-save_in a (b ∷ s) = ground (arith, kept-key a, find_in-save_in a s)

  find_in-save_in_ne :
      (k : KernelId) (a b : A) (s : List A)
      → k ≢ key a
      → find_in key k (save_in key kept a s) ≡ ok b
      → find_in key k s ≡ ok b
  unfolding find_in save_in
  find_in-save_in_ne k a b [] h = ground (arith, kept-key a, eq_of_parts (key a) k)
  find_in-save_in_ne k a b (c ∷ s) h = ground (
    arith,
    kept-key a,
    eq_of_parts (key a) k,
    eq_of_parts (key c) (key a),
    find_in-save_in_ne k a b s h,
  )

  find_in_key : (k : KernelId) (a : A) (s : List A) → find_in key k s ≡ ok a → key a ≡ k
  unfolding find_in
  find_in_key k a [] e = ground arith
  find_in_key k a (b ∷ s) e = ground (arith, eq_of_parts (key b) k, find_in_key k a s)

  pub memory-IsFaithful : IsFaithful (memory key kept) key kept
  unfolding memory
  memory-IsFaithful = record {
    find_key = find_in_key;
    find_saved = λ a s h. find_in-save_in a s;
    find_other = λ k a b s. find_in-save_in_ne k a b s;
    save_failed = λ a s h. ground arith;
  }

module _ {A : Type 0} (key : A → KernelId) (kept : A → A)
    (kept-key : (a : A) → key (kept a) ≡ key a) where
  find_in-save_in_rest :
      (k : KernelId) (a : A) (s : List A)
      → k ≢ key a
      → find_in key k (save_in key kept a s) ≡ find_in key k s
  unfolding find_in save_in
  find_in-save_in_rest k a [] ne = ground (arith, kept-key a, eq_of_parts (key a) k)
  find_in-save_in_rest k a (c ∷ s) ne = ground (
    arith,
    kept-key a,
    eq_of_parts (key a) k,
    eq_of_parts (key c) (key a),
    find_in-save_in_rest k a s ne,
  )

  pub memory-IsRoomy : IsRoomy (memory key kept) key
  unfolding memory
  memory-IsRoomy = record {
    saved = λ a s. ground arith;
    find_rest = λ k a s. find_in-save_in_rest k a s;
  }

-- What is found has the properties of all that is kept.
pub memory-AllFound :
    {A : Type 0} (key : A → KernelId) (kept : A → A) (P : A → Type 0) (s : List A)
    → All P s
    → AllFound (memory key kept) P s
unfolding memory
memory-AllFound key kept P [] all k a found = absurd (ground arith)
memory-AllFound key kept P (b ∷ s) all k a found = elim (Bool-cases (eqb_ℤ (key b) k)) [
  | inl here ↦ subst P (ground (arith, here)) all.0
  | inr there ↦ memory-AllFound key kept P s all.1 k a (rw there at found)
]
