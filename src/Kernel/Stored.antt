-- ===== src/Kernel/Stored.antt =====
-- The calls that nearly every method of a domain service makes on its repository, and what they do
-- over a repository that keeps what it is given.
use mall.Base.{◌≡◌, ◌≢◌, none, some}
use mall.Kernel.Errors.{Error}
use mall.Kernel.Effects.{
  Result, ok, Outcome, Action, ◌>>=◌, ◌>>◌, pure, from_result, from_outcome, Repository, from_save,
}

-- What the services rely on of a repository whose aggregates are found by `key`, and which gives
-- back `kept a` for a saved `a`: the events, for one, are not stored.
pub record IsFaithful {S A K : Type 0} (repo : Repository S A K) (key : A → K) (kept : A → A)
    : Type 0 where
  -- what is found under a key has that key
  pub find_key : (k : K) (a : A) (s : S) → repo.find k s ≡ ok a → key a ≡ k
  -- a saved aggregate is found again, and whatever is found under another key was there before
  pub find_saved :
      (a : A) (s : S) → (repo.save a s).0 ≡ none → repo.find (key a) (repo.save a s).1 ≡ ok (kept a)
  pub find_other :
      (k : K) (a b : A) (s : S)
      → k ≢ key a
      → repo.find k (repo.save a s).1 ≡ ok b
      → repo.find k s ≡ ok b
  -- a save that fails changes nothing
  pub save_failed : (a : A) (s : S) {e : Error} → (repo.save a s).0 ≡ some e → (repo.save a s).1 ≡ s

-- Where saving never fails and touches nothing that is stored under another key.
pub record IsRoomy {S A K : Type 0} (repo : Repository S A K) (key : A → K) : Type 0 where
  pub saved : (a : A) (s : S) → (repo.save a s).0 ≡ none
  pub find_rest :
      (k : K) (a : A) (s : S) → k ≢ key a → repo.find k (repo.save a s).1 ≡ repo.find k s

module _ {S A K : Type 0} (repo : Repository S A K) where
  -- `x, err := repo.Find…; err = x.Method(…); err = repo.Save(ctx, x); return x, nil`, each error
  -- returned at once.
  unfoldable pub modify_stored : K → (A → Outcome A) → Action S A
  modify_stored k method s =
      (do
        a ← from_result (repo.find k s)
        changed ← from_outcome (method a)
        from_save (repo.save changed)
        pure changed)
        s

  -- `x, err := New…(…); err = repo.Save(ctx, x); return x, nil`.
  unfoldable pub create_stored : Result A → Action S A
  create_stored made = do a ← from_result made; from_save (repo.save a); pure a

-- A property of every aggregate that is found.
abbrev pub AllFound : {S A K : Type 0} → Repository S A K → (A → Type 0) → S → Type 0
AllFound {A = A} {K = K} repo P s = (k : K) (a : A) → repo.find k s ≡ ok a → P a
