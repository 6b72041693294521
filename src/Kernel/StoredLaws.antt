-- ===== src/Kernel/StoredLaws.antt =====
-- What a change of one stored aggregate does, on every branch.
use native.Mathlib.Decide.{ℕ_discrete}
use mall.Base.{◌≡◌, refl, ap, subst, none, some, inl, inr, ◌⊎◌, arith, Option-cases, ℤ}
use mall.Kernel.Errors.{Error}
use mall.Kernel.Effects.{Result, ok, err, Outcome, Repository}
use mall.Kernel.Stored.{IsFaithful, modify_stored, create_stored, AllFound}

pub ℤ-discrete : Discrete ℤ
ℤ-discrete = hlevel ℕ_discrete

pub Result-cases :
    {A : Type 0} (r : Result A) → ((a : A) × (r ≡ ok a)) ⊎ ((e : Error) × (r ≡ err e))
Result-cases (ok a) = inl (a, refl)
Result-cases (err e) = inr (e, refl)

-- Where a new aggregate is refused nothing is saved; else the storage is what saving it gives.
module _ {S A K : Type 0} (repo : Repository S A K) where
  create_stored_err : (e : Error) (s : S) → (create_stored repo (err e) s).1 ≡ s
  unfolding create_stored
  create_stored_err e s = refl

  create_stored_ok : (a : A) (s : S) → (create_stored repo (ok a) s).1 ≡ (repo.save a s).1
  unfolding create_stored
  create_stored_ok a s = ground arith

-- The four ways in which the calls go on.
module _ {S A K : Type 0} (repo : Repository S A K) (k : K) (method : A → Outcome A) (s : S) where
  pub modify_stored_missing :
      {e : Error} → repo.find k s ≡ err e → modify_stored repo k method s ≡ (err e, s)
  unfolding modify_stored
  modify_stored_missing found = ground arith

  module _ (b : A) (found : repo.find k s ≡ ok b) where
    pub modify_stored_refused :
        {e : Error} → (method b).1 ≡ some e → modify_stored repo k method s ≡ (err e, s)
    unfolding modify_stored
    modify_stored_refused refused = ground arith

    pub modify_stored_unsaved :
        {e : Error}
        → (method b).1 ≡ none
        → (repo.save (method b).0 s).0 ≡ some e
        → modify_stored repo k method s ≡ (err e, (repo.save (method b).0 s).1)
    unfolding modify_stored
    modify_stored_unsaved done failed = ground arith

    pub modify_stored_done :
        (method b).1 ≡ none
        → (repo.save (method b).0 s).0 ≡ none
        → modify_stored repo k method s ≡ (ok (method b).0, (repo.save (method b).0 s).1)
    unfolding modify_stored
    modify_stored_done done saved = ground arith

module _ {S A K : Type 0} (repo : Repository S A K) (key : A → K) (kept : A → A)
    (faithful : IsFaithful repo key kept) where
  -- How a call of `modify_stored` ends: with an error and the storage as it was, or with the
  -- method's result, which was saved and is found, as kept, under its key.
  abbrev pub Ends : K → (A → Outcome A) → S → Result A × S → Type 0
  Ends k method s (err e, s') = s' ≡ s
  Ends k method s (ok a, s') =
      (b : A) × (repo.find k s ≡ ok b)
      × (method b ≡ (a, none))
      × (s' ≡ (repo.save a s).1)
      × (repo.find (key a) s' ≡ ok (kept a))

  modify_stored_found :
      (k : K) (method : A → Outcome A) (s : S) (b : A)
      → repo.find k s ≡ ok b
      → Ends k method s (modify_stored repo k method s)
  modify_stored_found k method s b found = elim (Option-cases (method b).1) [
    | inr (e, refused) ↦ rw (modify_stored_refused repo k method s b found refused) refl
    | inl done ↦ elim (Option-cases (repo.save (method b).0 s).0) [
      | inl saved ↦
          rw (modify_stored_done repo k method s b found done saved)
            (b, found, ap (λ o. ((method b).0, o)) done, refl, faithful.find_saved _ s saved)
      | inr (e, failed) ↦
          rw (modify_stored_unsaved repo k method s b found done failed)
            (faithful.save_failed _ s failed)
    ]
  ]

  pub modify_stored-Ends :
      (k : K) (method : A → Outcome A) (s : S) → Ends k method s (modify_stored repo k method s)
  modify_stored-Ends k method s = elim (Result-cases (repo.find k s)) [
    | inr (e, missing) ↦ rw (modify_stored_missing repo k method s missing) refl
    | inl (b, found) ↦ modify_stored_found k method s b found
  ]

  module _ (same : Discrete K) (P : A → Type 0) (kept-P : (a : A) → P a → P (kept a)) where
    save-AllFound : (a : A) (s : S) → AllFound repo P s → P a → AllFound repo P (repo.save a s).1
    save-AllFound a s all p k b found = elim (Option-cases (repo.save a s).0) [
      | inr (e, failed) ↦ all k b (rw (faithful.save_failed a s failed) at found)
      | inl saved ↦ elim (same k (key a)) [
        | yes eq ↦ subst P (cc (faithful.find_saved a s saved)) (kept-P a p)
        | no ne ↦ all k b (faithful.find_other k a b s ne found)
      ]
    ]

    Ends-AllFound :
        (k : K) (method : A → Outcome A) (s : S) (end : Result A × S)
        → Ends k method s end
        → AllFound repo P s
        → ((b : A) → repo.find k s ≡ ok b → P b → P (method b).0)
        → AllFound repo P end.1
    Ends-AllFound k method s (err e, s') same_store all keep = rw same_store all
    Ends-AllFound k method s (ok a, s') (b, found, done, stored, again) all keep = rw stored (
        save-AllFound a s all
          (subst P (ap (λ (o : Outcome A). o.0) done) (keep b found (all k b found))))

    -- What a method keeps holds of every aggregate after the call, if it held before.
    pub modify_stored-AllFound :
        (k : K) (method : A → Outcome A) (s : S)
        → AllFound repo P s
        → ((b : A) → repo.find k s ≡ ok b → P b → P (method b).0)
        → AllFound repo P (modify_stored repo k method s).1
    modify_stored-AllFound k method s =
        Ends-AllFound k method s (modify_stored repo k method s) (modify_stored-Ends k method s)

    -- So too when a new aggregate is made.
    pub create_stored-AllFound :
        (made : Result A) (s : S)
        → AllFound repo P s
        → ((a : A) → made ≡ ok a → P a)
        → AllFound repo P (create_stored repo made s).1
    create_stored-AllFound (err e) s all p = rw (create_stored_err repo e s) all
    create_stored-AllFound (ok a) s all p =
        rw (create_stored_ok repo a s) (save-AllFound a s all (p a refl))
