-- ===== src/Kernel/Effects.antt =====
-- Go calls that may fail. A constructor returns a value or an error; a method that mutates its
-- receiver returns the receiver and the error; a service call runs on a state that it may change.
use mall.Base.{
  Bool, Option, none, some, List, [], ◌∷◌, ◌++◌, if◌then◌else◌, ◌≡◌, refl, sym, ◌∙◌, arith,
}
use mall.Kernel.Errors.{Error}

pub data Result (A : Type 0) : Type 0 where
  ok : A → Result A
  err : Error → Result A

-- A method on a receiver of type `A` that returns an `error`.
abbrev pub Outcome : Type 0 → Type 0
Outcome A = A × Option Error

abbrev pub Action : Type 0 → Type 0 → Type 0
Action W A = W → Result A × W

infixl 5 ◌>>=◌ ◌>>◌
abbrev pub ◌>>=◌ : {W A B : Type 0} → Action W A → (A → Action W B) → Action W B
◌>>=◌ m f w = let (r, w') = m w in elim r [ ok a ↦ f a w' | err e ↦ (err e, w') ]

abbrev pub ◌>>◌ : {W A B : Type 0} → Action W A → Action W B → Action W B
m >> k = m >>= λ _. k

module _ {W : Type 0} where
  abbrev pub pure : {A : Type 0} → A → Action W A
  pure a w = (ok a, w)

  abbrev pub raise : {A : Type 0} → Error → Action W A
  raise e w = (err e, w)

  abbrev pub raise_if : Bool → Error → Action W (Unit {0})
  raise_if b e w = (if b then err e else ok tt, w)

  abbrev pub from_result : {A : Type 0} → Result A → Action W A
  from_result r w = (r, w)

  -- `if err := a.Method(…); err != nil { return nil, err }`: the changed receiver is dropped with
  -- the error.
  abbrev pub from_outcome : {A : Type 0} → Outcome A → Action W A
  from_outcome (a, none) w = (ok a, w)
  from_outcome (a, some e) w = (err e, w)

-- The storage of one kind of aggregate, behind its interface. Finding reads; saving may fail.
pub record Repository (S A K : Type 0) : Type 0 where
  pub find : K → S → Result A
  pub save : A → S → Option Error × S

abbrev pub from_save : {S : Type 0} → (S → Option Error × S) → Action S (Unit {0})
from_save f s = let (e, s') = f s in elim e [ none ↦ (ok tt, s') | some x ↦ (err x, s') ]

-- What the services of one kind of aggregate change: the storage, and the calls of the event
-- publisher, each with the aggregate that it was given.
pub record World (S A : Type 0) : Type 0 where
  pub store : S
  pub published : List A

abbrev pub in_store : {S A B : Type 0} → Action S B → Action (World S A) B
in_store m w = let (r, s) = m w.store in (r, record w { store = s })

-- The loop of the services' `publishEvents`: one call of the publisher for each event of a listed
-- name. A publisher's error is logged and otherwise ignored.
unfoldable pub publish_each : {A E : Type 0} → (E → Bool) → List E → A → List A → List A
publish_each listed [] a log = log
publish_each listed (e ∷ es) a log =
    publish_each listed es a (if listed e then log ++ (a ∷ []) else log)

abbrev continue_with : {W A B : Type 0} → (A → Action W B) → Result A × W → Result B × W
continue_with f (ok a, w) = f a w
continue_with f (err e, w) = (err e, w)

continue_ok :
    {W A B : Type 0} (f : A → Action W B) (o : Result A × W) (b : B) (end : W)
    → continue_with f o ≡ (ok b, end)
    → (a : A) × (mid : W) × (o ≡ (ok a, mid)) × (f a mid ≡ (ok b, end))
continue_ok f (ok a, mid) b end h = (a, mid, refl, h)
continue_ok f (err e, mid) b end h = cc

continue_with_lem :
    {W A B : Type 0} (m : Action W A) (f : A → Action W B) (w : W)
    → (m >>= f) w ≡ continue_with f (m w)
continue_with_lem m f w = ground arith

-- A chain that succeeds has succeeded at its first step, and went on from there.
pub >>=-eq-ok :
    {W A B : Type 0} (m : Action W A) (f : A → Action W B) (w : W) {b : B} {end : W}
    → (m >>= f) w ≡ (ok b, end)
    → (a : A) × (mid : W) × (m w ≡ (ok a, mid)) × (f a mid ≡ (ok b, end))
>>=-eq-ok m f w {b} {end} h = continue_ok f (m w) b end (sym (continue_with_lem m f w) ∙ h)
