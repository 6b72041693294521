-- ===== src/Ids/Increase.antt =====
-- A new generator of identifiers over a list of calls.
use mall.Base.{ℕ, ◌<◌, ◌≡◌, refl, Option, none, some, List, [], ◌∷◌, arith, ℤ, pos, negsuc, ◌<ℤ◌}
use mall.Kernel.{KernelId, Result, ok, err}
use mall.Ids.Snowflake.{Snowflake, new_snowflake, issue, next_id}
use mall.Ids.Order.{InEra, HasIssued, last_code, Issues, of_bits-id_bits}
use mall.Ids.Sequence.{AllInEra, next_id-Issues}

-- The identifiers of a list of calls, each with its readings, up to one that never sees a later
-- millisecond.
abbrev pub collect :
    (Snowflake → List KernelId) → Option (Result KernelId × Snowflake) → List KernelId
collect rest none = []
collect rest (some (ok id, s)) = id ∷ rest s
collect rest (some (err e, s)) = rest s

abbrev pub ids_of : ℕ → List (ℕ → ℕ) → Snowflake → List KernelId
ids_of fuel [] s = []
ids_of fuel (clock ∷ clocks) s = collect (ids_of fuel clocks) (next_id fuel clock s)

-- A list that increases, from above a number on.
abbrev pub IsIncreasing : ℤ → List ℤ → Type 0
IsIncreasing m [] = Unit
IsIncreasing m (id ∷ ids) = (m <ℤ id) × IsIncreasing id ids

abbrev pub AllClocksInEra : List (ℕ → ℕ) → Type 0
AllClocksInEra [] = Unit
AllClocksInEra (clock ∷ clocks) = AllInEra clock × AllClocksInEra clocks

collect-IsIncreasing :
    (rest : Snowflake → List KernelId) (s : Snowflake) (o : Option (Result KernelId × Snowflake))
    → Issues s o
    → HasIssued s
    → ((t : Snowflake) → HasIssued t → IsIncreasing (pos (last_code t)) (rest t))
    → IsIncreasing (pos (last_code s)) (collect rest o)
collect-IsIncreasing rest s none issues h more = tt
collect-IsIncreasing rest s (some (ok id, t)) (is, h', worker, later) h more =
    rw is (omega (arith, later), more t h')
collect-IsIncreasing rest s (some (err e, t)) same h more = rw same (more s h)

ids_of-IsIncreasing_from :
    (fuel : ℕ) (clocks : List (ℕ → ℕ)) (s : Snowflake)
    → HasIssued s
    → AllClocksInEra clocks
    → IsIncreasing (pos (last_code s)) (ids_of fuel clocks s)
ids_of-IsIncreasing_from fuel [] s h era = tt
ids_of-IsIncreasing_from fuel (clock ∷ clocks) s h era =
    collect-IsIncreasing (ids_of fuel clocks) s (next_id fuel clock s)
      (next_id-Issues fuel clock s h era.0) h
      (λ t h'. ids_of-IsIncreasing_from fuel clocks t h' era.1)

new_snowflake-is :
    (w : ℤ) (s : Snowflake)
    → new_snowflake w ≡ ok s
    → (s.worker_id < 1024) × (s.sequence ≡ 0) × (s.last_stamp ≡ 0)
unfolding new_snowflake
new_snowflake-is (pos w) s e = ground arith
new_snowflake-is w s e = ground arith

-- The first call of a new generator.
first_id :
    (fuel : ℕ) (clock : ℕ → ℕ) (s : Snowflake)
    → s.last_stamp ≡ 0
    → InEra (clock 0)
    → next_id fuel clock s ≡ some (issue (clock 0) 0 s)
unfolding next_id
first_id fuel clock s fresh era = ground (arith, fresh, era)

issued_first :
    (now : ℕ) (s : Snowflake)
    → s.worker_id < 1024
    → InEra now
    → (id : KernelId) × (t : Snowflake) × (issue now 0 s ≡ (ok id, t))
      × (id ≡ pos (last_code t))
      × HasIssued t
unfolding issue
issued_first now s w era = (
  _,
  record { worker_id = s.worker_id; sequence = 0; last_stamp = now },
  refl,
  of_bits-id_bits now s.worker_id 0 era w (omega arith),
  record { worker = w; numbered = omega arith; era = era },
)

-- The identifiers of a new generator increase strictly, and are not negative, whatever the clock
-- shows from the epoch on and for the 41 bits of milliseconds after it.
pub ids_of-IsIncreasing :
    (fuel : ℕ) (w : ℤ) (s : Snowflake) (clocks : List (ℕ → ℕ))
    → new_snowflake w ≡ ok s
    → AllClocksInEra clocks
    → IsIncreasing (negsuc 0) (ids_of fuel clocks s)
ids_of-IsIncreasing fuel w s [] made era = tt
ids_of-IsIncreasing fuel w s (clock ∷ clocks) made era =
    let (worker, unnumbered, fresh) = new_snowflake-is w s made in
    let (id, t, is, coded, h) = issued_first (clock 0) s worker (era.0 0) in
    rw (first_id fuel clock s fresh (era.0 0), is, coded)
      (omega arith, ids_of-IsIncreasing_from fuel clocks t h era.1)
