-- ===== src/Ids/Sequence.antt =====
-- The calls of a generator of identifiers, one after the other.
use mall.Base.{
  ℕ, zero, suc, ◌+◌, ◌%◌, ◌<◌, ◌≡◌, ◌≢◌, refl, sym, ◌∙◌, subst, Option, none, some, inl, inr, arith,
  ltb, leb, ◌==◌, false, Bool-cases,
}
use mall.Kernel.{KernelId, Result, ok}
use mall.Ids.Snowflake.{Snowflake, wait_after, issue_waited, next_id}
use mall.Ids.Order.{code, InEra, HasIssued, last_code, Issues, issue-Issues}

abbrev pub AllInEra : (ℕ → ℕ) → Type 0
AllInEra clock = (i : ℕ) → InEra (clock i)

-- The loop ends with a reading that is later.
abbrev IsLater : ℕ → Option ℕ → Type 0
IsLater last none = Unit
IsLater last (some t) = (last < t) × InEra t

wait_after-IsLater :
    (fuel : ℕ) (clock : ℕ → ℕ) (i last : ℕ)
    → AllInEra clock
    → IsLater last (wait_after fuel clock i last)
unfolding wait_after
wait_after-IsLater zero clock i last era = tt
wait_after-IsLater (suc fuel) clock i last era = elim (Bool-cases (leb (clock i) last)) [
  | inl early ↦ rw early (wait_after-IsLater fuel clock (suc i) last era)
  | inr late ↦ rw late (ground (arith, late), era i)
]

later_code :
    (now : ℕ) (s : Snowflake)
    → HasIssued s
    → InEra now
    → s.last_stamp < now
    → last_code s < code now s.worker_id 0
later_code now s h era later =
    let w = h.worker in let q = h.numbered in let e = h.era in omega (arith, w, q, e, era, later)

waited-Issues :
    (o : Option ℕ) (s : Snowflake)
    → HasIssued s
    → IsLater s.last_stamp o
    → Issues s (issue_waited o s)
waited-Issues none s h later = tt
waited-Issues (some t) s h (later, era) =
    issue-Issues t 0 s h.worker (omega arith) era (later_code t s h era later)

next_code :
    (now : ℕ) (s : Snowflake)
    → HasIssued s
    → now ≡ s.last_stamp
    → (s.sequence + 1) % 4096 ≢ 0
    → last_code s < code now s.worker_id ((s.sequence + 1) % 4096)
next_code now s h same left =
    let w = h.worker in let q = h.numbered in let e = h.era in omega (arith, w, q, e, same, left)

-- A call on a generator that has given an identifier gives a greater one, of the same worker, or an
-- error that changes nothing.
pub next_id-Issues :
    (fuel : ℕ) (clock : ℕ → ℕ) (s : Snowflake)
    → HasIssued s
    → AllInEra clock
    → Issues s (next_id fuel clock s)
unfolding next_id
next_id-Issues fuel clock s h era = elim (Bool-cases (ltb (clock 0) s.last_stamp)) [
  | inl back ↦ rw back refl
  | inr fine ↦ elim (Bool-cases (clock 0 == s.last_stamp)) [
    | inr other ↦
        rw (fine, other)
          (issue-Issues (clock 0) 0 s h.worker (omega arith) (era 0)
            (later_code (clock 0) s h (era 0) (ground (arith, fine, other))))
    | inl same ↦ elim (Bool-cases ((s.sequence + 1) % 4096 == 0)) [
      | inl used_up ↦
          rw (fine, same, used_up)
            (waited-Issues _ s h (wait_after-IsLater fuel clock 1 s.last_stamp era))
      | inr left ↦
          rw (fine, same, left)
            (issue-Issues (clock 0) ((s.sequence + 1) % 4096) s h.worker (omega arith) (era 0)
              (next_code (clock 0) s h (ground (arith, same)) (ground (arith, left))))
    ]
  ]
]

-- Two generators of different workers, each of which has given an identifier before, never give the
-- same one, for clock readings in the 41 bits of milliseconds from the epoch on.
pub next_id_apart :
    (fuel1 fuel2 : ℕ) (clock1 clock2 : ℕ → ℕ) (s1 s2 t1 t2 : Snowflake) (id1 id2 : KernelId)
    → HasIssued s1
    → HasIssued s2
    → AllInEra clock1
    → AllInEra clock2
    → s1.worker_id ≢ s2.worker_id
    → next_id fuel1 clock1 s1 ≡ some (ok id1, t1)
    → next_id fuel2 clock2 s2 ≡ some (ok id2, t2)
    → id1 ≢ id2
next_id_apart fuel1 fuel2 clock1 clock2 s1 s2 t1 t2 id1 id2 h1 h2 era1 era2 apart is1 is2 same =
    let (coded1, i1, worker1, later1) =
      subst (Issues s1) is1 (next_id-Issues fuel1 clock1 s1 h1 era1) in
    let (coded2, i2, worker2, later2) =
      subst (Issues s2) is2 (next_id-Issues fuel2 clock2 s2 h2 era2) in
    let w1 = i1.worker in
    let q1 = i1.numbered in
    let w2 = i2.worker in
    let q2 = i2.numbered in
    let codes : last_code t1 ≡ last_code t2 = ground (arith, sym coded1 ∙ same ∙ coded2) in
    apart (sym worker1 ∙ omega (arith, codes, w1, q1, w2, q2) ∙ worker2)

wait_after-returns :
    (fuel : ℕ) (clock : ℕ → ℕ) (i last j : ℕ)
    → j < fuel
    → last < clock (j + i)
    → (t : ℕ) × (wait_after fuel clock i last ≡ some t)
unfolding wait_after
wait_after-returns zero clock i last j few later = absurd (omega (arith, few))
wait_after-returns (suc fuel) clock i last zero few later =
    let late : leb (clock i) last ≡ false = ground (arith, later) in (clock i, rw late refl)
wait_after-returns (suc fuel) clock i last (suc j) few later =
    elim (Bool-cases (leb (clock i) last)) [
      | inr late ↦ (clock i, rw late refl)
      | inl early ↦
          let next : suc j + i ≡ j + suc i = omega arith in
          let (t, found) =
            wait_after-returns fuel clock (suc i) last j (omega arith)
              (subst (λ k. last < clock k) next later) in
          (t, rw early found)
    ]

-- A call returns where one of its readings, with the fuel given, is later than the millisecond of
-- the last identifier.
pub next_id-returns :
    (fuel : ℕ) (clock : ℕ → ℕ) (s : Snowflake) (j : ℕ)
    → j < fuel
    → s.last_stamp < clock (j + 1)
    → (end : Result KernelId × Snowflake) × (next_id fuel clock s ≡ some end)
unfolding next_id
next_id-returns fuel clock s j few later =
    let (t, found) = wait_after-returns fuel clock 1 s.last_stamp j few later in
    elim (Bool-cases (ltb (clock 0) s.last_stamp)) [
      | inl back ↦ rw back (_, refl)
      | inr fine ↦ elim (Bool-cases (clock 0 == s.last_stamp)) [
        | inr other ↦ rw (fine, other) (_, refl)
        | inl same ↦ elim (Bool-cases ((s.sequence + 1) % 4096 == 0)) [
          | inl used_up ↦ rw (fine, same, used_up, found) (_, refl)
          | inr left ↦ rw (fine, same, left) (_, refl)
        ]
      ]
    ]
