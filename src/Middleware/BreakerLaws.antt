-- ===== src/Middleware/BreakerLaws.antt =====
-- The circuit breaker in any sequence of calls.
use mall.Base.{
  ◌≡◌, ◌≢◌, ◌⊎◌, inl, inr, refl, false, List, [], ◌∷◌, arith, length, ℤ, pos, ◌+ℤ◌, ◌-ℤ◌, ◌≤ℤ◌,
  ◌<ℤ◌, ◌<◌, InRange, add64_exact, half_range, add64, int_laws,
}
use mall.Kernel.{Time}
use mall.Middleware.Breaker.{
  State, closed, open_state, half_open, CircuitBreaker, new_circuit_breaker, allow_locked, allow,
  success, failure,
}

pub data BreakerCall : Type 0 where
  allows fails : Time → BreakerCall
  succeeds : BreakerCall

abbrev pub call_breaker : BreakerCall → CircuitBreaker → CircuitBreaker
call_breaker (allows now) cb = (allow now cb).0
call_breaker (fails now) cb = failure now cb
call_breaker succeeds cb = success cb

-- A breaker that is not closed has counted its failures; a closed one has not. In the half-open
-- state the successes are below their threshold.
pub record IsCounted (cb : CircuitBreaker) : Type 0 where
  pub tripped : cb.state ≢ closed → cb.failure_threshold ≤ℤ cb.failure_count
  pub untripped : cb.state ≡ closed → cb.failure_count <ℤ cb.failure_threshold
  pub trying : cb.state ≡ half_open → cb.success_count <ℤ cb.success_threshold
  pub failures : pos 0 ≤ℤ cb.failure_count
  pub successes : pos 0 ≤ℤ cb.success_count
  pub thresholds : (pos 0 <ℤ cb.failure_threshold) × (pos 0 <ℤ cb.success_threshold)
  pub threshold_range : InRange cb.success_threshold

State-cases : (s : State) → (s ≡ half_open) ⊎ (s ≢ half_open)
State-cases half_open = inl refl
State-cases closed = inr cc
State-cases open_state = inr cc

pub call_breaker-IsCounted :
    (c : BreakerCall) (cb : CircuitBreaker)
    → IsCounted cb
    → cb.failure_count +ℤ pos 1 <ℤ pos half_range
    → IsCounted (call_breaker c cb)
unfolding allow allow_locked success failure
call_breaker-IsCounted (allows now) cb h small = ground arith
call_breaker-IsCounted (fails now) cb h small =
    let counted : add64 cb.failure_count (pos 1) ≡ cb.failure_count +ℤ pos 1 =
      add64_exact cb.failure_count (pos 1) (grind (int_laws, h, small)) in
    grind (int_laws, h, small, counted)
call_breaker-IsCounted succeeds cb h small = elim (State-cases cb.state) [
  | inl trying ↦
      let counted : add64 cb.success_count (pos 1) ≡ cb.success_count +ℤ pos 1 =
        add64_exact cb.success_count (pos 1) (grind (int_laws, h, small, trying)) in
      grind (int_laws, h, small, counted, trying)
  | inr other ↦ grind (int_laws, h, small, other)
]

call_breaker-failure_count :
    (c : BreakerCall) (cb : CircuitBreaker)
    → IsCounted cb
    → cb.failure_count +ℤ pos 1 <ℤ pos half_range
    → (call_breaker c cb).failure_count ≤ℤ cb.failure_count +ℤ pos 1
unfolding allow allow_locked success failure
call_breaker-failure_count (allows now) cb h small = grind (int_laws, h, small)
call_breaker-failure_count (fails now) cb h small =
    let counted : add64 cb.failure_count (pos 1) ≡ cb.failure_count +ℤ pos 1 =
      add64_exact cb.failure_count (pos 1) (grind (int_laws, h, small)) in
    grind (int_laws, h, small, counted)
call_breaker-failure_count succeeds cb h small = grind (int_laws, h, small)

abbrev pub run_breaker : List BreakerCall → CircuitBreaker → CircuitBreaker
run_breaker [] cb = cb
run_breaker (c ∷ cs) cb = run_breaker cs (call_breaker c cb)

run_breaker-IsCounted_from :
    (cs : List BreakerCall) (cb : CircuitBreaker)
    → IsCounted cb
    → cb.failure_count +ℤ pos (length cs) <ℤ pos half_range
    → IsCounted (run_breaker cs cb)
run_breaker-IsCounted_from [] cb h small = h
run_breaker-IsCounted_from (c ∷ cs) cb h small =
    let one : cb.failure_count +ℤ pos 1 <ℤ pos half_range = grind (int_laws, small) in
    let grown = call_breaker-failure_count c cb h one in
    run_breaker-IsCounted_from cs (call_breaker c cb) (call_breaker-IsCounted c cb h one)
      (grind (int_laws, small, grown))

-- In any sequence of fewer than 2^63 calls, one after the other, on a new breaker with positive
-- thresholds, that of the successes an int64: it is closed exactly while the failures counted are
-- below their threshold, and half-open only while the successes are below theirs.
pub run_breaker-IsCounted :
    (failure_threshold success_threshold timeout : ℤ) (cs : List BreakerCall)
    → pos 0 <ℤ failure_threshold
    → pos 0 <ℤ success_threshold
    → InRange success_threshold
    → length cs < half_range
    → IsCounted (run_breaker cs (new_circuit_breaker failure_threshold success_threshold timeout))
unfolding new_circuit_breaker
run_breaker-IsCounted failure_threshold success_threshold timeout cs f s range short =
    run_breaker-IsCounted_from cs _
      (record {
        tripped = λ ne. absurd (ne refl);
        untripped = λ e. f;
        trying = λ e. absurd (ground (arith, e));
        failures = omega arith;
        successes = omega arith;
        thresholds = (f, s);
        threshold_range = range;
      })
      (grind (int_laws, short))

-- A failure in the half-open state opens the breaker again: until its timeout has passed since then
-- every call is refused.
pub failure-half_open :
    (cb : CircuitBreaker) (now later : Time)
    → IsCounted cb
    → cb.failure_count +ℤ pos 1 <ℤ pos half_range
    → cb.state ≡ half_open
    → pos later -ℤ pos now ≤ℤ cb.timeout
    → ((failure now cb).state ≡ open_state)
      × (allow later (failure now cb) ≡ (failure now cb, false))
unfolding failure allow allow_locked
failure-half_open cb now later h small trying soon =
    let counted : add64 cb.failure_count (pos 1) ≡ cb.failure_count +ℤ pos 1 =
      add64_exact cb.failure_count (pos 1) (grind (int_laws, h, small)) in
    grind (int_laws, h, small, counted, trying, soon)
