-- ===== src/Middleware/Recovery.antt =====
-- How an open circuit breaker closes, and the race of two calls of `Allow`.
use mall.Base.{
  ℕ, zero, suc, ◌≡◌, refl, ap, ◌∙◌, Bool, true, arith, pos, ◌+ℤ◌, ◌-ℤ◌, ◌<ℤ◌, add64_exact,
  half_range, add64, int_laws,
}
use mall.Kernel.{Time}
use mall.Middleware.Breaker.{
  closed, open_state, half_open, CircuitBreaker, allow_locked, allow, success, failure,
}
use mall.Middleware.BreakerLaws.{allows, succeeds, IsCounted, call_breaker-IsCounted}

abbrev pub repeat_success : ℕ → CircuitBreaker → CircuitBreaker
repeat_success zero cb = cb
repeat_success (suc n) cb = repeat_success n (success cb)

-- While more than one success is missing, a success is counted; the last one closes the breaker.
success_counted :
    (cb : CircuitBreaker)
    → IsCounted cb
    → cb.state ≡ half_open
    → cb.success_count +ℤ pos 1 <ℤ cb.success_threshold
    → success cb ≡ record cb { success_count = cb.success_count +ℤ pos 1 }
unfolding success
success_counted cb h trying more =
    let counted : add64 cb.success_count (pos 1) ≡ cb.success_count +ℤ pos 1 =
      add64_exact cb.success_count (pos 1) (grind (int_laws, h, more)) in
    grind (int_laws, h, counted, trying, more)

success_last :
    (cb : CircuitBreaker)
    → IsCounted cb
    → cb.state ≡ half_open
    → cb.success_count +ℤ pos 1 ≡ cb.success_threshold
    → ((success cb).state ≡ closed) × ((success cb).failure_count ≡ pos 0)
unfolding success
success_last cb h trying last =
    let counted : add64 cb.success_count (pos 1) ≡ cb.success_count +ℤ pos 1 =
      add64_exact cb.success_count (pos 1) (grind (int_laws, h, last)) in
    grind (int_laws, h, counted, trying, last)

repeat_success-closes :
    (n : ℕ) (cb : CircuitBreaker)
    → IsCounted cb
    → cb.failure_count +ℤ pos 1 <ℤ pos half_range
    → cb.state ≡ half_open
    → cb.success_count +ℤ pos (suc n) ≡ cb.success_threshold
    → ((repeat_success (suc n) cb).state ≡ closed)
      × ((repeat_success (suc n) cb).failure_count ≡ pos 0)
repeat_success-closes zero cb h small trying last = success_last cb h trying last
repeat_success-closes (suc n) cb h small trying last =
    let counted = success_counted cb h trying (grind (int_laws, last)) in
    let states : (success cb).state ≡ half_open =
      ap (λ (b : CircuitBreaker). b.state) counted ∙ trying in
    repeat_success-closes n (success cb) (call_breaker-IsCounted succeeds cb h small)
      (rw counted small) states (rw counted (grind (int_laws, last)))

allow_late :
    (cb : CircuitBreaker) (now : Time)
    → cb.state ≡ open_state
    → cb.timeout <ℤ pos now -ℤ pos cb.last_failure
    → allow now cb ≡ (record cb { state = half_open; success_count = pos 0 }, true)
unfolding allow allow_locked
allow_late cb now opened late = ground arith

-- An open breaker, with its counts as any sequence of calls leaves them and room for one more
-- failure, recovers: a call after the timeout is let through, and as many successes as the
-- threshold asks for, with no other call between, close it with no failure counted.
pub allow-recovers :
    (cb : CircuitBreaker) (now : Time) (n : ℕ)
    → IsCounted cb
    → cb.failure_count +ℤ pos 1 <ℤ pos half_range
    → cb.state ≡ open_state
    → cb.timeout <ℤ pos now -ℤ pos cb.last_failure
    → cb.success_threshold ≡ pos (suc n)
    → ((allow now cb).1 ≡ true)
      × ((repeat_success (suc n) (allow now cb).0).state ≡ closed)
      × ((repeat_success (suc n) (allow now cb).0).failure_count ≡ pos 0)
allow-recovers cb now n h small opened late asks =
    let tried = allow_late cb now opened late in
    let counted : IsCounted (allow now cb).0 = call_breaker-IsCounted (allows now) cb h small in
    let closes =
      repeat_success-closes n (allow now cb).0 counted (rw tried small) (rw tried refl)
        (rw tried (grind (int_laws, asks))) in
    (ap (λ (o : CircuitBreaker × Bool). o.1) tried, closes.0, closes.1)

one_counted : add64 (pos 0) (pos 1) ≡ pos 1
unfolding add64
one_counted = refl

success_only :
    (cb : CircuitBreaker)
    → cb.state ≡ half_open
    → cb.success_count ≡ pos 0
    → cb.success_threshold ≡ pos 1
    → success cb ≡ record cb { state = closed; failure_count = pos 0; success_count = pos 0 }
unfolding success
success_only cb trying none_yet one =
    ground (arith, one_counted, ap (λ c. add64 c (pos 1)) none_yet)

allow_locked_late :
    (cb : CircuitBreaker) (now : Time)
    → cb.timeout <ℤ pos now -ℤ pos cb.last_failure
    → (allow_locked now cb).0 ≡ record cb { state = half_open; success_count = pos 0 }
unfolding allow_locked
allow_locked_late cb now late = ground arith

failure_below :
    (cb : CircuitBreaker) (now : Time)
    → cb.failure_count ≡ pos 0
    → pos 1 <ℤ cb.failure_threshold
    → (failure now cb).state ≡ cb.state
unfolding failure
failure_below cb now none_yet more = ground (arith, one_counted, ap (λ c. add64 c (pos 1)) none_yet)

-- On a breaker that one success closes and more than one failure opens, two calls of `Allow` that
-- both read the open state after its timeout: where the first goes on, and its request succeeds and
-- closes the breaker, the second still makes it half-open, and then a
-- failure does not open it.
pub allow_race :
    (cb : CircuitBreaker) (now later failed : Time)
    → cb.state ≡ open_state
    → cb.success_threshold ≡ pos 1
    → pos 1 <ℤ cb.failure_threshold
    → cb.timeout <ℤ pos now -ℤ pos cb.last_failure
    → cb.timeout <ℤ pos later -ℤ pos cb.last_failure
    → let between = success (allow now cb).0 in
      let after = (allow_locked later between).0 in
      (between.state ≡ closed)
      × (after.state ≡ half_open)
      × ((failure failed after).state ≡ half_open)
allow_race cb now later failed opened one more late later_late =
    let tried = ap (λ (o : CircuitBreaker × Bool). o.0) (allow_late cb now opened late) in
    let trying : CircuitBreaker = record cb { state = half_open; success_count = pos 0 } in
    let between = ap success tried ∙ success_only trying refl refl one in
    let shut : CircuitBreaker = record trying {
      state = closed;
      failure_count = pos 0;
      success_count = pos 0;
    } in
    let after =
      ap (λ (b : CircuitBreaker). (allow_locked later b).0) between
      ∙ allow_locked_late shut later later_late in
    (
      ap (λ (b : CircuitBreaker). b.state) between,
      ap (λ (b : CircuitBreaker). b.state) after,
      ap (λ b. (failure failed b).state) after
          ∙ failure_below (record shut { state = half_open; success_count = pos 0 }) failed refl
              more,
    )
