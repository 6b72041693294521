-- ===== src/Middleware/Tests.antt =====
-- The circuit breaker theorems at a breaker that opens at the third failure and closes after two
-- successes.
use mall.Base.{◌≡◌, refl, true, List, [], ◌∷◌, arith, pos, ◌+ℤ◌, ◌-ℤ◌}
use mall.Middleware.Breaker.{
  CircuitBreaker, closed, open_state, half_open, new_circuit_breaker, allow,
}
use mall.Middleware.BreakerLaws.{
  BreakerCall, allows, fails, succeeds, run_breaker, IsCounted, run_breaker-IsCounted,
}
use mall.Middleware.Recovery.{repeat_success, allow-recovers}

abbrev calls : List BreakerCall
calls = allows 1 ∷ fails 2 ∷ fails 3 ∷ fails 4 ∷ allows 99 ∷ succeeds ∷ []

run_breaker-IsCounted_example :
    IsCounted (run_breaker calls (new_circuit_breaker (pos 3) (pos 2) (pos 30)))
run_breaker-IsCounted_example =
    run_breaker-IsCounted (pos 3) (pos 2) (pos 30) calls (omega arith) (omega arith) (omega arith)
      (omega arith)

abbrev opened : CircuitBreaker
opened = record {
  state = open_state;
  failure_count = pos 3;
  success_count = pos 0;
  failure_threshold = pos 3;
  success_threshold = pos 2;
  timeout = pos 30;
  last_failure = 4;
}

abbrev trying : CircuitBreaker
trying = record opened { state = half_open }

opened-IsCounted : IsCounted opened
opened-IsCounted = ground arith

trying-IsCounted : IsCounted trying
trying-IsCounted = ground arith

allow-recovers_example :
    ((allow 50 opened).1 ≡ true)
    × ((repeat_success 2 (allow 50 opened).0).state ≡ closed)
    × ((repeat_success 2 (allow 50 opened).0).failure_count ≡ pos 0)
unfolding ◌+ℤ◌ ◌-ℤ◌
allow-recovers_example =
    allow-recovers opened 50 1 opened-IsCounted (omega arith) refl (omega arith) refl
