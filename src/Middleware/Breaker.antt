-- ===== src/Middleware/Breaker.antt =====
-- interfaces/middleware/circuitbreaker.go. Each method takes the clock reading that it makes.
-- `Allow` reads the state under the read lock and goes on under the write lock: between the two
-- another call may run, so the second part is a function of its own.
use mall.Base.{ℕ, Bool, true, false, not, if◌then◌else◌, ℤ, pos, ◌-ℤ◌, add64, ltb_ℤ, leb_ℤ, ◌==◌}
use mall.Kernel.{Time}

pub data State : Type 0 where
  closed open_state half_open : State

abbrev state_number : State → ℕ
state_number closed = 0
state_number open_state = 1
state_number half_open = 2

abbrev pub state_eq : State → State → Bool
state_eq a b = state_number a == state_number b

pub record CircuitBreaker : Type 0 where
  pub state : State
  pub failure_count : ℤ
  pub success_count : ℤ
  pub failure_threshold : ℤ
  pub success_threshold : ℤ
  pub timeout : ℤ
  pub last_failure : Time

unfoldable pub new_circuit_breaker : ℤ → ℤ → ℤ → CircuitBreaker
new_circuit_breaker failure_threshold success_threshold timeout = record {
  state = closed;
  failure_count = pos 0;
  success_count = pos 0;
  failure_threshold = failure_threshold;
  success_threshold = success_threshold;
  timeout = timeout;
  last_failure = 0;
}

-- What `Allow` does under the write lock, once it has read `StateOpen`.
unfoldable pub allow_locked : Time → CircuitBreaker → CircuitBreaker × Bool
allow_locked now cb =
    if ltb_ℤ cb.timeout (pos now -ℤ pos cb.last_failure)
    then (record cb { state = half_open; success_count = pos 0 }, true)
    else (cb, false)

unfoldable pub allow : Time → CircuitBreaker → CircuitBreaker × Bool
allow now cb = if state_eq cb.state open_state then allow_locked now cb else (cb, true)

unfoldable pub success : CircuitBreaker → CircuitBreaker
success cb =
    if state_eq cb.state half_open
    then if leb_ℤ cb.success_threshold (add64 cb.success_count (pos 1))
      then record cb { state = closed; failure_count = pos 0; success_count = pos 0 }
      else record cb { success_count = add64 cb.success_count (pos 1) }
    else if state_eq cb.state closed
    then record cb { failure_count = pos 0 }
    else cb

unfoldable pub failure : Time → CircuitBreaker → CircuitBreaker
failure now cb =
    let count = add64 cb.failure_count (pos 1) in
    if leb_ℤ cb.failure_threshold count
    then record cb { failure_count = count; last_failure = now; state = open_state }
    else record cb { failure_count = count; last_failure = now }

-- The handler around a `next` that answers with `status`; what is returned is the answer's status.
unfoldable pub circuit_breaker_middleware : Time → Time → ℤ → CircuitBreaker → CircuitBreaker × ℤ
circuit_breaker_middleware asked answered status cb =
    let (cb', allowed) = allow asked cb in
    if not allowed
    then (cb', pos 503)
    else if leb_ℤ (pos 500) status
    then (failure answered cb', status)
    else (success cb', status)
