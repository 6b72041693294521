-- ===== src/Ids/Snowflake.antt =====
-- domain/kernel/snowflake.go. A call reads the clock, in milliseconds since 1970, once, and where
-- it has used up the sequence numbers of a millisecond again until a later one: `clock i` is the
-- i-th reading.
use mall.Base.{
  ℕ, zero, suc, ◌+◌, ◌%◌, ◌^◌, Option, none, some, if◌then◌else◌, ltb, leb, ◌==◌, ℤ, pos, negsuc,
  ◌-ℤ◌, to_bits, of_bits,
}
use mall.Kernel.{KernelId, Result, ok, err, new_domain_error, invalid_argument, internal}
use mall.Ids.Bits.{bit_or, shift_left}

abbrev pub snowflake_epoch : ℕ
snowflake_epoch = 1700000000000

abbrev pub worker_bits : ℕ
worker_bits = 10

abbrev pub sequence_bits : ℕ
sequence_bits = 12

-- `-1 ^ (-1 << workerBits)`
abbrev pub worker_max : ℕ
worker_max = 1023

abbrev pub worker_shift : ℕ
worker_shift = 12

abbrev pub timestamp_left_shift : ℕ
timestamp_left_shift = 22

-- The fields are never negative.
pub record Snowflake : Type 0 where
  pub worker_id : ℕ
  pub sequence : ℕ
  pub last_stamp : ℕ

unfoldable pub new_snowflake : ℤ → Result Snowflake
new_snowflake (negsuc n) = err (new_domain_error invalid_argument "worker ID out of range")
new_snowflake (pos w) =
    if ltb worker_max w
    then err (new_domain_error invalid_argument "worker ID out of range")
    else ok (record { worker_id = w; sequence = 0; last_stamp = 0 })

-- The loop that waits for a later millisecond, with at most `fuel` more readings.
unfoldable pub wait_after : ℕ → (ℕ → ℕ) → ℕ → ℕ → Option ℕ
wait_after zero clock i last = none
wait_after (suc fuel) clock i last =
    let rest = wait_after fuel clock (suc i) last in
    if leb (clock i) last then rest else some (clock i)

-- The bits of `(now-snowflakeEpoch)<<timestampLeftShift | s.workerID<<workerShift | s.sequence`.
unfoldable pub id_bits : ℕ → ℕ → ℕ → ℕ
id_bits now worker_id sequence =
    bit_or 64
      (bit_or 64 (shift_left (to_bits (pos now -ℤ pos snowflake_epoch)) timestamp_left_shift)
        (shift_left worker_id worker_shift))
      sequence

-- The end of `NextID`.
unfoldable pub issue : ℕ → ℕ → Snowflake → Result KernelId × Snowflake
issue now sequence s = (
  ok (of_bits (id_bits now s.worker_id sequence)),
  record { worker_id = s.worker_id; sequence = sequence; last_stamp = now },
)

abbrev pub issue_waited : Option ℕ → Snowflake → Option (Result KernelId × Snowflake)
issue_waited none s = none
issue_waited (some now) s = some (issue now 0 s)

-- Masking with `sequenceMask` is the remainder by 2^12. `none`: the fuel was used up in the loop.
unfoldable pub next_id : ℕ → (ℕ → ℕ) → Snowflake → Option (Result KernelId × Snowflake)
next_id fuel clock s =
    let now = clock 0 in
    let sequence = (s.sequence + 1) % 2 ^ sequence_bits in
    if ltb now s.last_stamp
    then some (err (new_domain_error internal "clock moved backwards"), s)
    else if now == s.last_stamp
    then if sequence == 0
      then issue_waited (wait_after fuel clock 1 s.last_stamp) s
      else some (issue now sequence s)
    else some (issue now 0 s)
