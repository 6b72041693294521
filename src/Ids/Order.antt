-- ===== src/Ids/Order.antt =====
-- The identifiers that a generator gives: their order, and what they tell of their worker.
use mall.Base.{
  ℕ, ◌+◌, ◌*◌, ◌-◌, ◌%◌, ◌<◌, ◌≤◌, ◌≡◌, refl, sym, ap, ◌∙◌, Option, none, some, arith, pos, ◌-ℤ◌,
  to_bits, of_bits, full_range,
}
use mall.Kernel.{KernelId, Result, ok, err}
use mall.Ids.Bits.{bit_or, shift_left, bit_or-apart}
use mall.Ids.Snowflake.{Snowflake, snowflake_epoch, id_bits, issue}

-- The identifier of a millisecond, a worker and a sequence number.
abbrev pub code : ℕ → ℕ → ℕ → ℕ
code now worker_id sequence = (now - snowflake_epoch) * 4194304 + worker_id * 4096 + sequence

-- The milliseconds whose 41 bits fit into an int64.
abbrev pub InEra : ℕ → Type 0
InEra now = (snowflake_epoch ≤ now) × (now < snowflake_epoch + 2199023255552)

stamp_bits :
    (now : ℕ) → InEra now → to_bits (pos now -ℤ pos snowflake_epoch) ≡ now - snowflake_epoch
unfolding ◌-ℤ◌
stamp_bits now h = ground arith

id_bits-code :
    (now worker_id sequence : ℕ)
    → InEra now
    → worker_id < 1024
    → sequence < 4096
    → id_bits now worker_id sequence ≡ code now worker_id sequence
unfolding id_bits shift_left
id_bits-code now worker_id sequence era w q =
    let d = now - snowflake_epoch in
    let stamp = stamp_bits now era in
    let high : d * 4194304 % full_range ≡ d * 4194304 = omega arith in
    let middle : worker_id * 4096 % full_range ≡ worker_id * 4096 = omega arith in
    let first : bit_or 64 (d * 4194304) (worker_id * 4096) ≡ d * 4194304 + worker_id * 4096 =
      bit_or-apart 64 22 d (worker_id * 4096) (omega arith) (omega arith) in
    let aligned : d * 4194304 + worker_id * 4096 ≡ (d * 1024 + worker_id) * 4096 = omega arith in
    let second : bit_or 64 ((d * 1024 + worker_id) * 4096) sequence
        ≡ (d * 1024 + worker_id) * 4096 + sequence =
      bit_or-apart 64 12 (d * 1024 + worker_id) sequence (omega arith) (omega arith) in
    ap
      (λ t.
        bit_or 64 (bit_or 64 (t * 4194304 % full_range) (worker_id * 4096 % full_range)) sequence)
      stamp
    ∙ ap (λ t. bit_or 64 (bit_or 64 t (worker_id * 4096 % full_range)) sequence) high
    ∙ ap (λ t. bit_or 64 (bit_or 64 (d * 4194304) t) sequence) middle
    ∙ ap (λ t. bit_or 64 t sequence) (first ∙ aligned)
    ∙ second
    ∙ ap (λ t. t + sequence) (sym aligned)

pub of_bits-id_bits :
    (now worker_id sequence : ℕ)
    → InEra now
    → worker_id < 1024
    → sequence < 4096
    → of_bits (id_bits now worker_id sequence) ≡ pos (code now worker_id sequence)
of_bits-id_bits now worker_id sequence era w q =
    ap of_bits (id_bits-code now worker_id sequence era w q) ∙ ground arith

-- A generator that has given its last identifier for the millisecond `last_stamp`.
pub record HasIssued (s : Snowflake) : Type 0 where
  pub worker : s.worker_id < 1024
  pub numbered : s.sequence < 4096
  pub era : InEra s.last_stamp

abbrev pub last_code : Snowflake → ℕ
last_code s = code s.last_stamp s.worker_id s.sequence

-- What a new identifier has to do with the generator before and after.
abbrev pub Issues : Snowflake → Option (Result KernelId × Snowflake) → Type 0
Issues s none = Unit
Issues s (some (err e, s')) = s' ≡ s
Issues s (some (ok id, s')) =
    (id ≡ pos (last_code s'))
    × HasIssued s'
    × (s'.worker_id ≡ s.worker_id)
    × (last_code s < last_code s')

pub issue-Issues :
    (now sequence : ℕ) (s : Snowflake)
    → s.worker_id < 1024
    → sequence < 4096
    → InEra now
    → last_code s < code now s.worker_id sequence
    → Issues s (some (issue now sequence s))
unfolding issue
issue-Issues now sequence s w q era later = (
  of_bits-id_bits now s.worker_id sequence era w q,
  record { worker = w; numbered = q; era = era },
  refl,
  later,
)
