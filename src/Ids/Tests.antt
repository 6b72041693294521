-- ===== src/Ids/Tests.antt =====
-- The identifier theorems at a generator whose millisecond has run out of sequence numbers.
use mall.Base.{ℕ, zero, suc, ◌≡◌, refl, some, [], ◌∷◌, arith, pos, negsuc, ◌-ℤ◌}
use mall.Kernel.{KernelId, Result, ok}
use mall.Ids.Bits.{bit_or, shift_left}
use mall.Ids.Snowflake.{Snowflake, new_snowflake, next_id, id_bits}
use mall.Ids.Order.{HasIssued, code}
use mall.Ids.Sequence.{AllInEra, next_id-returns}
use mall.Ids.Increase.{ids_of, IsIncreasing, ids_of-IsIncreasing}

-- The readings: one that is used up, the same again, and the next.
abbrev ticks : ℕ → ℕ
ticks zero = 1700000000005
ticks (suc zero) = 1700000000005
ticks (suc (suc n)) = 1700000000006

ticks-AllInEra : AllInEra ticks
ticks-AllInEra zero = omega arith
ticks-AllInEra (suc zero) = omega arith
ticks-AllInEra (suc (suc n)) = omega arith

abbrev used_up : Snowflake
used_up = record { worker_id = 3; sequence = 4095; last_stamp = 1700000000005 }

abbrev neighbour : Snowflake
neighbour = record used_up { worker_id = 4 }

used_up-HasIssued : HasIssued used_up
used_up-HasIssued = omega arith

neighbour-HasIssued : HasIssued neighbour
neighbour-HasIssued = omega arith

new_three : new_snowflake (pos 3) ≡ ok (record { worker_id = 3; sequence = 0; last_stamp = 0 })
unfolding new_snowflake
new_three = refl

fixed_bits : id_bits 1700000000006 3 0 ≡ code 1700000000006 3 0
unfolding id_bits bit_or shift_left ◌-ℤ◌
fixed_bits = refl

ids_of-IsIncreasing_example :
    IsIncreasing
      (negsuc 0)
      (ids_of 5 (ticks ∷ ticks ∷ []) (record { worker_id = 3; sequence = 0; last_stamp = 0 }))
ids_of-IsIncreasing_example =
    ids_of-IsIncreasing 5 (pos 3) (record { worker_id = 3; sequence = 0; last_stamp = 0 })
      (ticks ∷ ticks ∷ []) new_three (ticks-AllInEra, (ticks-AllInEra, tt))

next_id-returns_example : (end : Result KernelId × Snowflake) × (next_id 5 ticks used_up ≡ some end)
next_id-returns_example = next_id-returns 5 ticks used_up 1 (omega arith) (omega arith)

abbrev after : Snowflake → Snowflake
after s = record { worker_id = s.worker_id; sequence = 0; last_stamp = 1700000000006 }
