-- ===== src/Ids/Bits.antt =====
-- Go's `|` and `<<` on the 64 bits of an integer.
use native.Mathlib.Nat.{mul_left_comm}
use native.Mathlib.Omega.{pow_step}
use mall.Base.{
  ℕ, zero, suc, ◌+◌, ◌*◌, ◌^◌, ◌/◌, ◌%◌, ◌<◌, ◌≡◌, ap, ◌∙◌, arith, if◌then◌else◌, ◌==◌, full_range,
}

-- The bit that is set if one of two is.
abbrev pub or_bit : ℕ → ℕ → ℕ
or_bit a b = if (a + b) == 0 then 0 else 1

-- The lowest `w` bits of `a | b`.
unfoldable pub bit_or : ℕ → ℕ → ℕ → ℕ
bit_or zero a b = 0
bit_or (suc w) a b = or_bit (a % 2) (b % 2) + 2 * bit_or w (a / 2) (b / 2)

unfoldable pub shift_left : ℕ → ℕ → ℕ
shift_left a n = (a * 2 ^ n) % full_range

bit_or_zero : (w a : ℕ) → a < 2 ^ w → bit_or w a 0 ≡ a
unfolding bit_or
bit_or_zero zero a h = omega arith
bit_or_zero (suc w) a h = let rest = bit_or_zero w (a / 2) (omega arith) in ground (arith, rest)

pub shifted_once : (a n : ℕ) → a * 2 ^ suc n ≡ 2 * (a * 2 ^ n)
shifted_once a n = ap (λ p. a * p) (pow_step 2 n) ∙ mul_left_comm a 2 (2 ^ n)

-- Bits that stand apart are put together by adding.
pub bit_or-apart :
    (w n a b : ℕ) → b < 2 ^ n → a * 2 ^ n + b < 2 ^ w → bit_or w (a * 2 ^ n) b ≡ a * 2 ^ n + b
unfolding bit_or
bit_or-apart w zero a b h fits =
    let none_left : b ≡ 0 = omega arith in
    rw none_left (bit_or_zero w (a * 1) (omega arith) ∙ omega arith)
bit_or-apart zero (suc n) a b h fits = omega arith
bit_or-apart (suc w) (suc n) a b h fits =
    let twice = shifted_once a n in
    let rest : bit_or w (a * 2 ^ n) (b / 2) ≡ a * 2 ^ n + b / 2 =
      bit_or-apart w n a (b / 2) (omega arith) (omega (arith, twice)) in
    let half : a * 2 ^ suc n / 2 ≡ a * 2 ^ n = omega (arith, twice) in
    let even : a * 2 ^ suc n % 2 ≡ 0 = omega (arith, twice) in
    rw (half, even, rest, twice) (ground arith)
