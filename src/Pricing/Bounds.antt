-- ===== src/Pricing/Bounds.antt =====
-- The price that domain/discount/code.go makes.
use native.Mathlib.Nat.{mul-le-mul_left}
use mall.Base.{
  ℕ, ◌*◌, ◌/◌, ◌≤◌, String, ◌≡◌, refl, ◌∙◌, int64_of_IsInt64, true, arith, ℤ, pos, negsuc, ◌≤ℤ◌,
  ◌<ℤ◌, sub64, mul64, int64, ◌*ℤ◌, ◌-ℤ◌, Bool-cases, inl, inr,
}
use mall.Kernel.{KernelId, Time, ok}
use mall.Pricing.Money.{div_trunc}
use mall.Pricing.Discount.{
  DiscountCode, DiscountTerms, DiscountType, flat, percentage, other_type, new_discount_code,
  is_valid, apply, reduced, is_percentage,
}

-- The largest subtotal whose hundredfold is an int64.
abbrev pub largest_subtotal : ℕ
largest_subtotal = 92233720368547758

abbrev pub Lowers : ℤ → ℤ → Type 0
Lowers final subtotal = (pos 0 ≤ℤ final) × (final ≤ℤ subtotal)

mul_pos : (s v : ℕ) → pos s *ℤ pos v ≡ pos (s * v)
unfolding ◌*ℤ◌
mul_pos s v = ground arith

percent_part : (s v : ℕ) → v ≤ 100 → s ≤ largest_subtotal → mul64 (pos s) (pos v) ≡ pos (s * v)
unfolding mul64
percent_part s v small bound =
    int64_of_IsInt64 _ (rw (mul_pos s v) (omega (arith, mul-le-mul_left s small))) ∙ mul_pos s v

percent_le : (s v : ℕ) → v ≤ 100 → s * v / 100 ≤ s
percent_le s v small = omega (arith, mul-le-mul_left s small)

sub-Lowers : (s d : ℕ) → d ≤ s → s ≤ largest_subtotal → Lowers (sub64 (pos s) (pos d)) (pos s)
unfolding sub64 int64 ◌-ℤ◌
sub-Lowers s d small bound = (ground arith, ground arith)

reduced-Lowers :
    (t : DiscountType) (v s : ℤ)
    → pos 0 <ℤ v
    → (is_percentage t ≡ true → v ≤ℤ pos 100)
    → pos 0 ≤ℤ s
    → s ≤ℤ pos largest_subtotal
    → Lowers (reduced t v s) s
unfolding sub64 int64 ◌-ℤ◌
reduced-Lowers flat (pos v) (pos s) positive fair nonneg bound = ground arith
reduced-Lowers percentage (pos v) (pos s) positive fair nonneg bound =
    let small : v ≤ 100 = omega (arith, fair refl) in
    rw (percent_part s v small (omega (arith, bound)))
      (sub-Lowers s (s * v / 100) (percent_le s v small) (omega (arith, bound)))
reduced-Lowers (other_type t) v s positive fair nonneg bound = (nonneg, omega arith)
reduced-Lowers t (negsuc v) s positive fair nonneg bound = absurd (omega (arith, positive))
reduced-Lowers t v (negsuc s) positive fair nonneg bound = absurd (omega (arith, nonneg))

new_discount_code_terms :
    (id : KernelId) (code : String) (terms : DiscountTerms) (created updated : Time)
    (d : DiscountCode)
    → new_discount_code id code terms created updated ≡ ok d
    → (pos 0 <ℤ d.value) × (is_percentage d.discount_type ≡ true → d.value ≤ℤ pos 100)
unfolding new_discount_code
new_discount_code_terms id code terms created updated d made =
    (ground (arith, made), λ p. ground (arith, made, p))

-- The price that a new code makes of a subtotal is between zero and that subtotal, at any time,
-- where the subtotal is not negative and its hundredfold is an int64.
pub apply-Lowers :
    (id : KernelId) (code : String) (terms : DiscountTerms) (created updated now : Time)
    (d : DiscountCode) (subtotal : ℤ)
    → new_discount_code id code terms created updated ≡ ok d
    → pos 0 ≤ℤ subtotal
    → subtotal ≤ℤ pos largest_subtotal
    → Lowers (apply subtotal now d) subtotal
unfolding apply
apply-Lowers id code terms created updated now d subtotal made nonneg bound =
    elim (Bool-cases (is_valid subtotal now d)) [
      | inr invalid ↦ rw invalid (nonneg, omega arith)
      | inl valid ↦
          let (positive, fair) = new_discount_code_terms id code terms created updated d made in
          rw valid (reduced-Lowers d.discount_type d.value subtotal positive fair nonneg bound)
    ]

-- A discount of everything off a larger subtotal wraps around, and raises the price.
apply_wraps :
    sub64 (pos 92233720368547759) (div_trunc (mul64 (pos 92233720368547759) (pos 100)) 100)
    ≡ pos 184467440737095516
unfolding sub64 mul64
apply_wraps = refl
