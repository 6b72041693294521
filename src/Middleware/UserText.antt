-- ===== src/Middleware/UserText.antt =====
-- interfaces/middleware/auth.go: parseInt64, which reads the user of a token, over the characters
-- of the text.
use Prim.Native.String.{[] as no_text, ◌∷◌ as before}
use Prim.Native.Char.{Char, code}
use native.Mathlib.Omega.{pow_step}
use mall.Base.{
  ℕ, zero, suc, String, ◌≡◌, refl, Bool, Bool-cases, inl, inr, true, false, ◌&&◌, ◌||◌, ◌==◌, digit,
  code-digit, digits_before, decimal, int64, half_range, IsInt64, ◌+◌, ◌/◌, ◌%◌, ◌≤◌, ◌<◌, ◌^◌, ◌*◌,
  arith, ap, ◌∙◌, ◌+ℤ◌, ◌-ℤ◌, ◌*ℤ◌, int64_of_IsInt64, Option, none, some, ◌-◌, ltb, if◌then◌else◌,
  ℤ, pos, negsuc, add64, mul64, sub64,
}

-- What the loop has after the character at position `i`: the number and the sign, or `none` where
-- it returns at once.
abbrev after_char : Char → ℕ → ℤ → Bool → Option (ℤ × Bool)
after_char c i n neg =
    if code c == 45 && i == 0
    then some (n, true)
    else if ltb (code c) 48 || ltb 57 (code c)
    then none
    else some (add64 (mul64 n (pos 10)) (pos (code c - 48)), neg)

-- The loop from position `i` on, and the end of the function.
unfoldable pub parse_from : String → ℕ → ℤ → Bool → ℤ × Bool
parse_from no_text i n neg = (if neg then sub64 (pos 0) n else n, true)
parse_from (before c s) i n neg = elim (after_char c i n neg) [
  | none ↦ (pos 0, false)
  | some (n', neg') ↦ parse_from s (suc i) n' neg'
]

unfoldable pub parse_int64 : String → ℤ × Bool
unfolding parse_from
parse_int64 s = parse_from s 0 (pos 0) false

parse_tests :
    (parse_int64 "-42" ≡ (negsuc 41, true))
    × (parse_int64 "4-2" ≡ (pos 0, false))
    × (parse_int64 "" ≡ (pos 0, true))
    × (parse_int64 "-" ≡ (pos 0, true))
unfolding parse_int64 add64 mul64 sub64
parse_tests = (refl, refl, refl, refl)

parse_digit :
    (n i : ℕ) (v : ℤ) (s : String) (neg : Bool)
    → parse_from (before (digit n) s) i v neg
      ≡ parse_from s (suc i) (add64 (mul64 v (pos 10)) (pos (n % 10))) neg
unfolding parse_from
parse_digit n i v s neg = ground (arith, code-digit n)

int64_mul : (m : ℕ) → m * 10 < half_range → mul64 (int64 (pos m)) (pos 10) ≡ pos (m * 10)
unfolding mul64 ◌*ℤ◌ int64
int64_mul m small = ground arith

int64_add : (a b : ℕ) → add64 (pos a) (pos b) ≡ int64 (pos (a + b))
unfolding add64 ◌+ℤ◌ int64
int64_add a b = ground arith

-- One more digit.
next_digit :
    (n : ℕ)
    → n ≤ half_range
    → add64 (mul64 (int64 (pos (n / 10))) (pos 10)) (pos (n % 10)) ≡ int64 (pos n)
next_digit n small =
    rw (int64_mul (n / 10) (omega arith), int64_add (n / 10 * 10) (n % 10))
      (ap (λ k. int64 (pos k)) (omega arith))

first_digit : (n : ℕ) → n < 10 → add64 (mul64 (pos 0) (pos 10)) (pos (n % 10)) ≡ int64 (pos n)
unfolding mul64 add64 ◌*ℤ◌ ◌+ℤ◌ int64
first_digit n small = ground arith

parse_one :
    (n i : ℕ) (s : String) (neg : Bool)
    → ltb n 10 ≡ true
    → parse_from (before (digit n) s) i (pos 0) neg ≡ parse_from s (suc i) (int64 (pos n)) neg
parse_one n i s neg one =
    parse_digit n i (pos 0) s neg
    ∙ ap (λ v. parse_from s (suc i) v neg) (first_digit n (ground (arith, one)))

-- The digits of a number are read as that number, from wherever they stand.
parse_digits :
    (f n i : ℕ) (s : String) (neg : Bool)
    → n ≤ half_range
    → n < 10 ^ suc f
    → (j : ℕ) × (parse_from (digits_before (suc f) n s) i (pos 0) neg
        ≡ parse_from s j (int64 (pos n)) neg)
unfolding digits_before
parse_digits zero n i s neg small fits =
    let one : ltb n 10 ≡ true = ground (arith, fits, pow_step 10 0) in
    (suc i, rw one (parse_one n i s neg one))
parse_digits (suc f) n i s neg small fits = elim (Bool-cases (ltb n 10)) [
  | inl one ↦ (suc i, rw one (parse_one n i s neg one))
  | inr more ↦
      let fits' : n / 10 < 10 ^ suc f = omega (arith, fits, pow_step 10 (suc f)) in
      let (j, rest) = parse_digits f (n / 10) i (before (digit n) s) neg (omega arith) fits' in
      (
        suc j,
        rw more (
            rest
            ∙ parse_digit n j (int64 (pos (n / 10))) s neg
            ∙ ap (λ v. parse_from s (suc j) v neg) (next_digit n small)),
      )
]

negated : (n : ℕ) → n < half_range → sub64 (pos 0) (int64 (pos (suc n))) ≡ negsuc n
unfolding sub64 ◌-ℤ◌ int64
negated n small = ground arith

-- The text that `%d` prints of an int64 is read as that int64, the smallest one, whose digits do
-- not fit, included.
pub parse_int64-decimal : (id : ℤ) → IsInt64 id → parse_int64 (decimal id) ≡ (id, true)
unfolding parse_int64 decimal
parse_int64-decimal (pos n) small =
    let (j, read) = parse_digits 19 n 0 no_text false (omega arith) (omega arith) in
    read ∙ ap (λ v. (v, true)) (int64_of_IsInt64 (pos n) small)
parse_int64-decimal (negsuc n) small =
    let (j, read) = parse_digits 19 (suc n) 1 no_text true (omega arith) (omega arith) in
    read ∙ ap (λ v. (v, true)) (negated n small)
