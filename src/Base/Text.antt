-- ===== src/Base/Text.antt =====
-- Go's decimal texts of integers: what `%d` prints.
use Prim.Native.Nat.{ℕ, zero, suc, ◌+◌, ◌/◌, ◌%◌, ◌<◌}
use Prim.Native.String.{String, [] as no_text, ◌∷◌ as before}
use Prim.Native.Char.{Char, char, code}
use mathlib.Core.Path.{◌≡◌, refl}
use mathlib.Core.Bool.{Bool, true, not}
use mathlib.Core.Option.{Option, none, some}
use mathlib.Core.List.{List, [], ◌∷◌}
use native.Mathlib.Omega.{arith}
use mall.Base.Logic.{ltb, ◌==◌, is_none, if◌then◌else◌}
use mall.Base.Int.{ℤ, pos, negsuc}
use mall.Base.Seq.{length}

abbrev minus_sign : Char
minus_sign = char 45 tt

abbrev ten_digits : List Char
ten_digits =
    char 48 tt
    ∷ char 49 tt
    ∷ char 50 tt
    ∷ char 51 tt
    ∷ char 52 tt
    ∷ char 53 tt
    ∷ char 54 tt
    ∷ char 55 tt
    ∷ char 56 tt
    ∷ char 57 tt
    ∷ []

abbrev nth : List Char → ℕ → Char
nth [] n = minus_sign
nth (c ∷ cs) zero = c
nth (c ∷ cs) (suc n) = nth cs n

-- The last digit of a number.
unfoldable pub digit : ℕ → Char
digit n = nth ten_digits (n % 10)

abbrev Counts : ℕ → List Char → Type 0
Counts n [] = Unit
Counts n (c ∷ cs) = (code c ≡ n) × Counts (suc n) cs

code-nth : (cs : List Char) (n i : ℕ) → Counts n cs → i < length cs → code (nth cs i) ≡ n + i
code-nth [] n i h small = absurd (omega arith)
code-nth (c ∷ cs) n zero h small = omega (arith, h.0)
code-nth (c ∷ cs) n (suc i) h small = omega (arith, code-nth cs (suc n) i h.1)

pub code-digit : (n : ℕ) → code (digit n) ≡ 48 + n % 10
unfolding digit
code-digit n =
    code-nth ten_digits 48 (n % 10)
      (refl, (refl, (refl, (refl, (refl, (refl, (refl, (refl, (refl, (refl, tt))))))))))
      (omega arith)

-- The digits of a number in front of a text; a number below 10 ^ f has at most f of them.
unfoldable pub digits_before : ℕ → ℕ → String → String
digits_before zero n rest = rest
digits_before (suc f) n rest =
    let more = digits_before f (n / 10) (before (digit n) rest) in
    if ltb n 10 then before (digit n) rest else more

-- Twenty digits are enough for an int64.
unfoldable pub decimal : ℤ → String
unfolding digits_before digit
decimal (pos n) = digits_before 20 n no_text
decimal (negsuc n) = before minus_sign (digits_before 20 (suc n) no_text)

decimal_tests :
    (decimal (pos 0) ≡ "0") × (decimal (pos 907) ≡ "907") × (decimal (negsuc 41) ≡ "-42")
unfolding decimal
decimal_tests = (refl, refl, refl)

-- `strings.TrimPrefix` where `strings.HasPrefix` holds; `none` where it does not.
unfoldable pub after_prefix : String → String → Option String
after_prefix no_text s = some s
after_prefix (before c p) no_text = none
after_prefix (before c p) (before d s) =
    let rest = after_prefix p s in if code c == code d then rest else none

-- `strings.HasPrefix`, the prefix first.
abbrev pub begins_with : String → String → Bool
begins_with p s = not (is_none (after_prefix p s))

-- `strings.Contains`
unfoldable pub contains_text : String → String → Bool
contains_text no_text p = begins_with p no_text
contains_text (before c s) p =
    let later = contains_text s p in if begins_with p (before c s) then true else later
