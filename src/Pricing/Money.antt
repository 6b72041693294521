-- ===== src/Pricing/Money.antt =====
-- domain/kernel/money.go.
use Prim.Native.String.{◌++◌ as concat}
use mall.Base.{
  ℕ, suc, ◌/◌, ◌%◌, ◌≡◌, refl, String, Bool, not, ◌&&◌, if◌then◌else◌, ℤ, pos, negsuc, eqb_ℤ, add64,
  sub64, mul64, is_empty, str_eq, decimal, ltb_ℤ,
}
use mall.Kernel.{Result, ok, err, foreign}

abbrev pub default_currency : String
default_currency = "USD"

pub record Money : Type 0 where
  pub amount : ℤ
  pub currency : String

unfoldable pub new_money : ℤ → String → Money
new_money amount currency = record {
  amount = amount;
  currency = if is_empty currency then default_currency else currency;
}

unfoldable pub is_zero : Money → Bool
is_zero m = eqb_ℤ m.amount (pos 0)

abbrev mismatch : Money → Money → String
mismatch m other = concat "currency mismatch: " (concat m.currency (concat " != " other.currency))

unfoldable pub add : Money → Money → Result Money
add m other =
    if not (str_eq m.currency other.currency)
    then err (foreign (mismatch m other))
    else ok (record { amount = add64 m.amount other.amount; currency = m.currency })

unfoldable pub sub : Money → Money → Result Money
sub m other =
    if not (str_eq m.currency other.currency)
    then err (foreign (mismatch m other))
    else ok (record { amount = sub64 m.amount other.amount; currency = m.currency })

unfoldable pub multiply : Money → ℤ → Money
multiply m n = record { amount = mul64 m.amount n; currency = m.currency }

-- Go's `/` and `%` on an int64 by a positive number, towards zero.
abbrev pub div_trunc : ℤ → ℕ → ℤ
div_trunc (pos n) d = pos (n / d)
div_trunc (negsuc n) d = sub64 (pos 0) (pos (suc n / d))

abbrev mod_trunc : ℤ → ℕ → ℤ
mod_trunc (pos n) d = pos (n % d)
mod_trunc (negsuc n) d = sub64 (pos 0) (pos (suc n % d))

-- `%02d`
abbrev two_digits : ℤ → String
two_digits n =
    if not (ltb_ℤ n (pos 0)) && ltb_ℤ n (pos 10) then concat "0" (decimal n) else decimal n

unfoldable pub money_text : Money → String
money_text m =
    concat (decimal (div_trunc m.amount 100))
      (concat "." (concat (two_digits (mod_trunc m.amount 100)) (concat " " m.currency)))

-- An amount below zero is printed with its sign behind the point.
money_texts :
    (money_text (record { amount = pos 105; currency = "USD" }) ≡ "1.05 USD")
    × (money_text (record { amount = negsuc 104; currency = "USD" }) ≡ "-1.-5 USD")
    × (money_text (record { amount = negsuc 4; currency = "USD" }) ≡ "0.-5 USD")
unfolding money_text decimal sub64
money_texts = (refl, refl, refl)
