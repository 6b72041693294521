-- ===== src/Pricing/Tests.antt =====
-- The discount theorem at a code of fifteen percent, which has run out at the second reading.
use mall.Base.{◌≡◌, refl, true, false, pos, arith, sub64, mul64}
use mall.Kernel.{new_aggregate_root, ok}
use mall.Pricing.Discount.{DiscountCode, DiscountTerms, percentage, new_discount_code, apply}
use mall.Pricing.Bounds.{Lowers, apply-Lowers}

abbrev terms : DiscountTerms
terms = record {
  discount_type = percentage;
  value = pos 15;
  min_purchase = pos 1000;
  max_usages = pos 0;
  expiry = 50;
  stackable = false;
}

abbrev spring : DiscountCode
spring = record {
  root = new_aggregate_root (pos 3) 10 11;
  code = "SPRING";
  discount_type = percentage;
  value = pos 15;
  min_purchase = pos 1000;
  max_usages = pos 0;
  used_count = pos 0;
  expiry = 50;
  is_active = true;
  stackable = false;
}

spring_made : new_discount_code (pos 3) "SPRING" terms 10 11 ≡ ok spring
unfolding new_discount_code
spring_made = refl

apply-Lowers_example : Lowers (apply (pos 1999) 40 spring) (pos 1999)
apply-Lowers_example =
    apply-Lowers (pos 3) "SPRING" terms 10 11 40 spring (pos 1999) spring_made (omega arith)
      (omega arith)

apply_tests :
    (apply (pos 1999) 40 spring ≡ pos 1700)
    × (apply (pos 999) 40 spring ≡ pos 999)
    × (apply (pos 1999) 51 spring ≡ pos 1999)
unfolding apply sub64 mul64
apply_tests = (refl, refl, refl)
