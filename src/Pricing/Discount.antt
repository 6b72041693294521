-- ===== src/Pricing/Discount.antt =====
-- domain/discount/code.go and service.go. A zero expiry is none; logging is left out.
use mall.Base.{
  String, Bool, true, false, not, ◌&&◌, ltb, Option, none, some, if◌then◌else◌, ℤ, pos, leb_ℤ,
  ltb_ℤ, add64, sub64, mul64, is_empty,
}
use mall.Kernel.{
  KernelId, Time, AggregateRoot, new_aggregate_root, Result, ok, err, Error, Action, Repository,
  modify_stored, create_stored, new_domain_error, invalid_argument, not_found,
}
use mall.Pricing.Money.{div_trunc}

-- Any other text is a type that the code does not know.
pub data DiscountType : Type 0 where
  flat percentage : DiscountType
  other_type : String → DiscountType

abbrev pub is_percentage : DiscountType → Bool
is_percentage flat = false
is_percentage percentage = true
is_percentage (other_type t) = false

pub record DiscountCode : Type 0 where
  pub root : AggregateRoot (Unit {0})
  pub open root use *
  pub code : String
  pub discount_type : DiscountType
  pub value : ℤ
  pub min_purchase : ℤ
  pub max_usages : ℤ
  pub used_count : ℤ
  pub expiry : Time
  pub is_active : Bool
  pub stackable : Bool

-- The terms of a new code.
pub record DiscountTerms : Type 0 where
  pub discount_type : DiscountType
  pub value : ℤ
  pub min_purchase : ℤ
  pub max_usages : ℤ
  pub expiry : Time
  pub stackable : Bool

unfoldable pub new_discount_code :
    KernelId → String → DiscountTerms → Time → Time → Result DiscountCode
new_discount_code id code terms created updated =
    if is_empty code
    then err (new_domain_error invalid_argument "code must not be empty")
    else if leb_ℤ terms.value (pos 0)
    then err (new_domain_error invalid_argument "value must be positive")
    else if is_percentage terms.discount_type && ltb_ℤ (pos 100) terms.value
    then err (new_domain_error invalid_argument "percentage value must be <= 100")
    else ok (record {
      root = new_aggregate_root id created updated;
      code = code;
      discount_type = terms.discount_type;
      value = terms.value;
      min_purchase = terms.min_purchase;
      max_usages = terms.max_usages;
      used_count = pos 0;
      expiry = terms.expiry;
      is_active = true;
      stackable = terms.stackable;
    })

-- The zero time has no nanoseconds.
unfoldable pub is_valid : ℤ → Time → DiscountCode → Bool
is_valid subtotal now d =
    if not d.is_active
    then false
    else if ltb_ℤ (pos 0) d.max_usages && leb_ℤ d.max_usages d.used_count
    then false
    else if ltb 0 d.expiry && ltb d.expiry now
    then false
    else if ltb_ℤ subtotal d.min_purchase
    then false
    else true

abbrev pub reduced : DiscountType → ℤ → ℤ → ℤ
reduced flat value subtotal = if ltb_ℤ subtotal value then pos 0 else sub64 subtotal value
reduced percentage value subtotal = sub64 subtotal (div_trunc (mul64 subtotal value) 100)
reduced (other_type t) value subtotal = subtotal

unfoldable pub apply : ℤ → Time → DiscountCode → ℤ
unfolding is_valid
apply subtotal now d =
    if not (is_valid subtotal now d) then subtotal else reduced d.discount_type d.value subtotal

unfoldable pub use_once : DiscountCode → DiscountCode
use_once d = record d { used_count = add64 d.used_count (pos 1) }

unfoldable pub deactivate : DiscountCode → DiscountCode
deactivate d = record d { is_active = false }

pub record DiscountRepository (S : Type 0) : Type 0 where
  pub save : DiscountCode → S → Option Error × S
  pub find_by_code : String → S → Result DiscountCode
  pub increment_usage : KernelId → S → Option Error × S

-- The price, and whether the code was applied; an error comes with the subtotal and false.
pub record Applied : Type 0 where
  pub amount : ℤ
  pub was_applied : Bool
  pub error : Option Error

module _ {S : Type 0} (repo : DiscountRepository S) where
  abbrev by_code : Repository S DiscountCode String
  by_code = record { find = repo.find_by_code; save = repo.save }

  unfoldable pub create_code :
      KernelId → String → DiscountTerms → Time → Time → Action S DiscountCode
  create_code id code terms created updated =
      create_stored by_code (new_discount_code id code terms created updated)

  abbrev validity : Result DiscountCode → ℤ → Time → Option DiscountCode × Bool
  validity (err e) subtotal now = (none, false)
  validity (ok d) subtotal now = (some d, is_valid subtotal now d)

  unfoldable pub validate_code : String → ℤ → Time → S → Option DiscountCode × Bool
  validate_code code subtotal now s = validity (repo.find_by_code code s) subtotal now

  abbrev not_applied : ℤ → Option Error → Applied
  not_applied subtotal e = record { amount = subtotal; was_applied = false; error = e }

  abbrev counted : Option Error × S → ℤ → ℤ → Applied × S
  counted (some e, s) subtotal final = (not_applied subtotal (some e), s)
  counted (none, s) subtotal final =
      (record { amount = final; was_applied = true; error = none }, s)

  -- `now` is the reading of the first look at the code, `later` that of `Apply`.
  abbrev apply_found : Result DiscountCode → ℤ → Time → Time → S → Applied × S
  apply_found (err e) subtotal now later s =
      (not_applied subtotal (some (new_domain_error not_found "discount code not found")), s)
  apply_found (ok d) subtotal now later s =
      if not (is_valid subtotal now d)
      then (not_applied subtotal none, s)
      else counted (repo.increment_usage d.id s) subtotal (apply subtotal later d)

  unfoldable pub apply_code : String → ℤ → Time → Time → S → Applied × S
  apply_code code subtotal now later s = apply_found (repo.find_by_code code s) subtotal now later s

  unfoldable pub deactivate_code : String → Action S DiscountCode
  deactivate_code code = modify_stored by_code code (λ d. (deactivate d, none))
