-- ===== src/Subscriptions/Plans.antt =====
-- domain/subscription/subscription.go: the plan. A method takes the clock reading that it makes.
use mall.Base.{
  ℕ, String, Bool, not, ◌&&◌, none, List, if◌then◌else◌, ℤ, pos, leb_ℤ, ltb_ℤ, is_empty, str_eq,
  ◌==◌,
}
use mall.Kernel.{
  KernelId, Time, Entity, new_entity, Result, ok, err, Outcome, invalid, new_domain_error,
  invalid_argument,
}

pub data PlanStatus : Type 0 where
  active inactive : PlanStatus

abbrev plan_number : PlanStatus → ℕ
plan_number active = 0
plan_number inactive = 1

abbrev pub plan_status_eq : PlanStatus → PlanStatus → Bool
plan_status_eq a b = plan_number a == plan_number b

pub record Plan : Type 0 where
  pub entity : Entity
  pub open entity use *
  pub name : String
  pub description : String
  pub amount : ℤ
  pub interval : String
  pub interval_count : ℤ
  pub trial_days : ℤ
  pub features : List String
  pub status : PlanStatus

-- A nil list of features is the empty one.
unfoldable pub new_plan :
    KernelId → String → String → ℤ → String → ℤ → ℤ → List String → Time → Time → Result Plan
new_plan id name description amount interval interval_count trial_days features created updated =
    if leb_ℤ id (pos 0)
    then err (new_domain_error invalid_argument "plan id must be positive")
    else if is_empty name
    then err (new_domain_error invalid_argument "plan name is required")
    else if leb_ℤ amount (pos 0)
    then err (new_domain_error invalid_argument "plan amount must be positive")
    else if not (str_eq interval "month") && not (str_eq interval "year")
    then err (new_domain_error invalid_argument "interval must be month or year")
    else if leb_ℤ interval_count (pos 0)
    then err (new_domain_error invalid_argument "interval count must be positive")
    else if ltb_ℤ trial_days (pos 0)
    then err (new_domain_error invalid_argument "trial days must not be negative")
    else ok (record {
      entity = new_entity id created updated;
      name = name;
      description = description;
      amount = amount;
      interval = interval;
      interval_count = interval_count;
      trial_days = trial_days;
      features = features;
      status = active;
    })

abbrev updated_at_now : Time → Plan → Plan
updated_at_now now p = record p { entity = record p.entity { updated_at = now } }

unfoldable pub deactivate : Time → Plan → Outcome Plan
deactivate now p =
    if not (plan_status_eq p.status active)
    then (p, invalid "plan is not active")
    else (updated_at_now now (record p { status = inactive }), none)

unfoldable pub activate : Time → Plan → Outcome Plan
activate now p =
    if not (plan_status_eq p.status inactive)
    then (p, invalid "plan is not inactive")
    else (updated_at_now now (record p { status = active }), none)
