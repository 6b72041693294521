-- ===== src/Subscriptions/Service.antt =====
-- domain/subscription/service.go: the plans, and the changes of a subscription that ask for no
-- charge. Logging, tracing and the methods that only read are left out.
use mall.Base.{
  String, ◌||◌, Option, none, some, List, if◌then◌else◌, ℤ, pos, leb_ℤ, ltb_ℤ, is_empty, str_eq,
}
use mall.Kernel.{
  KernelId, Time, Result, ok, err, Outcome, Action, modify_stored, create_stored, Repository,
}
use mall.Subscriptions.Plans.{Plan, new_plan, deactivate}
use mall.Subscriptions.Plans
use mall.Subscriptions.Life
use mall.Subscriptions.Life.{Subscription, AddDate, new_subscription}
use mall.Subscriptions.Billing.{SubscriptionService, BillingWorld, store_and_publish}

-- The changes that `UpdatePlan` is given: an argument that is empty, not positive or, for the trial
-- days, negative, or a nil list, changes nothing.
pub record PlanUpdate : Type 0 where
  pub name : String
  pub description : String
  pub amount : ℤ
  pub interval : String
  pub interval_count : ℤ
  pub trial_days : ℤ
  pub features : Option (List String)

abbrev or_else : {A : Type 0} → Option A → A → A
or_else none a = a
or_else (some b) a = b

unfoldable pub updated : PlanUpdate → Plan → Plan
updated u p = record p {
  name = if is_empty u.name then p.name else u.name;
  description = if is_empty u.description then p.description else u.description;
  amount = if ltb_ℤ (pos 0) u.amount then u.amount else p.amount;
  interval =
      if str_eq u.interval "month" || str_eq u.interval "year" then u.interval else p.interval;
  interval_count = if ltb_ℤ (pos 0) u.interval_count then u.interval_count else p.interval_count;
  trial_days = if leb_ℤ (pos 0) u.trial_days then u.trial_days else p.trial_days;
  features = or_else u.features p.features;
}

module _ {P : Type 0} (repo : Repository P Plan KernelId) where
  unfoldable pub create_plan :
      KernelId → String → String → ℤ → String → ℤ → ℤ → List String → Time → Time → Action P Plan
  create_plan id name description amount interval count days features created updated_at =
      create_stored repo
        (new_plan id name description amount interval count days features created updated_at)

  unfoldable pub update_plan : KernelId → PlanUpdate → Action P Plan
  update_plan id u = modify_stored repo id (λ p. (updated u p, none))

  unfoldable pub deactivate_plan : KernelId → Time → Action P Plan
  deactivate_plan id now = modify_stored repo id (deactivate now)

  unfoldable pub activate_plan : KernelId → Time → Action P Plan
  activate_plan id now = modify_stored repo id (Plans.activate now)

module _ {S P C : Type 0} (svc : SubscriptionService S P C) where
  -- Find, change, save, publish.
  abbrev change_found :
      (Subscription → Outcome Subscription)
      → Result Subscription
      → Action (BillingWorld S P C) Subscription
  change_found method (err e) w = (err e, w)
  change_found method (ok s) w = store_and_publish svc (method s) w

  unfoldable pub change_sub :
      KernelId → (Subscription → Outcome Subscription) → Action (BillingWorld S P C) Subscription
  change_sub id method w = change_found method (svc.sub_repo.find id w.subs) w

  unfoldable pub activate_subscription : KernelId → Time → Action (BillingWorld S P C) Subscription
  activate_subscription id now = change_sub id (Life.activate now)

  unfoldable pub cancel_subscription :
      KernelId → Time → Time → Action (BillingWorld S P C) Subscription
  cancel_subscription id now touched = change_sub id (Life.cancel now touched)

  abbrev with_plan :
      Result Plan
      → (Plan → Action (BillingWorld S P C) Subscription)
      → Action (BillingWorld S P C) Subscription
  with_plan (err e) f w = (err e, w)
  with_plan (ok p) f w = f p w

  abbrev with_sub :
      Result Subscription
      → (Subscription → Action (BillingWorld S P C) Subscription)
      → Action (BillingWorld S P C) Subscription
  with_sub (err e) f w = (err e, w)
  with_sub (ok s) f w = f s w

  unfoldable pub change_plan : KernelId → KernelId → Time → Action (BillingWorld S P C) Subscription
  change_plan id new_plan_id now w =
      with_sub (svc.sub_repo.find id w.subs)
        (λ s.
          with_plan (svc.plan_repo.find new_plan_id w.plans)
            (λ p. store_and_publish svc (Life.change_plan (some p) now s)))
        w

  abbrev with_token : String → Time → Subscription → Outcome Subscription
  with_token token now s =
      if is_empty token then (s, none) else Life.attach_payment_token token now s

  unfoldable pub subscribe_with_token :
      KernelId
      → KernelId
      → KernelId
      → String
      → Time
      → Time
      → Time
      → Time
      → Action (BillingWorld S P C) Subscription
  subscribe_with_token id user_id plan_id token now created updated_at touched w =
      with_plan (svc.plan_repo.find plan_id w.plans)
        (λ p.
          with_sub
            (new_subscription svc.add_date id user_id plan_id (some p) now created updated_at)
            (λ s. store_and_publish svc (with_token token touched s)))
        w

  -- The one change that is not published.
  unfoldable pub attach_payment_token : KernelId → String → Time → Action S Subscription
  attach_payment_token id token now =
      modify_stored svc.sub_repo id (Life.attach_payment_token token now)
