-- ===== src/Subscriptions/Billing.antt =====
-- domain/subscription/service.go: the billing of a subscription, over the repositories and a
-- charger outside the sources. Logging and tracing are left out.
use mall.Base.{String, Option, none, some, List, [], ◌∷◌, ◌++◌, if◌then◌else◌, ℤ, is_empty}
use mall.Kernel.{KernelId, Time, Result, ok, err, Error, Outcome, Action, Repository}
use mall.Subscriptions.Plans.{Plan}
use mall.Subscriptions.Life.{
  AddDate, Subscription, past_due, status_eq, expire, fail_payment, renew, drop_events,
}

-- `BillingCharger.Charge`, which changes what is outside.
abbrev pub BillingCharger : Type 0 → Type 0
BillingCharger C = KernelId → KernelId → ℤ → String → C → Option Error × C

pub record SubscriptionService (S P C : Type 0) : Type 0 where
  pub plan_repo : Repository P Plan KernelId
  pub sub_repo : Repository S Subscription KernelId
  pub charger : Option (BillingCharger C)
  pub add_date : AddDate

pub record BillingWorld (S P C : Type 0) : Type 0 where
  pub subs : S
  pub plans : P
  pub outside : C
  pub published : List Subscription

-- What became of the charge: none was made, or it was made with an error or without.
pub data Charge : Type 0 where
  not_asked paid : Charge
  refused : Error → Charge

abbrev pub charge_from : {C : Type 0} → Option Error × C → Charge × C
charge_from (none, c) = (paid, c)
charge_from (some e, c) = (refused e, c)

unfoldable pub try_charge :
    {C : Type 0} → Option (BillingCharger C) → Subscription → ℤ → C → Charge × C
try_charge none sub amount c = (not_asked, c)
try_charge (some charge) sub amount c =
    if is_empty sub.payment_token
    then (not_asked, c)
    else charge_from (charge sub.id sub.user_id amount sub.payment_token c)

module _ {S P C : Type 0} (svc : SubscriptionService S P C) where
  -- `publishEvents` publishes the subscription once, whatever its events, and drops them.
  unfoldable pub publish_events : Subscription → Action (BillingWorld S P C) Subscription
  publish_events sub w = (ok (drop_events sub), record w { published = w.published ++ (sub ∷ []) })

  abbrev published_if_saved :
      Subscription → Option Error × S → Action (BillingWorld S P C) Subscription
  published_if_saved sub (none, subs) w = publish_events sub (record w { subs = subs })
  published_if_saved sub (some e, subs) w = (err e, record w { subs = subs })

  -- The end of a change: its error, or the save and what is published.
  unfoldable pub store_and_publish : Outcome Subscription → Action (BillingWorld S P C) Subscription
  store_and_publish (sub, some e) w = (err e, w)
  store_and_publish (sub, none) w = published_if_saved sub (svc.sub_repo.save sub w.subs) w

  -- What `HandleBillingCycle` makes of the charge; `now` and `touched` are its clock readings.
  unfoldable pub billed : Charge → Plan → Time → Time → Subscription → Outcome Subscription
  billed (refused e) plan now touched sub =
      if status_eq sub.status past_due then expire touched sub else fail_payment touched sub
  billed _ plan now touched sub = renew svc.add_date (some plan) now touched sub

  -- From the finding of the plan on.
  unfoldable pub bill : Subscription → Plan → Time → Time → Action (BillingWorld S P C) Subscription
  bill sub plan now touched w =
      let (charge, outside) = try_charge svc.charger sub plan.amount w.outside in
      store_and_publish (billed charge plan now touched sub) (record w { outside = outside })

  abbrev bill_found :
      Subscription → Result Plan → Time → Time → Action (BillingWorld S P C) Subscription
  bill_found sub (err e) now touched w = (err e, w)
  bill_found sub (ok plan) now touched w = bill sub plan now touched w

  abbrev bill_sub : Result Subscription → Time → Time → Action (BillingWorld S P C) Subscription
  bill_sub (err e) now touched w = (err e, w)
  bill_sub (ok sub) now touched w =
      bill_found sub (svc.plan_repo.find sub.plan_id w.plans) now touched w

  unfoldable pub handle_billing_cycle :
      KernelId → Time → Time → Action (BillingWorld S P C) Subscription
  handle_billing_cycle sub_id now touched w =
      bill_sub (svc.sub_repo.find sub_id w.subs) now touched w
