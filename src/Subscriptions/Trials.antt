-- ===== src/Subscriptions/Trials.antt =====
-- domain/subscription/service.go: the end of the trials.
use mall.Base.{ℕ, suc, not, Option, none, some, List, [], ◌∷◌, if◌then◌else◌}
use mall.Kernel.{Time, Result, ok, err, Error, Outcome}
use mall.Subscriptions.Plans.{Plan}
use mall.Subscriptions.Life.{
  Subscription, trialing, status_eq, activate, expire, renew, drop_events,
}
use mall.Subscriptions.Billing.{
  SubscriptionService, BillingWorld, Charge, paid, try_charge, publish_events,
}

-- What an iteration ends with: `continue`, a subscription for the list of the expired, or a return.
pub data Step : Type 0 where
  passed : Step
  ended : Subscription → Step
  failed : Error → Step

module _ {S P C : Type 0} (svc : SubscriptionService S P C) where
  unfoldable pub closed_if_saved :
      Subscription → Option Error × S → BillingWorld S P C → Step × BillingWorld S P C
  closed_if_saved s (some e, subs) w = (failed e, record w { subs = subs })
  closed_if_saved s (none, subs) w =
      (ended (drop_events s), (publish_events svc s (record w { subs = subs })).1)

  unfoldable pub closed : Outcome Subscription → BillingWorld S P C → Step × BillingWorld S P C
  closed (s, some e) w = (passed, w)
  closed (s, none) w = closed_if_saved s (svc.sub_repo.save s w.subs) w

  -- From `sub.Expire()` on; `clock i` is the iteration's i-th reading of the clock.
  unfoldable pub close_trial :
      (ℕ → Time) → Subscription → BillingWorld S P C → Step × BillingWorld S P C
  close_trial clock s w = closed (expire (clock 3) s) w

  unfoldable pub converted_if_saved :
      (ℕ → Time) → Subscription → Option Error × S → BillingWorld S P C → Step × BillingWorld S P C
  converted_if_saved clock s (none, subs) w =
      (passed, (publish_events svc s (record w { subs = subs })).1)
  converted_if_saved clock s (some e, subs) w = close_trial clock s (record w { subs = subs })

  unfoldable pub converted :
      (ℕ → Time) → Plan → Outcome Subscription → BillingWorld S P C → Step × BillingWorld S P C
  converted clock plan (s, some e) w = close_trial clock s w
  converted clock plan (s, none) w =
      let renewed = (renew svc.add_date (some plan) (clock 1) (clock 2) s).0 in
      converted_if_saved clock renewed (svc.sub_repo.save renewed w.subs) w

  -- From the charge on.
  unfoldable pub convert_trial :
      (ℕ → Time) → Plan → Subscription → Charge → BillingWorld S P C → Step × BillingWorld S P C
  convert_trial clock plan s paid w = converted clock plan (activate (clock 0) s) w
  convert_trial clock plan s _ w = close_trial clock s w

  abbrev end_planned :
      (ℕ → Time) → Subscription → Result Plan → BillingWorld S P C → Step × BillingWorld S P C
  end_planned clock s (err e) w = (passed, w)
  end_planned clock s (ok plan) w =
      let (charge, outside) = try_charge svc.charger s plan.amount w.outside in
      convert_trial clock plan s charge (record w { outside = outside })

  -- The body of the loop.
  unfoldable pub end_trial :
      (ℕ → Time) → Subscription → BillingWorld S P C → Step × BillingWorld S P C
  end_trial clock s w =
      if not (status_eq s.status trialing)
      then (passed, w)
      else end_planned clock s (svc.plan_repo.find s.plan_id w.plans) w

  abbrev with_ended :
      Subscription
      → Result (List Subscription) × BillingWorld S P C
      → Result (List Subscription) × BillingWorld S P C
  with_ended s (ok ss, w) = (ok (s ∷ ss), w)
  with_ended s (err e, w) = (err e, w)

  abbrev go_on :
      Step × BillingWorld S P C
      → (BillingWorld S P C → Result (List Subscription) × BillingWorld S P C)
      → Result (List Subscription) × BillingWorld S P C
  go_on (failed e, w) rest = (err e, w)
  go_on (passed, w) rest = rest w
  go_on (ended s, w) rest = with_ended s (rest w)

  -- The loop; `clock i` reads the clock in the i-th iteration.
  unfoldable pub end_each :
      List Subscription
      → (ℕ → ℕ → Time)
      → ℕ
      → BillingWorld S P C
      → Result (List Subscription) × BillingWorld S P C
  end_each [] clock i w = (ok [], w)
  end_each (s ∷ ss) clock i w = go_on (end_trial (clock i) s w) (end_each ss clock (suc i))

  abbrev each_found :
      Result (List Subscription)
      → (ℕ → ℕ → Time)
      → BillingWorld S P C
      → Result (List Subscription) × BillingWorld S P C
  each_found (err e) clock w = (err e, w)
  each_found (ok ss) clock w = end_each ss clock 0 w

  -- `find_trials_ended` is the repository's `FindTrialsEnded`.
  unfoldable pub expire_trials :
      (Time → S → Result (List Subscription))
      → Time
      → (ℕ → ℕ → Time)
      → BillingWorld S P C
      → Result (List Subscription) × BillingWorld S P C
  expire_trials find_trials_ended now clock w = each_found (find_trials_ended now w.subs) clock w
