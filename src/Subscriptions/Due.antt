-- ===== src/Subscriptions/Due.antt =====
-- application/subscription/billing.go: ProcessDueBilling, over the calls of the service. Logging is
-- left out.
use mall.Base.{ℕ, suc, Option, none, some, List, [], ◌∷◌}
use mall.Kernel.{Time, Result, ok, err, Error}
use mall.Subscriptions.Life.{Subscription}
use mall.Subscriptions.Billing.{SubscriptionService, BillingWorld, handle_billing_cycle}
use mall.Subscriptions.Trials.{expire_trials}

module _ {S P C : Type 0} (svc : SubscriptionService S P C)
    (find_due find_trials_ended : Time → S → Result (List Subscription)) where
  -- The loop over the due subscriptions; an error of one is logged, and the loop goes on. `clock n`
  -- are the readings of the `n`th.
  unfoldable pub bill_each :
      List Subscription → (ℕ → ℕ → Time) → BillingWorld S P C → BillingWorld S P C
  bill_each [] clock w = w
  bill_each (sub ∷ subs) clock w =
      bill_each subs (λ n. clock (suc n))
        (handle_billing_cycle svc sub.id (clock 0 0) (clock 0 1) w).1

  abbrev trials_over :
      Result (List Subscription) × BillingWorld S P C → Option Error × BillingWorld S P C
  trials_over (ok expired, w) = (none, w)
  trials_over (err e, w) = (some e, w)

  abbrev bill_listed :
      Result (List Subscription)
      → Time
      → (ℕ → ℕ → Time)
      → (ℕ → ℕ → Time)
      → BillingWorld S P C
      → Option Error × BillingWorld S P C
  bill_listed (err e) now clock trials w = (some e, w)
  bill_listed (ok due) now clock trials w =
      trials_over (expire_trials svc find_trials_ended now trials (bill_each due clock w))

  unfoldable pub process_due_billing :
      Time
      → (ℕ → ℕ → Time)
      → (ℕ → ℕ → Time)
      → BillingWorld S P C
      → Option Error × BillingWorld S P C
  process_due_billing now clock trials w = bill_listed (find_due now w.subs) now clock trials w
