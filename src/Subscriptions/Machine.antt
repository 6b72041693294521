-- ===== src/Subscriptions/Machine.antt =====
-- The life of a subscription under all its methods.
use mall.Base.{String, Option, none, some, arith}
use mall.Kernel.{Time, Outcome}
use mall.Subscriptions.Plans.{Plan}
use mall.Subscriptions.Life.{
  SubscriptionStatus, pending, trialing, active, past_due, cancelled, expired, Subscription,
  AddDate, activate, cancel, expire, fail_payment, change_plan, attach_payment_token, renew,
}

pub data SubscriptionCall : Type 0 where
  activates expires fails : Time → SubscriptionCall
  cancels : Time → Time → SubscriptionCall
  changes_plan : Option Plan → Time → SubscriptionCall
  attaches : String → Time → SubscriptionCall
  renews : Option Plan → Time → Time → SubscriptionCall

unfoldable pub perform_sub : AddDate → SubscriptionCall → Subscription → Outcome Subscription
perform_sub add_date (activates now) s = activate now s
perform_sub add_date (expires now) s = expire now s
perform_sub add_date (fails now) s = fail_payment now s
perform_sub add_date (cancels now t) s = cancel now t s
perform_sub add_date (changes_plan plan now) s = change_plan plan now s
perform_sub add_date (attaches token now) s = attach_payment_token token now s
perform_sub add_date (renews plan now t) s = renew add_date plan now t s

-- The edges of the state diagram.
infix 40 ◌⟶◌
pub data ◌⟶◌ : SubscriptionStatus → SubscriptionStatus → Type 0 where
  stay : {s : SubscriptionStatus} → s ⟶ s
  start : pending ⟶ active
  convert : trialing ⟶ active
  recover : past_due ⟶ active
  miss : active ⟶ past_due
  end_trial : trialing ⟶ expired
  end_active : active ⟶ expired
  end_past_due : past_due ⟶ expired
  stop_pending : pending ⟶ cancelled
  stop_trialing : trialing ⟶ cancelled
  stop_active : active ⟶ cancelled
  stop_past_due : past_due ⟶ cancelled

ruleset edges = (
  stay, start, convert, recover, miss, end_trial, end_active, end_past_due, stop_pending,
  stop_trialing, stop_active, stop_past_due,
)

-- Every method of a subscription, on every branch, keeps the status or follows an edge of the
-- diagram; none leads out of a subscription that is cancelled or expired.
pub perform_sub-⟶ :
    (add_date : AddDate) (c : SubscriptionCall) (s : Subscription)
    → s.status ⟶ (perform_sub add_date c s).0.status
unfolding perform_sub activate cancel expire fail_payment change_plan attach_payment_token renew
perform_sub-⟶ add_date (activates now) s = grind (arith, edges)
perform_sub-⟶ add_date (changes_plan none now) s = grind (arith, edges)
perform_sub-⟶ add_date (changes_plan (some p) now) s = grind (arith, edges)
perform_sub-⟶ add_date (renews none now t) s = grind (arith, edges)
perform_sub-⟶ add_date (renews (some p) now t) s = grind (arith, edges)
perform_sub-⟶ add_date c s = grind (arith, edges)
