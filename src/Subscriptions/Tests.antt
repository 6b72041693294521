-- ===== src/Subscriptions/Tests.antt =====
-- The subscription theorems at an active subscription to a monthly plan for 900.
use mall.Base.{
  ℕ, zero, suc, ◌+◌, ◌*◌, ◌≡◌, refl, inr, Option, none, some, List, [], ◌∷◌, ℤ, pos, ◌+ℤ◌,
}
use mall.Kernel.{
  KernelId, Error, ok, err, new_domain_error, internal, new_aggregate_root, memory, Repository,
}
use mall.Subscriptions.Plans
use mall.Subscriptions.Plans.{Plan}
use mall.Subscriptions.Life.{
  Subscription, SubscriptionStatus, AddDate, active, past_due, expired, renew, drop_events,
}
use mall.Subscriptions.Billing.{SubscriptionService, BillingWorld, BillingCharger, refused, billed}
use mall.Subscriptions.Cycle.{EndsWith, handle_billing_cycle-paid, handle_billing_cycle-refused}

-- A calendar of thirty days to the month, in seconds.
abbrev add_days : AddDate
add_days years (pos months) days now = now + months * 2592000
add_days years months days now = now

abbrev plan : Plan
plan = record {
  entity = record { id = pos 3; created_at = 1; updated_at = 1 };
  name = "Tea";
  description = "";
  amount = pos 900;
  interval = "month";
  interval_count = pos 1;
  trial_days = pos 0;
  features = [];
  status = Plans.active;
}

abbrev sub : Subscription
sub = record {
  root = new_aggregate_root (pos 5) 10 10;
  user_id = pos 2;
  plan_id = pos 3;
  status = active;
  current_period_start = 10;
  current_period_end = 20;
  trial_ends_at = none;
  cancelled_at = none;
  payment_token = "tok";
}

abbrev sub_in : SubscriptionStatus → Subscription
sub_in st = record sub { status = st }

-- What was charged in all.
abbrev take : BillingCharger ℤ
take id user amount token total = (none, total +ℤ amount)

abbrev declined : Error
declined = new_domain_error internal "declined"

abbrev decline : BillingCharger ℤ
decline id user amount token total = (some declined, total)

abbrev subs : Repository (List Subscription) Subscription KernelId
subs = memory (λ s. s.id) drop_events

abbrev svc : BillingCharger ℤ → SubscriptionService (List Subscription) (List Plan) ℤ
svc charge = record {
  plan_repo = memory (λ p. p.id) (λ p. p);
  sub_repo = subs;
  charger = some charge;
  add_date = add_days;
}

abbrev world : Subscription → BillingWorld (List Subscription) (List Plan) ℤ
world s = record { subs = s ∷ []; plans = plan ∷ []; outside = pos 0; published = [] }

found_sub :
    (charge : BillingCharger ℤ) (st : SubscriptionStatus)
    → (svc charge).sub_repo.find (pos 5) (world (sub_in st)).subs ≡ ok (sub_in st)
unfolding memory
found_sub charge st = refl

found_plan :
    (charge : BillingCharger ℤ) (st : SubscriptionStatus)
    → (svc charge).plan_repo.find (pos 3) (world (sub_in st)).plans ≡ ok plan
unfolding memory
found_plan charge st = refl

saved : (s : Subscription) (ss : List Subscription) → (subs.save s ss).0 ≡ none
unfolding memory
saved s ss = refl

handle_billing_cycle-paid_example :
    let s = (renew add_days (some plan) 20 21 (sub_in past_due)).0 in
    EndsWith (svc take) (pos 5) 20 21 (world (sub_in past_due)) (pos 0 +ℤ pos 900) s
    × (s.status ≡ past_due)
    × (s.current_period_start ≡ 20)
handle_billing_cycle-paid_example =
    handle_billing_cycle-paid (svc take) (pos 5) 20 21 (world (sub_in past_due)) (sub_in past_due)
      plan take (pos 0 +ℤ pos 900) (found_sub take past_due) (found_plan take past_due) refl refl
      refl (inr refl) (saved _ _)

handle_billing_cycle-refused_example :
    let s = (billed (svc decline) (refused declined) plan 20 21 (sub_in past_due)).0 in
    EndsWith (svc decline) (pos 5) 20 21 (world (sub_in past_due)) (pos 0) s
    × (past_due ≡ active → s.status ≡ past_due)
    × (past_due ≡ past_due → s.status ≡ expired)
handle_billing_cycle-refused_example =
    handle_billing_cycle-refused (svc decline) (pos 5) 20 21 (world (sub_in past_due))
      (sub_in past_due) plan decline (pos 0) (found_sub decline past_due)
      (found_plan decline past_due) refl refl declined refl (inr refl) (saved _ _)

-- A storage of the number of saves, which refuses the first.
abbrev refuse_first : Subscription → ℕ → Option Error × ℕ
refuse_first s zero = (some declined, 1)
refuse_first s n = (none, suc n)

abbrev flaky : SubscriptionService ℕ (List Plan) ℤ
flaky = record {
  plan_repo = memory (λ p. p.id) (λ p. p);
  sub_repo = record { find = λ k n. err declined; save = refuse_first };
  charger = some take;
  add_date = add_days;
}

abbrev paid_world : BillingWorld ℕ (List Plan) ℤ
paid_world = record { subs = 0; plans = plan ∷ []; outside = pos 900; published = [] }
