-- ===== src/Subscriptions/Life.antt =====
-- domain/subscription/subscription.go and events.go: a subscription and its methods. A method takes
-- the clock readings that it makes, in their order.
use Prim.Native.String.{◌++◌ as concat}
use mall.Base.{
  ℕ, String, Bool, not, ◌&&◌, ◌||◌, Option, none, some, if◌then◌else◌, ℤ, pos, leb_ℤ, ltb_ℤ,
  is_empty, str_eq, ◌==◌,
}
use mall.Kernel.{
  KernelId, Time, AggregateRoot, new_aggregate_root, add_event, clear_events, touch_root, Result,
  ok, err, Outcome, invalid, new_domain_error, invalid_argument,
}
use mall.Subscriptions.Plans.{Plan, plan_status_eq}
use mall.Subscriptions.Plans

pub data SubscriptionStatus : Type 0 where
  pending trialing active past_due cancelled expired : SubscriptionStatus

abbrev pub status_text : SubscriptionStatus → String
status_text pending = "pending"
status_text trialing = "trialing"
status_text active = "active"
status_text past_due = "past_due"
status_text cancelled = "cancelled"
status_text expired = "expired"

abbrev status_number : SubscriptionStatus → ℕ
status_number pending = 0
status_number trialing = 1
status_number active = 2
status_number past_due = 3
status_number cancelled = 4
status_number expired = 5

abbrev pub status_eq : SubscriptionStatus → SubscriptionStatus → Bool
status_eq a b = status_number a == status_number b

pub data SubscriptionEvent : Type 0 where
  subscription_created : KernelId → KernelId → KernelId → SubscriptionEvent
  subscription_activated : KernelId → KernelId → KernelId → SubscriptionStatus → SubscriptionEvent
  subscription_cancelled : KernelId → KernelId → Time → SubscriptionEvent
  subscription_expired subscription_payment_failed : KernelId → KernelId → SubscriptionEvent
  subscription_plan_changed : KernelId → KernelId → KernelId → KernelId → SubscriptionEvent

-- `AddDate` of package time, of the years, months and days.
abbrev pub AddDate : Type 0
AddDate = ℤ → ℤ → ℤ → Time → Time

pub record Subscription : Type 0 where
  pub root : AggregateRoot SubscriptionEvent
  pub open root use *
  pub user_id : KernelId
  pub plan_id : KernelId
  pub status : SubscriptionStatus
  pub current_period_start : Time
  pub current_period_end : Time
  pub trial_ends_at : Option Time
  pub cancelled_at : Option Time
  pub payment_token : String

abbrev pub raise_event : SubscriptionEvent → Subscription → Subscription
raise_event e s = record s { root = add_event e s.root }

abbrev pub touch : Time → Subscription → Subscription
touch now s = record s { root = touch_root now s.root }

abbrev pub drop_events : Subscription → Subscription
drop_events s = record s { root = clear_events s.root }

abbrev in_state : String → Subscription → String
in_state what s = concat what (status_text s.status)

module _ (add_date : AddDate) where
  -- The trial's end and the status that it gives.
  abbrev first_status : Plan → SubscriptionStatus
  first_status plan = if ltb_ℤ (pos 0) plan.trial_days then trialing else pending

  abbrev trial_end : Plan → Time → Option Time
  trial_end plan now =
      if ltb_ℤ (pos 0) plan.trial_days
      then some (add_date (pos 0) (pos 0) plan.trial_days now)
      else none

  unfoldable pub new_subscription :
      KernelId → KernelId → KernelId → Option Plan → Time → Time → Time → Result Subscription
  new_subscription id user_id plan_id plan now created updated =
      if leb_ℤ id (pos 0)
      then err (new_domain_error invalid_argument "subscription id must be positive")
      else if leb_ℤ user_id (pos 0)
      then err (new_domain_error invalid_argument "user id must be positive")
      else if leb_ℤ plan_id (pos 0)
      then err (new_domain_error invalid_argument "plan id must be positive")
      else elim plan [
        | none ↦ err (new_domain_error invalid_argument "plan is required")
        | some p ↦
            if not (plan_status_eq p.status Plans.active)
            then err (new_domain_error invalid_argument "plan is not active")
            else ok (
                raise_event (subscription_created id user_id plan_id) (record {
                  root = new_aggregate_root id created updated;
                  user_id = user_id;
                  plan_id = plan_id;
                  status = first_status p;
                  current_period_start = now;
                  current_period_end =
                      if str_eq p.interval "year"
                      then add_date p.interval_count (pos 0) (pos 0) now
                      else add_date (pos 0) p.interval_count (pos 0) now;
                  trial_ends_at = trial_end p now;
                  cancelled_at = none;
                  payment_token = "";
                }))
      ]

  unfoldable pub renew : Option Plan → Time → Time → Subscription → Outcome Subscription
  renew plan now touched s =
      if not (status_eq s.status active) && not (status_eq s.status past_due)
      then (s, invalid (in_state "cannot renew subscription in current state: " s))
      else elim plan [
        | none ↦ (s, invalid "plan is required")
        | some p ↦ (
          touch touched (record s {
            current_period_start = now;
            current_period_end =
                if str_eq p.interval "month"
                then add_date (pos 0) p.interval_count (pos 0) now
                else add_date p.interval_count (pos 0) (pos 0) now;
          }),
          none,
        )
      ]

unfoldable pub activate : Time → Subscription → Outcome Subscription
activate now s =
    if not (status_eq s.status pending)
      && not (status_eq s.status trialing)
      && not (status_eq s.status past_due)
    then (s, invalid (in_state "cannot activate subscription in current state: " s))
    else (
      raise_event (subscription_activated s.id s.user_id s.plan_id s.status)
          (touch now (record s { status = active })),
      none,
    )

unfoldable pub cancel : Time → Time → Subscription → Outcome Subscription
cancel now touched s =
    if status_eq s.status cancelled || status_eq s.status expired
    then (s, invalid (in_state "subscription is already " s))
    else (
      raise_event (subscription_cancelled s.id s.user_id now)
          (touch touched (record s { cancelled_at = some now; status = cancelled })),
      none,
    )

unfoldable pub expire : Time → Subscription → Outcome Subscription
expire now s =
    if not (status_eq s.status active)
      && not (status_eq s.status past_due)
      && not (status_eq s.status trialing)
    then (s, invalid (in_state "cannot expire subscription in current state: " s))
    else (
      raise_event (subscription_expired s.id s.user_id) (touch now (record s { status = expired })),
      none,
    )

unfoldable pub fail_payment : Time → Subscription → Outcome Subscription
fail_payment now s =
    if not (status_eq s.status active) && not (status_eq s.status past_due)
    then (s, invalid (in_state "cannot mark payment failed in current state: " s))
    else (
      raise_event (subscription_payment_failed s.id s.user_id)
          (touch now (record s { status = past_due })),
      none,
    )

unfoldable pub change_plan : Option Plan → Time → Subscription → Outcome Subscription
change_plan new_plan now s =
    if not (status_eq s.status active) && not (status_eq s.status past_due)
    then (s, invalid (in_state "cannot change plan in current state: " s))
    else elim new_plan [
      | none ↦ (s, invalid "new plan is required")
      | some p ↦
          if not (plan_status_eq p.status Plans.active)
          then (s, invalid "new plan is not active")
          else (
            raise_event (subscription_plan_changed s.id s.user_id s.plan_id p.id)
                (touch now (record s { plan_id = p.id })),
            none,
          )
    ]

unfoldable pub attach_payment_token : String → Time → Subscription → Outcome Subscription
attach_payment_token token now s =
    if is_empty token
    then (s, invalid "payment token must not be empty")
    else if not (status_eq s.status pending)
        && not (status_eq s.status trialing)
        && not (status_eq s.status past_due)
    then (s, invalid (in_state "cannot attach payment token in current state: " s))
    else (touch now (record s { payment_token = token }), none)

unfoldable pub is_active : Subscription → Bool
is_active s = status_eq s.status active || status_eq s.status trialing
