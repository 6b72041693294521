-- ===== src/Payment/Mandate.antt =====
-- domain/payment/mandate.go, events.go and the events of token_exchange.go.
use mall.Base.{
  ℕ, String, Bool, not, ◌||◌, none, some, List, if◌then◌else◌, ℤ, pos, ltb, ltb_ℤ, leb_ℤ, is_empty,
  ◌==◌,
}
use mall.Kernel.{
  KernelId, Time, AggregateRoot, new_aggregate_root, add_event, Result, ok, err, Outcome, invalid,
  new_domain_error, invalid_argument, conflict,
}

pub data MandateStatus : Type 0 where
  requested approved executed settled refunded cancelled expired : MandateStatus

abbrev status_number : MandateStatus → ℕ
status_number requested = 0
status_number approved = 1
status_number executed = 2
status_number settled = 3
status_number refunded = 4
status_number cancelled = 5
status_number expired = 6

-- Go's `==` on the statuses.
abbrev pub status_eq : MandateStatus → MandateStatus → Bool
status_eq a b = status_number a == status_number b

pub record MandateScope : Type 0 where
  pub max_amount : ℤ
  pub merchant_id : KernelId
  pub expiry : Time
  pub allowed_handlers : List String

pub data MandateEvent : Type 0 where
  mandate_requested : KernelId → KernelId → ℤ → KernelId → MandateEvent
  mandate_approved : KernelId → KernelId → MandateEvent
  mandate_executed : KernelId → KernelId → String → MandateEvent
  mandate_settled mandate_cancelled : KernelId → KernelId → MandateEvent
  mandate_refunded : KernelId → KernelId → ℤ → MandateEvent
  token_exchanged token_verification_failed : KernelId → KernelId → String → String → MandateEvent

pub record Mandate : Type 0 where
  pub root : AggregateRoot MandateEvent
  pub open root use *
  pub user_id : KernelId
  pub status : MandateStatus
  pub scope : MandateScope
  pub signature : String
  pub token : String

abbrev pub raise_event : MandateEvent → Mandate → Mandate
raise_event e m = record m { root = add_event e m.root }

-- `now` is the reading of the check, before those of `NewAggregateRoot`.
unfoldable pub new_mandate :
    KernelId → KernelId → MandateScope → Time → Time → Time → Result Mandate
new_mandate id user_id scope now created updated =
    if leb_ℤ user_id (pos 0)
    then err (new_domain_error invalid_argument "user_id must be positive")
    else if leb_ℤ scope.max_amount (pos 0)
    then err (new_domain_error invalid_argument "max_amount must be positive")
    else if leb_ℤ scope.merchant_id (pos 0)
    then err (new_domain_error invalid_argument "merchant_id must be positive")
    else if ltb scope.expiry now
    then err (new_domain_error invalid_argument "expiry must be in the future")
    else ok (
        raise_event (mandate_requested id user_id scope.max_amount scope.merchant_id) (record {
          root = new_aggregate_root id created updated;
          user_id = user_id;
          status = requested;
          scope = scope;
          signature = "";
          token = "";
        }))

-- The one method that changes its receiver and returns an error: past its expiry.
unfoldable pub approve : String → Time → Mandate → Outcome Mandate
approve signature now m =
    if not (status_eq m.status requested)
    then (m, invalid "can only approve requested mandates")
    else if is_empty signature
    then (m, invalid "signature must not be empty")
    else if ltb m.scope.expiry now
    then (record m { status = expired }, invalid "mandate has expired")
    else (
      raise_event (mandate_approved m.id m.user_id)
          (record m { status = approved; signature = signature }),
      none,
    )

unfoldable pub execute : String → Mandate → Outcome Mandate
execute token m =
    if not (status_eq m.status approved)
    then (m, invalid "can only execute approved mandates")
    else if is_empty token
    then (m, invalid "token must not be empty")
    else (
      raise_event (mandate_executed m.id m.user_id token)
          (record m { status = executed; token = token }),
      none,
    )

unfoldable pub settle : Mandate → Outcome Mandate
settle m =
    if not (status_eq m.status executed)
    then (m, invalid "can only settle executed mandates")
    else (raise_event (mandate_settled m.id m.user_id) (record m { status = settled }), none)

unfoldable pub refund : ℤ → Mandate → Outcome Mandate
refund amount m =
    if not (status_eq m.status settled)
    then (m, invalid "can only refund settled mandates")
    else if leb_ℤ amount (pos 0)
    then (m, invalid "refund amount must be positive")
    else if ltb_ℤ m.scope.max_amount amount
    then (m, invalid "refund amount exceeds mandate max amount")
    else (
      raise_event (mandate_refunded m.id m.user_id amount) (record m { status = refunded }),
      none,
    )

unfoldable pub cancel : Mandate → Outcome Mandate
cancel m =
    if status_eq m.status settled
    then (m, invalid "cannot cancel settled mandate")
    else if status_eq m.status cancelled
    then (m, some (new_domain_error conflict "mandate already cancelled"))
    else (raise_event (mandate_cancelled m.id m.user_id) (record m { status = cancelled }), none)

unfoldable pub is_active : Mandate → Bool
is_active m = status_eq m.status approved || status_eq m.status executed

unfoldable pub has_expired : Time → Mandate → Bool
has_expired now m = ltb m.scope.expiry now
