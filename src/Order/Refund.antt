-- ===== src/Order/Refund.antt =====
-- domain/order/refund.go and the refund events.
use mall.Base.{
  ℕ, String, Bool, not, Option, none, some, if◌then◌else◌, ℤ, pos, leb_ℤ, is_empty, ◌==◌,
}
use mall.Kernel.{
  KernelId, Time, AggregateRoot, new_aggregate_root, add_event, Result, ok, err, Outcome, invalid,
  new_domain_error, invalid_argument,
}

pub data RefundStatus : Type 0 where
  pending processed failed : RefundStatus

abbrev status_number : RefundStatus → ℕ
status_number pending = 0
status_number processed = 1
status_number failed = 2

abbrev pub status_eq : RefundStatus → RefundStatus → Bool
status_eq a b = status_number a == status_number b

pub data RefundEvent : Type 0 where
  refund_initiated refund_processed : KernelId → KernelId → ℤ → RefundEvent
  refund_failed : KernelId → KernelId → String → RefundEvent

-- The struct's own `CreatedAt` hides that of its root.
pub record Refund : Type 0 where
  pub root : AggregateRoot RefundEvent
  pub order_id : KernelId
  pub mandate_id : KernelId
  pub amount : ℤ
  pub reason : String
  pub status : RefundStatus
  pub created_at : Time
  pub processed_at : Option Time
  pub failed_at : Option Time
  pub failure_reason : String

abbrev raise_event : RefundEvent → Refund → Refund
raise_event e r = record r { root = add_event e r.root }

unfoldable pub new_refund :
    KernelId → KernelId → KernelId → ℤ → String → Time → Time → Time → Result Refund
new_refund id order_id mandate_id amount reason created updated now =
    if leb_ℤ order_id (pos 0)
    then err (new_domain_error invalid_argument "order id must be positive")
    else if leb_ℤ amount (pos 0)
    then err (new_domain_error invalid_argument "refund amount must be positive")
    else ok (
        raise_event (refund_initiated id order_id amount) (record {
          root = new_aggregate_root id created updated;
          order_id = order_id;
          mandate_id = mandate_id;
          amount = amount;
          reason = reason;
          status = pending;
          created_at = now;
          processed_at = none;
          failed_at = none;
          failure_reason = "";
        }))

unfoldable pub mark_processed : Time → Refund → Outcome Refund
mark_processed now r =
    if not (status_eq r.status pending) then (r, invalid "can only process pending refunds") else (
      raise_event (refund_processed r.root.id r.order_id r.amount)
          (record r { status = processed; processed_at = some now }),
      none,
    )

unfoldable pub mark_failed : String → Time → Refund → Outcome Refund
mark_failed reason now r =
    if not (status_eq r.status pending)
    then (r, invalid "can only fail pending refunds")
    else if is_empty reason
    then (r, invalid "failure reason must not be empty")
    else (
      raise_event (refund_failed r.root.id r.order_id reason)
          (record r { status = failed; failed_at = some now; failure_reason = reason }),
      none,
    )
