-- ===== src/Webhooks/Webhook.antt =====
-- domain/order/webhook.go. The HMAC of a payload is a parameter of the delivery.
use mall.Base.{String, Bool, true, not, Option, List, if◌then◌else◌, ℤ, eqb_ℤ, is_empty, ℕ}
use mall.Kernel.{
  KernelId, Time, AggregateRoot, new_aggregate_root, Result, ok, err, Error, Action, Outcome, ◌>>=◌,
  ◌>>◌, pure, raise_if, from_result, from_save, new_domain_error, invalid_argument,
  permission_denied,
}

pub record DeliveryLogEntry : Type 0 where
  pub id : ℤ
  pub webhook_id : ℤ
  pub event : String
  pub payload : String
  pub status : String
  pub error : String
  pub attempts : ℕ
  pub next_retry : Option Time
  pub created_at : Time
  pub updated_at : Time

-- `Save` gets a pointer, and may give the entry its id.
pub record DeliveryLogRepository (L : Type 0) : Type 0 where
  pub save : DeliveryLogEntry → L → Outcome DeliveryLogEntry × L
  pub mark_retried : ℤ → L → Option Error × L
  pub mark_delivered : ℤ → L → Option Error × L
  pub list_failed_due_for_retry : ℕ → L → Result (List DeliveryLogEntry)

pub record Webhook : Type 0 where
  pub root : AggregateRoot (Unit {0})
  pub open root use *
  pub user_id : KernelId
  pub url : String
  pub secret : String
  -- `Events`
  pub event_names : List String
  pub is_active : Bool

unfoldable pub new_webhook :
    KernelId → KernelId → String → String → List String → Time → Time → Result Webhook
new_webhook id user_id url secret events created updated =
    if is_empty url
    then err (new_domain_error invalid_argument "webhook url must not be empty")
    else ok (record {
      root = new_aggregate_root id created updated;
      user_id = user_id;
      url = url;
      secret = secret;
      event_names = events;
      is_active = true;
    })

pub record WebhookRepository (W : Type 0) : Type 0 where
  pub save : Webhook → W → Option Error × W
  pub find_by_id : KernelId → W → Result Webhook
  pub delete : KernelId → W → Option Error × W

module _ {W : Type 0} (repo : WebhookRepository W) where
  -- `next_id` is what the generator of ids gives.
  unfoldable pub register :
      Result KernelId → KernelId → String → String → List String → Time → Time → Action W Webhook
  register next_id user_id url secret events created updated = do
    id ← from_result next_id
    w ← from_result (new_webhook id user_id url secret events created updated)
    from_save (repo.save w)
    pure w

  unfoldable pub delete_webhook : KernelId → KernelId → Action W (Unit {0})
  delete_webhook user_id id s =
      (do
        w ← from_result (repo.find_by_id id s)
        raise_if (not (eqb_ℤ w.user_id user_id))
            (new_domain_error permission_denied "webhook does not belong to user")
        from_save (repo.delete id))
        s
