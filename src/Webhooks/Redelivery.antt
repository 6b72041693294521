-- ===== src/Webhooks/Redelivery.antt =====
-- What the worker of infrastructure/order/retry_worker.go leaves of the entries that it tries
-- again.
use mall.Base.{ℕ, ◌≡◌, ◌≢◌, true, Option, some, ℤ, pos}
use mall.Kernel.{KernelId, Result, ok}
use mall.Webhooks.Webhook.{DeliveryLogEntry, DeliveryLogRepository, Webhook}
use mall.Webhooks.Keeping.{run_once-keeps}
use mall.Webhooks.Delivery.{WebhookDeliverer, DeliveryWorld, Course, run_once}

-- What is relied on of the log, where `row` reads the entry of an id: a save leaves the entries of
-- other ids, and gives a new entry no id that is there.
pub record KeepsOthers {L : Type 0} (repo : DeliveryLogRepository L)
    (row : ℤ → L → Option DeliveryLogEntry) : Type 0 where
  pub keeps_other :
      (e : DeliveryLogEntry) (l : L) (k : ℤ) (r : DeliveryLogEntry)
      → row k l ≡ some r
      → e.id ≢ k
      → ((repo.save e l).0.0.id ≢ k) × (row k (repo.save e l).1 ≡ some r)

module _ {L X : Type 0} (d : WebhookDeliverer L X) (repo : DeliveryLogRepository L)
    (row : ℤ → L → Option DeliveryLogEntry) (logs : d.log_repo ≡ some repo)
    (others : KeepsOthers repo row) (k : ℤ) (there : pos 0 ≢ k) (r : DeliveryLogEntry)
    (find : KernelId → Result Webhook)
    (live : (id : KernelId) (webhook : Webhook)
      → find id ≡ ok webhook
      → webhook.is_active ≡ true) where
  -- Over a log whose saves leave the other entries: where the webhooks are active, a run of the
  -- worker leaves every entry of the log as it was, whatever the deliveries of it return: an entry
  -- that is failed keeps its status and the time of its next retry though its delivery has
  -- succeeded.
  pub run_once_keeps :
      (courses : ℕ → Course) (w : DeliveryWorld L X)
      → row k w.log ≡ some r
      → row k (run_once d repo find courses w).log ≡ some r
  run_once_keeps =
      run_once-keeps d (λ id. id ≢ k) (λ w. row k w.log ≡ some r)
        (λ e w other has. rw logs (others.keeps_other e w.log k r has other))
        (λ e w other has. rw logs (others.keeps_other e w.log k r has other)) (λ q w has. has) there
        repo find live
