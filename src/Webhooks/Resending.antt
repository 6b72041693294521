-- ===== src/Webhooks/Resending.antt =====
-- How often the worker of infrastructure/order/retry_worker.go sends a failed entry.
use mall.Base.{
  ℕ, zero, suc, ◌+◌, ◌≤◌, ◌/◌, String, ◌≡◌, ◌≢◌, ap, sym, subst, ◌⊎◌, inl, inr, Option, none, some,
  List, [], ◌∷◌, ℤ, pos, arith, leb, true, refl, ◌∙◌,
}
use mall.Kernel.{KernelId, Result, ok, Error}
use mall.Webhooks.Webhook.{DeliveryLogEntry, DeliveryLogRepository, Webhook}
use mall.Webhooks.Delivery.{
  HttpRequest, WebhookDeliverer, DeliveryWorld, Course, refusal, log_quietly, open_entry, new_entry,
  nothing_yet, attempts_from, deliver, retry_found, retry_each, run_once,
}
use mall.Webhooks.Keeping.{
  retry_active, attempt_over-keeps, attempts_from-Leaves, retry_found-keeps, retry_each-keeps,
}
use mall.Webhooks.Redelivery.{KeepsOthers, run_once_keeps}

abbrev pub Among : DeliveryLogEntry → List DeliveryLogEntry → Type 0
Among r [] = ⊥
Among r (e ∷ es) = (e ≡ r) ⊎ Among r es

-- What is relied on of the log for an entry with the id `k`: every save succeeds, and as long as
-- the entry is there as it is, the worker's query lists it.
pub record Lists {L : Type 0} (repo : DeliveryLogRepository L)
    (row : ℤ → L → Option DeliveryLogEntry) (k : ℤ) (r : DeliveryLogEntry) : Type 0 where
  pub saves : (e : DeliveryLogEntry) (l : L) → (repo.save e l).0.1 ≡ none
  pub listed :
      (l : L)
      → row k l ≡ some r
      → (es : List DeliveryLogEntry) × (repo.list_failed_due_for_retry 50 l ≡ ok es) × Among r es

-- A client that can make the requests of the entry to its webhook, and a counter of them, which
-- other requests do not set back.
pub record Sends {L N : Type 0} (d : WebhookDeliverer L N) (r : DeliveryLogEntry)
    (webhook : Webhook) (count : N → ℕ) : Type 0 where
  pub counts : (q : HttpRequest) (n : N) → count n ≤ count (d.do_request q n).1
  pub counts_own :
      (q : HttpRequest) (at : ℕ) (n : N)
      → q.url ≡ webhook.url
      → d.marshal_body r.event at r.payload ≡ ok q.body
      → count (d.do_request q n).1 ≡ suc (count n)
  pub made : (at : ℕ) → (body : String) × (d.marshal_body r.event at r.payload ≡ ok body)
  pub good : d.request_error webhook.url ≡ none

module _ {L N : Type 0} (d : WebhookDeliverer L N) (repo : DeliveryLogRepository L)
    (find : KernelId → Result Webhook) where
  -- So many runs, one after the other.
  abbrev pub run_times : ℕ → (ℕ → ℕ → Course) → DeliveryWorld L N → DeliveryWorld L N
  run_times zero courses w = w
  run_times (suc n) courses w =
      run_times n (λ i. courses (suc i)) (run_once d repo find (courses 0) w)

module _ {L N : Type 0} (d : WebhookDeliverer L N) (repo : DeliveryLogRepository L)
    (row : ℤ → L → Option DeliveryLogEntry) (logs : d.log_repo ≡ some repo)
    (others : KeepsOthers repo row) (k : ℤ) (there : pos 0 ≢ k) (r : DeliveryLogEntry)
    (lists : Lists repo row k r) (find : KernelId → Result Webhook)
    (live : (id : KernelId) (webhook : Webhook) → find id ≡ ok webhook → webhook.is_active ≡ true)
    (webhook : Webhook) (known : find r.webhook_id ≡ ok webhook) (count : N → ℕ)
    (sends : Sends d r webhook count) where
  -- At least so many requests of the entry have been sent.
  abbrev Sent : ℕ → DeliveryWorld L N → Type 0
  Sent m w = m ≤ count w.net

  abbrev Any : ℤ → Type 0
  Any id = Unit

  log_quietly-Sent :
      (m : ℕ) (e : DeliveryLogEntry) (w : DeliveryWorld L N)
      → Any e.id
      → Sent m w
      → Any (log_quietly d e w).0.id × Sent m (log_quietly d e w).1
  log_quietly-Sent m e w any sent = (tt, rw logs sent)

  open_entry-Sent :
      (m : ℕ) (e : DeliveryLogEntry) (w : DeliveryWorld L N)
      → Any e.id
      → Sent m w
      → Any (open_entry d e w).0.0.id × Sent m (open_entry d e w).1
  open_entry-Sent m e w any sent = (tt, rw logs sent)

  request-Sent :
      (m : ℕ) (q : HttpRequest) (w : DeliveryWorld L N)
      → Sent m w
      → Sent m (record w { net = (d.do_request q w.net).1 })
  request-Sent m q w sent = omega (arith, sent, sends.counts q w.net)

  open_entry-saved :
      (e : DeliveryLogEntry) (w : DeliveryWorld L N)
      → open_entry d e w
        ≡ (((repo.save e w.log).0.0, none), record w { log = (repo.save e w.log).1 })
  open_entry-saved e w = rw logs (
      ap
        (λ (o : Option Error).
          (((repo.save e w.log).0.0, o), record w { log = (repo.save e w.log).1 }))
        (lists.saves e w.log))

  -- The first of some attempts sends a request.
  attempts_from-Sent :
      (m left i at : ℕ) (request : HttpRequest) (course : Course) (e : DeliveryLogEntry) (x : Error)
      (w : DeliveryWorld L N)
      → request.url ≡ webhook.url
      → d.marshal_body r.event at r.payload ≡ ok request.body
      → Sent m w
      → Sent (suc m) (attempts_from d request course (suc left) i e x w).1
  unfolding attempts_from
  attempts_from-Sent m left i at request course e x w to_it own sent =
      let answered = d.do_request request w.net in
      let now_sent : suc m ≤ count answered.1 =
        rw (sends.counts_own request at w.net to_it own) (omega (arith, sent)) in
      let good : d.request_error request.url ≡ none = ap d.request_error to_it ∙ sends.good in
      rw good (
        attempt_over-keeps d Any (Sent (suc m)) (log_quietly-Sent (suc m)) (open_entry-Sent (suc m))
          (request-Sent (suc m)) tt (refusal d.error_text answered.0) (leb left 0) i
          (course.cancelled i) (attempts_from d request course left (suc i))
          (attempts_from-Leaves d Any (Sent (suc m)) (log_quietly-Sent (suc m))
            (open_entry-Sent (suc m)) (request-Sent (suc m)) tt request course left (suc i))
          e (record w { net = answered.1 }) tt now_sent)

  deliver-Sent :
      (m : ℕ) (course : Course) (w : DeliveryWorld L N)
      → Sent m w
      → Sent (suc m) (deliver d webhook r.event r.payload course w).1
  unfolding deliver
  deliver-Sent m course w sent =
      let (body, made) = sends.made (course.started / 1000000) in
      let request : HttpRequest = record {
        url = webhook.url;
        body = body;
        signature = d.sign_payload webhook.secret r.payload;
        timestamp = course.started / 1000000;
      } in
      let entry = new_entry d webhook r.event r.payload in
      rw (made, open_entry-saved entry w)
        (attempts_from-Sent m 2 0 (course.started / 1000000) request course
          (repo.save entry w.log).0.0 (nothing_yet d) (record w { log = (repo.save entry w.log).1 })
          refl made sent)

  retry_found-Sent :
      (m : ℕ) (course : Course) (w : DeliveryWorld L N)
      → Sent m w
      → Sent (suc m) (retry_found d repo (find r.webhook_id) r course w)
  retry_found-Sent m course w sent =
      rw (known, retry_active d repo webhook r course w (live r.webhook_id webhook known))
        (deliver-Sent m course w sent)

  retry_each-Sent :
      (m : ℕ) (es : List DeliveryLogEntry) (courses : ℕ → Course) (w : DeliveryWorld L N)
      → Among r es
      → Sent m w
      → Sent (suc m) (retry_each d repo find es courses w)
  unfolding retry_each
  retry_each-Sent m [] courses w among sent = absurd among
  retry_each-Sent m (e ∷ es) courses w (inl same) sent =
      retry_each-keeps d Any (Sent (suc m)) (log_quietly-Sent (suc m)) (open_entry-Sent (suc m))
        (request-Sent (suc m)) tt repo find live es (λ n. courses (suc n)) _
        (subst (λ x. Sent (suc m) (retry_found d repo (find x.webhook_id) x (courses 0) w))
          (sym same) (retry_found-Sent m (courses 0) w sent))
  retry_each-Sent m (e ∷ es) courses w (inr among) sent =
      retry_each-Sent m es (λ n. courses (suc n)) _ among
        (retry_found-keeps d Any (Sent m) (log_quietly-Sent m) (open_entry-Sent m) (request-Sent m)
          tt repo find live e (courses 0) w sent)

  run_once-Sent :
      (m : ℕ) (courses : ℕ → Course) (w : DeliveryWorld L N)
      → row k w.log ≡ some r
      → Sent m w
      → Sent (suc m) (run_once d repo find courses w)
  unfolding run_once
  run_once-Sent m courses w has sent =
      let (es, listed, among) = lists.listed w.log has in
      rw listed (retry_each-Sent m es courses w among sent)

  run_times-Sent :
      (n m : ℕ) (courses : ℕ → ℕ → Course) (w : DeliveryWorld L N)
      → row k w.log ≡ some r
      → Sent m w
      → Sent (m + n) (run_times d repo find n courses w)
  run_times-Sent zero m courses w has sent = omega (arith, sent)
  run_times-Sent (suc n) m courses w has sent =
      let kept = run_once_keeps d repo row logs others k there r find live (courses 0) w has in
      let next =
        run_times-Sent n (suc m) (λ i. courses (suc i)) (run_once d repo find (courses 0) w) kept
          (run_once-Sent m (courses 0) w has sent) in
      omega (arith, next)

  run_times-row :
      (n : ℕ) (courses : ℕ → ℕ → Course) (w : DeliveryWorld L N)
      → row k w.log ≡ some r
      → row k (run_times d repo find n courses w).log ≡ some r
  run_times-row zero courses w has = has
  run_times-row (suc n) courses w has =
      run_times-row n (λ i. courses (suc i)) (run_once d repo find (courses 0) w)
        (run_once_keeps d repo row logs others k there r find live (courses 0) w has)

  -- Over a log whose saves succeed and leave the other entries, and whose query of what is due
  -- lists the entry as long as it is there as it is: where the webhooks are active and the entry's
  -- requests can be made, any number of runs of the worker leave the entry as it was and have sent
  -- its event and payload to its webhook at least so many times, whatever the answers, so also
  -- where every one of them is a success.
  pub run_times_resends :
      (n : ℕ) (courses : ℕ → ℕ → Course) (w : DeliveryWorld L N)
      → row k w.log ≡ some r
      → (count w.net + n ≤ count (run_times d repo find n courses w).net)
        × (row k (run_times d repo find n courses w).log ≡ some r)
  run_times_resends n courses w has =
      (run_times-Sent n (count w.net) courses w has (omega arith), run_times-row n courses w has)
