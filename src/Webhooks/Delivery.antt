-- ===== src/Webhooks/Delivery.antt =====
-- infrastructure/order/webhook.go, Deliver, and retry_worker.go, runOnce. The HTTP client, the JSON
-- text of a body and the HMAC of a payload are parameters.
use Prim.Native.String.{◌++◌ as concat}
use mall.Base.{
  ℕ, zero, suc, ◌+◌, ◌*◌, ◌/◌, String, Bool, not, ◌&&◌, ltb, leb, Option, none, some, List, [], ◌∷◌,
  if◌then◌else◌, pos, decimal,
}
use mall.Kernel.{
  KernelId, Time, Result, ok, err, Error, Outcome, new_domain_error, new_domain_error_with_cause,
  unavailable, internal,
}
use mall.Webhooks.Webhook.{DeliveryLogEntry, DeliveryLogRepository, Webhook}

pub record HttpRequest : Type 0 where
  pub url : String
  pub body : String
  pub signature : String
  pub timestamp : ℕ

-- The delivery log may be nil.
pub record WebhookDeliverer (L X : Type 0) : Type 0 where
  pub log_repo : Option (DeliveryLogRepository L)
  -- `NewRequestWithContext`, which looks at the URL, and `client.Do`, the status or an error
  pub request_error : String → Option Error
  pub do_request : HttpRequest → X → Result ℕ × X
  pub marshal_body : String → ℕ → String → Result String
  pub sign_payload : String → String → String
  pub error_text : Error → String

-- The log, and what stands behind the client.
pub record DeliveryWorld (L X : Type 0) : Type 0 where
  pub log : L
  pub net : X

-- What a delivery meets: its readings of the clock, and `ctx.Err()` where the context is done
-- before the wait after an attempt is over.
pub record Course : Type 0 where
  pub started : Time
  pub ended : Time
  pub cancelled : ℕ → Option Error

abbrev pub is_success : ℕ → Bool
is_success code = leb 200 code && ltb code 300

-- The text for the log, and the error, of an answer that is not a success.
abbrev pub refusal : (Error → String) → Result ℕ → Option (String × Error)
refusal text (err e) = some (text e, e)
refusal text (ok code) =
    let said = concat "webhook returned status " (decimal (pos code)) in
    if is_success code then none else some (said, new_domain_error unavailable said)

module _ {L X : Type 0} (d : WebhookDeliverer L X) where
  abbrev World : Type 0
  World = DeliveryWorld L X

  -- `if d.logRepo != nil && logEntry != nil { …; _ = d.logRepo.Save(ctx, logEntry) }`
  abbrev pub log_quietly : DeliveryLogEntry → World → DeliveryLogEntry × World
  log_quietly e w = elim d.log_repo [
    | none ↦ (e, w)
    | some repo ↦ let (o, l) = repo.save e w.log in (o.0, record w { log = l })
  ]

  -- The end, after three attempts.
  unfoldable pub give_up : Time → DeliveryLogEntry → Error → World → Option Error × World
  give_up ended e last w =
      let (e', w') = log_quietly (record e { next_retry = some (ended + 30 * 1000000000) }) w in
      (
        some (
            new_domain_error_with_cause unavailable "webhook delivery failed after 3 retries" last),
        w',
      )

  abbrev Attempt : Type 0
  Attempt = DeliveryLogEntry → Error → World → Option Error × World

  -- What follows a failed attempt, the last one or another.
  abbrev pub wait_then :
      Bool → Option Error → Attempt → DeliveryLogEntry → Error → World → Option Error × World
  wait_then last none go e x w = go e x w
  wait_then last (some cancelled) go e x w = if last then go e x w else (some cancelled, w)

  abbrev pub attempt_over :
      Option (String × Error)
      → Bool
      → ℕ
      → Option Error
      → Attempt
      → DeliveryLogEntry
      → World
      → Option Error × World
  attempt_over none last i cancelled go e w =
      let (e', w') =
        log_quietly (record e { attempts = suc i; status = "delivered"; error = "" }) w in
      (none, w')
  attempt_over (some (said, x)) last i cancelled go e w =
      let (e', w') =
        log_quietly (record e { attempts = suc i; status = "failed"; error = said }) w in
      wait_then last cancelled go e' x w'

  abbrev pub send_once :
      Option Error
      → HttpRequest
      → Bool
      → ℕ
      → Option Error
      → Attempt
      → DeliveryLogEntry
      → World
      → Option Error × World
  send_once (some x) request last i cancelled go e w =
      (some (new_domain_error_with_cause internal "create webhook request" x), w)
  send_once none request last i cancelled go e w =
      let (r, x) = d.do_request request w.net in
      attempt_over (refusal d.error_text r) last i cancelled go e (record w { net = x })

  -- The loop with `left` attempts to go, of which the next one has the index `i`; `last` is the
  -- error of the attempt before.
  unfoldable pub attempts_from :
      HttpRequest → Course → ℕ → ℕ → DeliveryLogEntry → Error → World → Option Error × World
  attempts_from request course zero i e last w = give_up course.ended e last w
  attempts_from request course (suc left) i e last w =
      send_once (d.request_error request.url) request (leb left 0) i (course.cancelled i)
        (attempts_from request course left (suc i)) e w

  abbrev pub new_entry : Webhook → String → String → DeliveryLogEntry
  new_entry webhook event payload = record {
    id = pos 0;
    webhook_id = webhook.id;
    event = event;
    payload = payload;
    status = "pending";
    error = "";
    attempts = 0;
    next_retry = none;
    created_at = 0;
    updated_at = 0;
  }

  -- `lastErr` is nil before the first attempt, and not read then.
  abbrev pub nothing_yet : Error
  nothing_yet = new_domain_error unavailable ""

  -- From the first save on.
  abbrev pub entry_saved :
      Outcome DeliveryLogEntry × World
      → (DeliveryLogEntry → World → Option Error × World)
      → Option Error × World
  entry_saved ((e, none), w) go = go e w
  entry_saved ((e, some x), w) go =
      (some (new_domain_error_with_cause internal "save delivery log" x), w)

  abbrev pub open_entry : DeliveryLogEntry → World → Outcome DeliveryLogEntry × World
  open_entry e w = elim d.log_repo [
    | none ↦ ((e, none), w)
    | some repo ↦ let (o, l) = repo.save e w.log in (o, record w { log = l })
  ]

  abbrev pub body_sent :
      Result String → Webhook → String → String → Course → World → Option Error × World
  body_sent (err x) webhook event payload course w =
      (some (new_domain_error_with_cause internal "marshal webhook payload" x), w)
  body_sent (ok data_text) webhook event payload course w =
      entry_saved (open_entry (new_entry webhook event payload) w) (λ e w.
        attempts_from
          (record {
            url = webhook.url;
            body = data_text;
            signature = d.sign_payload webhook.secret payload;
            timestamp = course.started / 1000000;
          })
          course 3 0 e nothing_yet w)

  unfoldable pub deliver : Webhook → String → String → Course → World → Option Error × World
  deliver webhook event payload course w =
      body_sent (d.marshal_body event (course.started / 1000000) payload) webhook event payload
        course w

  -- One entry of the worker's loop; its errors are logged and otherwise ignored.
  abbrev pub retry_found :
      DeliveryLogRepository L → Result Webhook → DeliveryLogEntry → Course → World → World
  retry_found repo (err x) entry course w = w
  retry_found repo (ok webhook) entry course w =
      if not webhook.is_active
      then record w { log = (repo.mark_retried entry.id w.log).1 }
      else (deliver webhook entry.event entry.payload course w).1

  unfoldable pub retry_each :
      DeliveryLogRepository L
      → (KernelId → Result Webhook)
      → List DeliveryLogEntry
      → (ℕ → Course)
      → World
      → World
  retry_each repo find [] courses w = w
  retry_each repo find (entry ∷ entries) courses w =
      retry_each repo find entries (λ n. courses (suc n))
        (retry_found repo (find entry.webhook_id) entry (courses 0) w)

  abbrev retry_listed :
      DeliveryLogRepository L
      → (KernelId → Result Webhook)
      → Result (List DeliveryLogEntry)
      → (ℕ → Course)
      → World
      → World
  retry_listed repo find (err x) courses w = w
  retry_listed repo find (ok entries) courses w = retry_each repo find entries courses w

  unfoldable pub run_once :
      DeliveryLogRepository L → (KernelId → Result Webhook) → (ℕ → Course) → World → World
  run_once repo find courses w =
      retry_listed repo find (repo.list_failed_due_for_retry 50 w.log) courses w
