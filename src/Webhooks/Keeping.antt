-- ===== src/Webhooks/Keeping.antt =====
-- What every delivery and every run of the retry worker keeps (infrastructure/order): a property of
-- the world that a save and a request keep. again.
use mall.Base.{
  ℕ, zero, suc, ◌+◌, ◌*◌, ◌/◌, String, ◌≡◌, Bool, true, false, inl, inr, Option, none, some, arith,
  ℤ, pos, List, [], ◌∷◌, leb,
}
use mall.Kernel.{KernelId, Time, Result, ok, Error, Outcome, Result-cases}
use mall.Webhooks.Webhook.{DeliveryLogEntry, DeliveryLogRepository, Webhook}
use mall.Webhooks.Delivery.{
  HttpRequest, WebhookDeliverer, DeliveryWorld, Course, refusal, log_quietly, give_up, wait_then,
  attempt_over, send_once, attempts_from, new_entry, open_entry, entry_saved, deliver, nothing_yet,
  retry_found, retry_each, run_once,
}

pub retry_active :
    {L X : Type 0} (d : WebhookDeliverer L X) (repo : DeliveryLogRepository L) (webhook : Webhook)
    (entry : DeliveryLogEntry) (course : Course) (w : DeliveryWorld L X)
    → webhook.is_active ≡ true
    → retry_found d repo (ok webhook) entry course w
      ≡ (deliver d webhook entry.event entry.payload course w).1
retry_active d repo webhook entry course w live = ground (arith, live)

module _ {L X : Type 0} (d : WebhookDeliverer L X) (Q : ℤ → Type 0) (P : DeliveryWorld L X → Type 0)
    (log_quietly-keeps : (e : DeliveryLogEntry) (w : DeliveryWorld L X)
      → Q e.id
      → P w
      → Q (log_quietly d e w).0.id × P (log_quietly d e w).1)
    (open_entry-keeps : (e : DeliveryLogEntry) (w : DeliveryWorld L X)
      → Q e.id
      → P w
      → Q (open_entry d e w).0.0.id × P (open_entry d e w).1)
    (request_keeps : (q : HttpRequest) (w : DeliveryWorld L X)
      → P w
      → P (record w { net = (d.do_request q w.net).1 }))
    (new : Q (pos 0)) where
  give_up-keeps :
      (ended : Time) (e : DeliveryLogEntry) (x : Error) (w : DeliveryWorld L X)
      → Q e.id
      → P w
      → P (give_up d ended e x w).1
  unfolding give_up
  give_up-keeps ended e x w other has =
      (log_quietly-keeps (record e { next_retry = some (ended + 30 * 1000000000) }) w other has).1

  abbrev pub Attempt : Type 0
  Attempt = DeliveryLogEntry → Error → DeliveryWorld L X → Option Error × DeliveryWorld L X

  -- An attempt that leaves the entry.
  abbrev pub Leaves : Attempt → Type 0
  Leaves go =
      (e : DeliveryLogEntry) (x : Error) (w : DeliveryWorld L X) → Q e.id → P w → P (go e x w).1

  wait_then-keeps :
      (last : Bool) (c : Option Error) (go : Attempt) → Leaves go → Leaves (wait_then d last c go)
  wait_then-keeps last none go leaves e x w other has = leaves e x w other has
  wait_then-keeps true (some y) go leaves e x w other has = leaves e x w other has
  wait_then-keeps false (some y) go leaves e x w other has = has

  pub attempt_over-keeps :
      (o : Option (String × Error)) (last : Bool) (i : ℕ) (c : Option Error) (go : Attempt)
      → Leaves go
      → (e : DeliveryLogEntry) (w : DeliveryWorld L X) → Q e.id
      → P w
      → P (attempt_over d o last i c go e w).1
  attempt_over-keeps none last i c go leaves e w other has =
      (log_quietly-keeps (record e { attempts = suc i; status = "delivered"; error = "" }) w other
        has).1
  attempt_over-keeps (some (said, y)) last i c go leaves e w other has =
      let failed : DeliveryLogEntry = record e {
        attempts = suc i;
        status = "failed";
        error = said;
      } in
      let (other', has') = log_quietly-keeps failed w other has in
      wait_then-keeps last c go leaves _ y _ other' has'

  send_once-keeps :
      (o : Option Error) (request : HttpRequest) (last : Bool) (i : ℕ) (c : Option Error)
      (go : Attempt)
      → Leaves go
      → (e : DeliveryLogEntry) (w : DeliveryWorld L X) → Q e.id
      → P w
      → P (send_once d o request last i c go e w).1
  send_once-keeps (some x) request last i c go leaves e w other has = has
  send_once-keeps none request last i c go leaves e w other has =
      attempt_over-keeps (refusal d.error_text (d.do_request request w.net).0) last i c go leaves e
        (record w { net = (d.do_request request w.net).1 }) other (request_keeps request w has)

  pub attempts_from-Leaves :
      (request : HttpRequest) (course : Course) (left i : ℕ)
      → Leaves (attempts_from d request course left i)
  unfolding attempts_from
  attempts_from-Leaves request course zero i e x w other has =
      give_up-keeps course.ended e x w other has
  attempts_from-Leaves request course (suc left) i e x w other has =
      send_once-keeps (d.request_error request.url) request (leb left 0) i (course.cancelled i) _
        (attempts_from-Leaves request course left (suc i)) e w other has

  pub entry_saved-keeps :
      (o : Outcome DeliveryLogEntry × DeliveryWorld L X)
      (go : DeliveryLogEntry → DeliveryWorld L X → Option Error × DeliveryWorld L X)
      → ((e : DeliveryLogEntry) (w : DeliveryWorld L X) → Q e.id → P w → P (go e w).1)
      → Q o.0.0.id
      → P o.1
      → P (entry_saved d o go).1
  entry_saved-keeps ((e, none), w) go leaves other has = leaves e w other has
  entry_saved-keeps ((e, some x), w) go leaves other has = has

  deliver-keeps :
      (webhook : Webhook) (event payload : String) (course : Course) (w : DeliveryWorld L X)
      → P w
      → P (deliver d webhook event payload course w).1
  unfolding deliver
  deliver-keeps webhook event payload course w has =
      elim (Result-cases (d.marshal_body event (course.started / 1000000) payload)) [
        | inr (x, bad) ↦ rw bad has
        | inl (body, made) ↦
            let request : HttpRequest = record {
              url = webhook.url;
              body = body;
              signature = d.sign_payload webhook.secret payload;
              timestamp = course.started / 1000000;
            } in
            let (other, has') = open_entry-keeps (new_entry d webhook event payload) w new has in
            rw made (
              entry_saved-keeps (open_entry d (new_entry d webhook event payload) w)
                (λ e v. attempts_from d request course 3 0 e (nothing_yet d) v)
                (λ e v. attempts_from-Leaves request course 3 0 e (nothing_yet d) v) other has')
      ]

  module _ (repo : DeliveryLogRepository L) (find : KernelId → Result Webhook)
      (live : (id : KernelId) (webhook : Webhook)
        → find id ≡ ok webhook
        → webhook.is_active ≡ true) where
    pub retry_found-keeps :
        (entry : DeliveryLogEntry) (course : Course) (w : DeliveryWorld L X)
        → P w
        → P (retry_found d repo (find entry.webhook_id) entry course w)
    retry_found-keeps entry course w has = elim (Result-cases (find entry.webhook_id)) [
      | inr (x, missing) ↦ rw missing has
      | inl (webhook, found) ↦
          rw
            (
              found,
              retry_active d repo webhook entry course w (live entry.webhook_id webhook found),
            )
            (deliver-keeps webhook entry.event entry.payload course w has)
    ]

    pub retry_each-keeps :
        (entries : List DeliveryLogEntry) (courses : ℕ → Course) (w : DeliveryWorld L X)
        → P w
        → P (retry_each d repo find entries courses w)
    unfolding retry_each
    retry_each-keeps [] courses w has = has
    retry_each-keeps (entry ∷ entries) courses w has =
        retry_each-keeps entries (λ n. courses (suc n)) _
          (retry_found-keeps entry (courses 0) w has)

    pub run_once-keeps :
        (courses : ℕ → Course) (w : DeliveryWorld L X) → P w → P (run_once d repo find courses w)
    unfolding run_once
    run_once-keeps courses w has = elim (Result-cases (repo.list_failed_due_for_retry 50 w.log)) [
      | inr (x, unread) ↦ rw unread has
      | inl (entries, listed) ↦ rw listed (retry_each-keeps entries courses w has)
    ]
