-- ===== src/Webhooks/Outcome.antt =====
-- What Deliver of infrastructure/order/webhook.go makes of the answers that it gets.
use mall.Base.{
  ℕ, zero, suc, ◌+◌, String, ◌≡◌, refl, sym, ◌∙◌, Bool, true, false, inl, inr, Option, none, some,
  arith, ℤ, Option-cases, ◌*◌, ◌/◌, is_none, if◌then◌else◌,
}
use mall.Kernel.{Time, Result, ok, err, Error}
use mall.Webhooks.Webhook.{DeliveryLogEntry, DeliveryLogRepository, Webhook}
use mall.Webhooks.Delivery.{
  HttpRequest, WebhookDeliverer, DeliveryWorld, Course, is_success, refusal, log_quietly, give_up,
  attempts_from, new_entry, open_entry, deliver, nothing_yet,
}

-- What is relied on of the log: a save succeeds, may give the entry an id, and is what was saved
-- last.
pub record IsReliable {L : Type 0} (repo : DeliveryLogRepository L)
    (last : L → Option DeliveryLogEntry) : Type 0 where
  pub keeps :
      (e : DeliveryLogEntry) (l : L)
      → (id : ℤ) × (l' : L) × (repo.save e l ≡ ((record e { id = id }, none), l'))
        × (last l' ≡ some (record e { id = id }))

abbrev pub succeeds : Result ℕ → Bool
succeeds (ok code) = is_success code
succeeds (err e) = false

-- Of `n` answers from the `k`th on, how many stand before the first success.
unfoldable pub first_success : ℕ → (ℕ → Result ℕ) → ℕ → Option ℕ
first_success zero answer k = none
first_success (suc n) answer k =
    let rest = first_success n answer (suc k) in
    if succeeds (answer k) then some 0 else elim rest [ none ↦ none | some j ↦ some (suc j) ]

-- Whether there is no error, the status and the attempts that were logged last, and the requests
-- that have been sent.
abbrev pub Seen : Type 0
Seen = Bool × Option (String × ℕ) × ℕ

abbrev pub seen_at : ℕ → ℕ → ℕ → Option ℕ → Seen
seen_at n i k none = (false, some ("failed", i + n), k + n)
seen_at n i k (some j) = (true, some ("delivered", i + suc j), k + suc j)

abbrev logged : Option DeliveryLogEntry → Option (String × ℕ)
logged none = none
logged (some e) = some (e.status, e.attempts)

seen_eq :
    (b : Bool) {s s' : String} {m m' k k' : ℕ}
    → s ≡ s'
    → m ≡ m'
    → k ≡ k'
    → ◌≡◌ {A = Seen} (b, some (s, m), k) (b, some (s', m'), k')
seen_eq b same attempts sent = cc

seen_after :
    (n i k : ℕ) (o : Option ℕ)
    → seen_at n (suc i) (suc k) o
      ≡ seen_at (suc n) i k (elim o [ none ↦ none | some j ↦ some (suc j) ])
seen_after n i k none = seen_eq false refl (omega arith) (omega arith)
seen_after n i k (some j) = seen_eq true refl (omega arith) (omega arith)

succeeds-refusal : (text : Error → String) (r : Result ℕ) → is_none (refusal text r) ≡ succeeds r
succeeds-refusal text (err e) = refl
succeeds-refusal text (ok code) = ground arith

module _ {L : Type 0} (d : WebhookDeliverer L ℕ) (last : L → Option DeliveryLogEntry) where
  abbrev pub seen : Option Error × DeliveryWorld L ℕ → Seen
  seen o = (is_none o.0, logged (last o.1.log), o.1.net)

  module _ (repo : DeliveryLogRepository L) (logs : d.log_repo ≡ some repo)
      (reliable : IsReliable repo last) where
    log_quietly-keeps :
        (e : DeliveryLogEntry) (l : L) (k : ℕ)
        → (id : ℤ) × (l' : L) × (log_quietly d e (record { log = l; net = k })
            ≡ (record e { id = id }, record { log = l'; net = k }))
          × (last l' ≡ some (record e { id = id }))
    log_quietly-keeps e l k =
        let (id, l', saved, kept) = reliable.keeps e l in (id, l', rw (logs, saved) refl, kept)

    give_up-seen :
        (ended : Time) (e : DeliveryLogEntry) (x : Error) (l : L) (k : ℕ)
        → seen (give_up d ended e x (record { log = l; net = k }))
          ≡ (false, some (e.status, e.attempts), k)
    unfolding give_up
    give_up-seen ended e x l k =
        let (id, l', saved, kept) =
          log_quietly-keeps (record e { next_retry = some (ended + 30 * 1000000000) }) l k in
        rw (saved, kept) refl

    module _ (answer : ℕ → Result ℕ)
        (answers : (r : HttpRequest) (k : ℕ) → d.do_request r k ≡ (answer k, suc k))
        (request : HttpRequest) (good : d.request_error request.url ≡ none) (course : Course)
        (waits : (i : ℕ) → course.cancelled i ≡ none) where
      -- The loop sees the answers that are there, whatever it was given.
      abbrev Sees : ℕ → ℕ → ℕ → Type 0
      Sees n i k =
          (e : DeliveryLogEntry) (x : Error) (l : L)
          → e.status ≡ "failed"
          → e.attempts ≡ i
          → seen (attempts_from d request course n i e x (record { log = l; net = k }))
            ≡ seen_at n i k (first_success n answer k)

      attempt-delivered :
          (n i k : ℕ) (e : DeliveryLogEntry) (x : Error) (l : L)
          → refusal d.error_text (answer k) ≡ none
          → seen (attempts_from d request course (suc n) i e x (record { log = l; net = k }))
            ≡ (true, some ("delivered", suc i), suc k)
      unfolding attempts_from
      attempt-delivered n i k e x l fine =
          let (id, l', saved, kept) =
            log_quietly-keeps (record e { attempts = suc i; status = "delivered"; error = "" }) l
              (suc k) in
          rw (good, answers request k, fine, saved, kept) refl

      attempt-refused :
          (n i k : ℕ) (e : DeliveryLogEntry) (x : Error) (l : L) (said : String) (y : Error)
          → refusal d.error_text (answer k) ≡ some (said, y)
          → Sees n (suc i) (suc k)
          → seen (attempts_from d request course (suc n) i e x (record { log = l; net = k }))
            ≡ seen_at n (suc i) (suc k) (first_success n answer (suc k))
      unfolding attempts_from
      attempt-refused n i k e x l said y bad sees =
          let (id, l', saved, kept) =
            log_quietly-keeps (record e { attempts = suc i; status = "failed"; error = said }) l
              (suc k) in
          rw (good, answers request k, bad, saved, waits i)
            (sees (record e { id = id; attempts = suc i; status = "failed"; error = said }) y l'
              refl refl)

      one_more-Sees :
          (n i k : ℕ)
          → Sees n (suc i) (suc k)
          → (e : DeliveryLogEntry) (x : Error) (l : L)
          → seen (attempts_from d request course (suc n) i e x (record { log = l; net = k }))
            ≡ seen_at (suc n) i k (first_success (suc n) answer k)
      unfolding first_success
      one_more-Sees n i k sees e x l =
          let same = succeeds-refusal d.error_text (answer k) in
          elim (Option-cases (refusal d.error_text (answer k))) [
            | inl fine ↦
                attempt-delivered n i k e x l fine
                ∙ rw (sym same, fine) (seen_eq true refl (omega arith) (omega arith))
            | inr ((said, y), bad) ↦
                attempt-refused n i k e x l said y bad sees
                ∙ rw (sym same, bad) (seen_after n i k (first_success n answer (suc k)))
          ]

      attempts_from-Sees : (n i k : ℕ) → Sees n i k
      unfolding attempts_from first_success
      attempts_from-Sees zero i k e x l failed count =
          give_up-seen course.ended e x l k
          ∙ seen_eq false failed (count ∙ omega arith) (omega arith)
      attempts_from-Sees (suc n) i k e x l failed count =
          one_more-Sees n i k (attempts_from-Sees n (suc i) (suc k)) e x l

    open_entry-keeps :
        (e : DeliveryLogEntry) (l : L) (k : ℕ)
        → (id : ℤ) × (l' : L) × (open_entry d e (record { log = l; net = k })
            ≡ ((record e { id = id }, none), record { log = l'; net = k }))
    open_entry-keeps e l k =
        let (id, l', saved, kept) = reliable.keeps e l in (id, l', rw (logs, saved) refl)

    -- Over a log that keeps what it is given and a client that answers every request in turn: where
    -- the body and the request are made and no wait is cancelled, Deliver sends a request up to
    -- three times, until the first answer with a status from 200 to 299. It returns no error
    -- exactly when there is one, and the log has then the status delivered, and otherwise failed,
    -- with the number of the requests that were sent.
    pub deliver-first_success :
        (answer : ℕ → Result ℕ) (webhook : Webhook) (event payload body : String) (course : Course)
        (l : L) (k : ℕ)
        → ((r : HttpRequest) (n : ℕ) → d.do_request r n ≡ (answer n, suc n))
        → d.request_error webhook.url ≡ none
        → ((i : ℕ) → course.cancelled i ≡ none)
        → d.marshal_body event (course.started / 1000000) payload ≡ ok body
        → seen (deliver d webhook event payload course (record { log = l; net = k }))
          ≡ seen_at 3 0 k (first_success 3 answer k)
    unfolding deliver
    deliver-first_success answer webhook event payload body course l k answers good waits made =
        let (id, l', opened) = open_entry-keeps (new_entry d webhook event payload) l k in
        let request : HttpRequest = record {
          url = webhook.url;
          body = body;
          signature = d.sign_payload webhook.secret payload;
          timestamp = course.started / 1000000;
        } in
        let sees = attempts_from-Sees answer answers request good course waits 2 1 (suc k) in
        rw (made, opened)
          (one_more-Sees answer answers request good course waits 2 0 k sees
            (record (new_entry d webhook event payload) { id = id }) (nothing_yet d) l')
