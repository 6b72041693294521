-- ===== src/Webhooks/RetryTests.antt =====
-- The theorem on the retry worker at an entry of an earlier delivery that failed.
use mall.Base.{
  Bool, ◌&&◌, ℕ, suc, ◌≡◌, ◌≢◌, ◌≤◌, refl, ap, sym, true, Bool-cases, inl, inr, Option, none, some,
  arith, ℤ, pos, List, [], ◌∷◌, if◌then◌else◌, eqb_ℤ, str_eq, pos_part, ltb,
}
use mall.Kernel.{KernelId, Result, ok, new_aggregate_root}
use mall.Webhooks.Webhook.{DeliveryLogEntry, DeliveryLogRepository, Webhook}
use mall.Webhooks.Delivery.{
  HttpRequest, WebhookDeliverer, DeliveryWorld, Course, deliver, run_once, attempts_from,
  retry_each,
}
use mall.Webhooks.Redelivery.{KeepsOthers}
use mall.Webhooks.Resending.{Among, Lists, Sends, run_times, run_times_resends}

abbrev Log : Type 0
Log = List DeliveryLogEntry

abbrev shop : Webhook
shop = record {
  root = new_aggregate_root (pos 4) 10 11;
  user_id = pos 2;
  url = "https://shop.example/hook";
  secret = "mint";
  event_names = "order.confirmed" ∷ [];
  is_active = true;
}

abbrev course : Course
course = record { started = 5000000; ended = 9000000; cancelled = λ i. none }

-- A table of entries, the latest of an id first; a new id is larger than all.
abbrev row : ℤ → Log → Option DeliveryLogEntry
row k [] = none
row k (e ∷ l) = let rest = row k l in if eqb_ℤ e.id k then some e else rest

abbrev largest : Log → ℕ
largest [] = 0
largest (e ∷ l) = let rest = largest l in if ltb rest (pos_part e.id) then pos_part e.id else rest

abbrev numbered : DeliveryLogEntry → Log → DeliveryLogEntry
numbered e l = if eqb_ℤ e.id (pos 0) then record e { id = pos (suc (largest l)) } else e

-- The rows with the status failed.
abbrev failed_rows : Log → Log
failed_rows [] = []
failed_rows (e ∷ l) =
    let rest = failed_rows l in if str_eq e.status "failed" then e ∷ rest else rest

abbrev table : DeliveryLogRepository Log
table = record {
  save = λ e l. ((numbered e l, none), numbered e l ∷ l);
  mark_retried = λ k l. (none, l);
  mark_delivered = λ k l. (none, l);
  list_failed_due_for_retry = λ n l. ok (failed_rows l);
}

row_other :
    (e : DeliveryLogEntry) (l : Log) (k : ℤ) (r : DeliveryLogEntry)
    → row k l ≡ some r
    → e.id ≢ k
    → row k (e ∷ l) ≡ some r
row_other e l k r has other = elim (Bool-cases (eqb_ℤ e.id k)) [
  | inl same ↦ absurd (other (ground (arith, same)))
  | inr apart ↦ rw apart has
]

row-largest : (k : ℤ) (l : Log) (r : DeliveryLogEntry) → row k l ≡ some r → pos_part k ≤ largest l
row-largest k [] r has = absurd (ground (arith, has))
row-largest k (e ∷ l) r has = elim (Bool-cases (eqb_ℤ e.id k)) [
  | inl same ↦ ground (arith, same)
  | inr apart ↦ ground (arith, row-largest k l r (rw (sym has) (rw apart refl)))
]

numbered_other :
    (e : DeliveryLogEntry) (l : Log) (k : ℤ) (r : DeliveryLogEntry)
    → row k l ≡ some r
    → e.id ≢ k
    → (numbered e l).id ≢ k
numbered_other e l k r has other = elim (Bool-cases (eqb_ℤ e.id (pos 0))) [
  | inl new ↦ rw new (λ same. absurd (ground (arith, ap pos_part same, row-largest k l r has)))
  | inr old ↦ rw old other
]

table-KeepsOthers : KeepsOthers table row
table-KeepsOthers = record {
  keeps_other = λ e l k r has other.
      let apart = numbered_other e l k r has other in
      (apart, row_other (numbered e l) l k r has apart);
}

abbrev failed_entry : DeliveryLogEntry
failed_entry = record {
  id = pos 1;
  webhook_id = pos 4;
  event = "order.confirmed";
  payload = "{}";
  status = "failed";
  error = "no answer";
  attempts = 3;
  next_retry = some 20;
  created_at = 12;
  updated_at = 15;
}

abbrev before_run : DeliveryWorld Log ℕ
before_run = record { log = failed_entry ∷ []; net = 0 }

-- The requests of the entry, which are counted.
abbrev is_own : HttpRequest → Bool
is_own q = str_eq q.url "https://shop.example/hook" && str_eq q.body "{}"

-- Every request is accepted.
abbrev accepting : WebhookDeliverer Log ℕ
accepting = record {
  log_repo = some table;
  request_error = λ url. none;
  do_request = λ q n. (ok 204, if is_own q then suc n else n);
  marshal_body = λ event at payload. ok payload;
  sign_payload = λ secret payload. secret;
  error_text = λ e. "no answer";
}

abbrev find_shop : KernelId → Result Webhook
find_shop id = ok shop

shop_live : (id : KernelId) (w : Webhook) → find_shop id ≡ ok w → w.is_active ≡ true
shop_live id w found = ground (arith, found)

row-Among :
    (k : ℤ) (l : Log) (r : DeliveryLogEntry)
    → r.status ≡ "failed"
    → row k l ≡ some r
    → Among r (failed_rows l)
row-Among k [] r failed has = absurd (ground (arith, has))
row-Among k (e ∷ l) r failed has = elim (Bool-cases (eqb_ℤ e.id k)) [
  | inl same ↦ let is_it : e ≡ r = ground (arith, same, has) in rw (is_it, failed) (inl refl)
  | inr apart ↦ elim (Bool-cases (str_eq e.status "failed")) [
    | inl shown ↦ rw shown (inr (row-Among k l r failed (rw (sym has) (rw apart refl))))
    | inr hidden ↦ rw hidden (row-Among k l r failed (rw (sym has) (rw apart refl)))
  ]
]

table-Lists : Lists table row (pos 1) failed_entry
table-Lists = record {
  saves = λ e l. refl;
  listed = λ l has. (failed_rows l, refl, row-Among (pos 1) l failed_entry refl has);
}

own-counted :
    (q : HttpRequest) (n : ℕ)
    → q.url ≡ "https://shop.example/hook"
    → q.body ≡ "{}"
    → (if is_own q then suc n else n) ≡ suc n
own-counted q n to_it own = rw (to_it, own) refl

accepting-Sends : Sends accepting failed_entry shop (λ n. n)
accepting-Sends = record {
  counts = λ q n. ground arith;
  counts_own = λ q at n to_it own. own-counted q n to_it (ground (arith, own));
  made = λ at. ("{}", refl);
  good = refl;
}

run_times_resends_example :
    let after = run_times accepting table find_shop 3 (λ i n. course) before_run in
    (3 ≤ after.net) × (row (pos 1) after.log ≡ some failed_entry)
run_times_resends_example =
    run_times_resends accepting table row refl table-KeepsOthers (pos 1) (ground arith) failed_entry
      table-Lists find_shop shop_live shop refl (λ n. n) accepting-Sends 3 (λ i n. course)
      before_run refl

-- The run delivers it, and logs the delivery under another id.
is_delivered :
    let after = run_once accepting table find_shop (λ n. course) before_run in
    (after.net ≡ 1)
    × (row (pos 2) after.log
        ≡ some (record failed_entry {
          id = pos 2;
          status = "delivered";
          error = "";
          attempts = 1;
          next_retry = none;
          created_at = 0;
          updated_at = 0;
        }))
unfolding run_once retry_each deliver attempts_from
is_delivered = (refl, refl)
