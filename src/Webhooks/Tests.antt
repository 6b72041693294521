-- ===== src/Webhooks/Tests.antt =====
-- The theorems on deliveries at a shop's webhook: two refused requests and an accepted one, and an
-- entry of an earlier delivery that failed.
use mall.Base.{ℕ, zero, suc, ◌≡◌, refl, true, Option, none, some, pos, List, [], ◌∷◌}
use mall.Kernel.{Result, ok, err, foreign, new_aggregate_root}
use mall.Webhooks.Webhook.{DeliveryLogEntry, DeliveryLogRepository, Webhook}
use mall.Webhooks.Delivery.{WebhookDeliverer, Course, deliver}
use mall.Webhooks.Outcome.{IsReliable, first_success, seen, seen_at, deliver-first_success}

abbrev Log : Type 0
Log = List DeliveryLogEntry

abbrev shop : Webhook
shop = record {
  root = new_aggregate_root (pos 4) 10 11;
  user_id = pos 2;
  url = "https://shop.example/hook";
  secret = "mint";
  event_names = "order.confirmed" ∷ [];
  is_active = true;
}

abbrev course : Course
course = record { started = 5000000; ended = 9000000; cancelled = λ i. none }

-- A log that gives every entry the same id.
abbrev keeps_all : DeliveryLogRepository Log
keeps_all = record {
  save = λ e l. ((record e { id = pos 1 }, none), record e { id = pos 1 } ∷ l);
  mark_retried = λ k l. (none, l);
  mark_delivered = λ k l. (none, l);
  list_failed_due_for_retry = λ n l. ok [];
}

abbrev last : Log → Option DeliveryLogEntry
last [] = none
last (e ∷ l) = some e

keeps_all-IsReliable : IsReliable keeps_all last
keeps_all-IsReliable = record { keeps = λ e l. (pos 1, record e { id = pos 1 } ∷ l, refl, refl) }

-- The third request is accepted.
abbrev answer : ℕ → Result ℕ
answer zero = err (foreign "no route")
answer (suc zero) = ok 503
answer (suc (suc n)) = ok 204

abbrev deliverer : DeliveryLogRepository Log → WebhookDeliverer Log ℕ
deliverer repo = record {
  log_repo = some repo;
  request_error = λ url. none;
  do_request = λ r n. (answer n, suc n);
  marshal_body = λ event at payload. ok payload;
  sign_payload = λ secret payload. secret;
  error_text = λ e. "no answer";
}

deliver-first_success_example :
    seen (deliverer keeps_all) last (
      deliver
        (deliverer keeps_all)
        shop
        "order.confirmed"
        "{}"
        course
        (record { log = []; net = 0 }))
    ≡ seen_at 3 0 0 (first_success 3 answer 0)
deliver-first_success_example =
    deliver-first_success (deliverer keeps_all) last keeps_all refl keeps_all-IsReliable answer shop
      "order.confirmed" "{}" "{}" course [] 0 (λ r n. refl) refl (λ i. refl) refl

third_request : seen_at 3 0 0 (first_success 3 answer 0) ≡ (true, some ("delivered", 3), 3)
unfolding first_success
third_request = refl
