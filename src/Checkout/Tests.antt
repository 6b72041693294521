-- ===== src/Checkout/Tests.antt =====
-- The checkout theorems at a session for two pieces of one product.
use mall.Base.{ℕ, suc, ◌+◌, String, ◌≡◌, refl, inl, false, none, some, List, [], ◌∷◌, pos, add64}
use mall.Kernel.{Time, ok, memory}
use mall.Checkout.Values.{completed, checkout_created, is_valid, requires_escalation}
use mall.Checkout.Session.{CheckoutSession, new_checkout_session, set_tax_amount, drop_events}
use mall.Checkout.Session
use mall.Checkout.Machine.{
  marks_ready, perform, perform-⟶, run, IsCoherent, run-IsCoherent, run_closed, ◌⟶◌,
}
use mall.Checkout.Totals.{IsPriced, run-IsPriced}
use mall.Checkout.Service.{
  CheckoutService, CheckoutWorld, MandateVerifier, StripePaymentProcessor, save_and_publish,
  default_tax, default_price,
}
use mall.Checkout.Completion
use mall.Checkout.Completion.{start_complete, complete, confirm_stripe_payment, verify_mandate}
use mall.Checkout.Payment.{start_complete_succeeded}
use mall.Checkout.Unpaid.{finished}
use mall.Checkout.Samples.{home, post, snapshot, fresh, calls, new_fresh, calls_complete}

calls_total : (run calls fresh).grand_total ≡ pos 1400
unfolding perform Session.set_shipping_address Session.set_billing_address
    Session.select_shipping_option Session.select_payment_handler Session.mark_ready
    Session.complete is_valid add64
calls_total = refl

perform-⟶_example : fresh.status ⟶ (perform (marks_ready 30) fresh).0.status
perform-⟶_example = perform-⟶ (marks_ready 30) fresh

run-IsCoherent_example : IsCoherent (run calls fresh)
run-IsCoherent_example = run-IsCoherent (pos 1) (pos 2) (pos 3) snapshot 10 20 fresh calls new_fresh

run_closed_example : (run calls (run calls fresh)).status ≡ (run calls fresh).status
run_closed_example = run_closed calls (run calls fresh) (inl calls_complete)

run-IsPriced_example : IsPriced (run calls fresh)
run-IsPriced_example = run-IsPriced (pos 1) (pos 2) (pos 3) snapshot 10 20 fresh calls new_fresh

abbrev paid : CheckoutSession
paid = record fresh { status = completed; completed_at = some 40 }

-- A verifier that accepts mandate 5 and counts what it executes, and a Stripe that knows one
-- intent.
abbrev verifier : MandateVerifier ℕ
verifier = record {
  verify_and_execute = λ mandate user amount n. (ok tt, suc n);
  verify_and_execute_with_token = λ mandate user amount token provider n. (ok tt, suc n);
}

abbrev stripe : StripePaymentProcessor ℕ
stripe = record {
  create_checkout_session = λ s n. (ok ("https://pay", "cs_1"), n);
  create_payment_intent = λ id amount n. (ok ("secret", "pi_1"), n);
  get_payment_intent_status = λ intent n. (ok "succeeded", n);
}

abbrev service : CheckoutService (List CheckoutSession) ℕ
service = record {
  repo = memory (λ s. s.id) drop_events;
  calculate_tax = default_tax;
  calculate = default_price;
  mandate_verifier = some verifier;
  stripe_processor = some stripe;
}

abbrev world_of : CheckoutSession → CheckoutWorld (List CheckoutSession) ℕ
world_of s = record { store = s ∷ []; outside = 0; published = [] }

abbrev filled : String → CheckoutSession
filled handler = record fresh {
  shipping_address = some home;
  billing_address = some home;
  shipping_option = some post;
  payment_handler = handler;
  mandate_id = pos 5;
  stripe_payment_intent_id = "pi_1";
}

abbrev clock : ℕ → Time
clock i = 100 + i

abbrev completed_from : String → CheckoutSession
completed_from handler = drop_events (finished clock (filled handler))

-- The world after the call.
abbrev after : String → CheckoutWorld (List CheckoutSession) ℕ
after handler = (start_complete service (pos 1) "" clock (world_of (filled handler))).1

by_mandate :
    start_complete service (pos 1) "" clock (world_of (filled "ap2_mandate"))
    ≡ (ok (completed_from "ap2_mandate", false), after "ap2_mandate")
unfolding start_complete Completion.choose_completion Completion.choose_here Completion.complete_now
    Completion.check_intent Completion.check_mandate Completion.finish memory save_and_publish
    Session.mark_ready Session.complete verify_mandate
by_mandate = refl

by_stripe : start_complete service (pos 1) "" clock (world_of (filled "stripe")) ≡ (
  ok (
    drop_events (
        finished clock (record (filled "stripe") {
          root = record {
            entity = record { id = pos 1; created_at = 10; updated_at = 100 };
            events = checkout_created (pos 1) (pos 2) ∷ [];
          };
          stripe_payment_status = "succeeded";
        })),
    false,
  ),
  after "stripe",
)
unfolding start_complete Completion.choose_completion Completion.choose_here Completion.complete_now
    Completion.check_intent Completion.query_intent Completion.check_mandate Completion.finish
    memory save_and_publish Session.mark_ready Session.complete Session.set_stripe_payment_status
by_stripe = refl

saves :
    (d : CheckoutSession) (s : List CheckoutSession)
    → ((memory (λ (x : CheckoutSession). x.id) drop_events).save d s).0 ≡ none
unfolding memory
saves d s = refl

found_in :
    (s : CheckoutSession)
    → s.id ≡ pos 1
    → (memory (λ (x : CheckoutSession). x.id) drop_events).find (pos 1) (s ∷ []) ≡ ok s
unfolding memory
found_in s e = rw e

start_complete_succeeded_example : (stripe.get_payment_intent_status "pi_1" 0).0 ≡ ok "succeeded"
start_complete_succeeded_example =
    start_complete_succeeded service (pos 1) "" clock (world_of (filled "stripe")) (after "stripe")
      _ (filled "stripe") by_stripe (found_in (filled "stripe") refl) stripe refl refl refl

-- A session to be paid by a mandate, of which none was selected.
abbrev unpaid : CheckoutSession
unpaid = record (filled "ap2_mandate") { mandate_id = pos 0 }

-- A session that waits at Stripe.
abbrev waiting : CheckoutSession
waiting = record fresh {
  payment_handler = "stripe";
  status = requires_escalation;
  stripe_session_id = "cs_1";
}

confirms :
    (confirm_stripe_payment service (pos 1) "cs_1" clock (world_of waiting)).0
    ≡ ok (drop_events (Session.complete 100 101 waiting).0)
unfolding confirm_stripe_payment memory save_and_publish Session.complete
confirms = refl
