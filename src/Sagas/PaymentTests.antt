-- ===== src/Sagas/PaymentTests.antt =====
-- The theorems on the sagas that pay for a checkout and make its order.
use Prim.Native.String.{◌++◌ as concat}
use mall.Base.{
  ℕ, suc, ◌+◌, String, ◌≡◌, ◌≢◌, refl, none, some, List, [], ◌∷◌, arith, pos, false, decimal,
}
use mall.Kernel.{
  KernelId, Time, Error, ok, err, Action, Repository, memory, memory-IsFaithful, new_domain_error,
  not_found, create_stored,
}
use mall.Payment.Mandate.{
  has_expired, approved, Mandate, MandateScope, requested, mandate_requested,
}
use mall.Payment.Service.{WalletTokenValidator}
use mall.Checkout.Session
use mall.Checkout.Session.{CheckoutSession, drop_events}
use mall.Checkout.Service.{
  CheckoutService, CheckoutWorld, save_and_publish, default_tax, default_price,
}
use mall.Checkout.Completion
use mall.Checkout.Completion.{start_complete, verify_mandate}
use mall.Checkout.Unpaid.{finished}
use mall.Checkout.Samples.{line, home, post, fresh}
use mall.Order.Types.{Order}
use mall.Order.Life
use mall.Order.Service as OrderService
use mall.Sagas.Handlers.{SagaPaymentReq, Body, decoded, execute_mandate}
use mall.Sagas.Branches.{DtmClient, DtmMandateSaga, make_mandate_submit, execute_saga}
use mall.Sagas.Mandates
use mall.Sagas.Mandates.{MandateWorld, verify_and_execute, checkout_mandate_verifier}
use mall.Sagas.Covered.{IsCovered, verify_and_execute_unapproved, start_complete-IsCovered}
use mall.Sagas.Orders
use mall.Sagas.Orders.{
  CheckoutCompletedPayload, SagaClock, SagaWorld, DtmCheckoutSaga, DtmWorld, handle, handle_dtm,
  FindByCheckout,
}
use mall.Sagas.Idempotence.{IsIndexed, handle_twice}

abbrev text : Error → String
text e = "error"

abbrev scope : MandateScope
scope = record { max_amount = pos 5000; merchant_id = pos 9; expiry = 500; allowed_handlers = [] }

-- It was requested and never approved.
abbrev mandate : Mandate
mandate = record {
  root = record {
    entity = record { id = pos 5; created_at = 100; updated_at = 101 };
    events = mandate_requested (pos 5) (pos 2) (pos 5000) (pos 9) ∷ [];
  };
  user_id = pos 2;
  status = requested;
  scope = scope;
  signature = "";
  token = "";
}

abbrev mandates : Repository (List Mandate) Mandate KernelId
mandates = memory (λ m. m.id) (λ m. m)

found_mandate : mandates.find (pos 5) (mandate ∷ []) ≡ ok mandate
unfolding memory
found_mandate = refl

-- A server that accepts every saga, and counts them.
abbrev client : DtmClient ℕ
client req n = (none, suc n)

abbrev saga : DtmMandateSaga ℕ
saga = record {
  submit_fn = make_mandate_submit client "secret";
  dtm_server = "http://dtm";
  cb_url = "http://mall";
}

abbrev wallet : MandateWorld (List Mandate) ℕ
wallet = record { mandates = mandate ∷ []; dtm = 0 }

abbrev body : Body SagaPaymentReq
body = decoded (record { mandate_id = pos 5; token = "t" })

requested_not_approved : requested ≢ approved
requested_not_approved e = ground (arith, e)

accepted : (execute_saga saga (pos 5) (concat "checkout-" (decimal (pos 5))) 0).0 ≡ none
unfolding execute_saga make_mandate_submit
accepted = refl

verify_and_execute_unapproved_example :
    let (result, w') = verify_and_execute mandates saga 400 (pos 5) (pos 2) (pos 1400) wallet in
    let (reply, s) = execute_mandate mandates text body w'.mandates in
    (result ≡ ok tt) × (w'.mandates ≡ mandate ∷ []) × (reply.status ≡ 409) × (s ≡ mandate ∷ [])
verify_and_execute_unapproved_example =
    verify_and_execute_unapproved mandates saga 400 text (pos 5) (pos 2) (pos 1400) mandate "t"
      wallet found_mandate (refl, omega arith, omega arith) requested_not_approved accepted

abbrev validate : WalletTokenValidator
validate token provider = err (new_domain_error not_found "no such provider")

abbrev service : CheckoutService (List CheckoutSession) (MandateWorld (List Mandate) ℕ)
service = record {
  repo = memory (λ s. s.id) drop_events;
  calculate_tax = default_tax;
  calculate = default_price;
  mandate_verifier = some (checkout_mandate_verifier mandates saga 400 validate);
  stripe_processor = none;
}

abbrev session : CheckoutSession
session = record fresh {
  shipping_address = some home;
  billing_address = some home;
  shipping_option = some post;
  payment_handler = "ap2_mandate";
  mandate_id = pos 5;
  grand_total = pos 1400;
}

abbrev world : CheckoutWorld (List CheckoutSession) (MandateWorld (List Mandate) ℕ)
world = record { store = session ∷ []; outside = wallet; published = [] }

abbrev clock : ℕ → Time
clock i = 100 + i

abbrev done : CheckoutSession
done = drop_events (finished clock session)

abbrev after : CheckoutWorld (List CheckoutSession) (MandateWorld (List Mandate) ℕ)
after = (start_complete service (pos 1) "" clock world).1

completes_by_mandate : start_complete service (pos 1) "" clock world ≡ (ok (done, false), after)
unfolding start_complete Completion.choose_completion Completion.choose_here Completion.complete_now
    Completion.check_intent Completion.check_mandate Completion.finish memory save_and_publish
    Session.mark_ready Session.complete verify_mandate checkout_mandate_verifier verify_and_execute
    Mandates.check_terms Mandates.submit_mandate execute_saga make_mandate_submit has_expired
completes_by_mandate = refl

found_session : service.repo.find (pos 1) (session ∷ []) ≡ ok session
unfolding memory
found_session = refl

start_complete-IsCovered_example :
    (m : Mandate) × (mandates.find (pos 5) (mandate ∷ []) ≡ ok m)
    × IsCovered m (pos 2) (pos 1400) 400
start_complete-IsCovered_example =
    start_complete-IsCovered mandates saga 400 validate service refl (pos 1) "" clock world after
      done session completes_by_mandate found_session refl (omega arith)

-- Orders in memory, one for each checkout.
abbrev orders : Repository (List Order) Order KernelId
orders = memory (λ o. o.checkout_id) (λ o. o)

orders-IsIndexed : IsIndexed orders orders.find
orders-IsIndexed = record {
  find_saved = λ o s saved. (
    o,
    (memory-IsFaithful (λ (x : Order). x.checkout_id) (λ x. x) (λ x. refl)).find_saved o s saved,
  );
}

abbrev event : CheckoutCompletedPayload
event = record {
  checkout_id = pos 1;
  user_id = pos 2;
  cart_id = pos 3;
  status = "completed";
  subtotal = pos 900;
  shipping_cost = pos 500;
  tax_amount = pos 0;
  grand_total = pos 1400;
  payment_handler = "ap2_mandate";
  mandate_id = pos 5;
  items = line ∷ [];
  shipping_address = some home;
  billing_address = some home;
  shipping_option = some post;
}

abbrev ids : Action ℕ KernelId
ids n = (ok (pos (suc n)), suc n)

abbrev at : Time → SagaClock
at t = record { now = t; created = t + 1; updated = t + 2; ordered = t + 3 }

abbrev shop : SagaWorld (List Order) ℕ
shop = record { orders = record { store = []; published = [] }; ids = 40 }

abbrev ordered : SagaWorld (List Order) ℕ
ordered = (handle orders orders.find ids (ok event) (at 100) shop).1

first_delivery : handle orders orders.find ids (ok event) (at 100) shop ≡ (none, ordered)
unfolding handle OrderService.create_order create_stored Life.new_order_from_checkout
    OrderService.publish_events memory Orders.rebuild_session
first_delivery = refl

handle_twice_example : handle orders orders.find ids (ok event) (at 200) ordered ≡ (none, ordered)
handle_twice_example =
    handle_twice orders orders.find orders-IsIndexed ids (ok event) (at 100) (at 200) shop ordered
      first_delivery

abbrev dtm_saga : DtmCheckoutSaga ℕ (List String)
dtm_saga = record {
  submit_fn = λ server gid url items mandate order log. (none, gid ∷ log);
  dtm_server = "http://dtm";
  cb_url = "http://mall";
  id_gen = ids;
}

nothing_ordered : orders.find (pos 1) [] ≡ err (new_domain_error not_found "not found")
unfolding memory
nothing_ordered = refl
