-- ===== src/Checkout/Service.antt =====
-- domain/checkout/service.go, repository.go and defaults.go. The state of a call holds the stored
-- sessions, the publisher's calls, and what the services behind the other interfaces keep. Logging
-- and tracing are left out, and so are the methods that only read.
use mall.Base.{String, Bool, ◌||◌, Option, List, ℤ, pos, leb_ℤ, add64, no_items, str_eq}
use mall.Kernel.{
  KernelId, Time, ok, Outcome, Action, ◌>>=◌, ◌>>◌, pure, raise_if, from_result, from_outcome,
  Repository, from_save, publish_each, new_domain_error, invalid_argument,
}
use mall.Checkout.Values.{
  CartSnapshotItem, new_cart_snapshot, add_prices, Address, ShippingOption, CheckoutEvent,
  event_name,
}
use mall.Checkout.Session
use mall.Checkout.Session.{CheckoutSession, drop_events, in_state}

pub record TaxInput : Type 0 where
  pub items : List CartSnapshotItem
  pub subtotal : ℤ
  pub cost : ℤ
  pub address : Option Address

pub record TaxResult : Type 0 where
  pub tax_amount : ℤ
  pub provider : String

pub record PriceInput : Type 0 where
  pub items : List CartSnapshotItem
  pub shipping_cost : ℤ
  pub tax_amount : ℤ
  pub discount_code : String

pub record PriceResult : Type 0 where
  pub subtotal : ℤ
  pub shipping : ℤ
  pub tax : ℤ
  pub grand_total : ℤ

-- `DefaultTaxService.CalculateTax` and `DefaultPriceCalculator.Calculate`.
unfoldable pub default_tax : {X : Type 0} → TaxInput → Action X TaxResult
default_tax input = pure (record { tax_amount = pos 0; provider = "passthrough" })

unfoldable pub default_price : {X : Type 0} → PriceInput → Action X PriceResult
default_price input =
    let subtotal = add_prices (pos 0) input.items in
    pure (record {
      subtotal = subtotal;
      shipping = input.shipping_cost;
      tax = input.tax_amount;
      grand_total = add64 (add64 subtotal input.shipping_cost) input.tax_amount;
    })

-- The interfaces that the service is given, over what stands behind them.
pub record MandateVerifier (X : Type 0) : Type 0 where
  pub verify_and_execute : KernelId → KernelId → ℤ → Action X (Unit {0})
  pub verify_and_execute_with_token :
      KernelId → KernelId → ℤ → String → String → Action X (Unit {0})

pub record StripePaymentProcessor (X : Type 0) : Type 0 where
  -- the URL and the session's id
  pub create_checkout_session : CheckoutSession → Action X (String × String)
  -- the client secret and the intent's id
  pub create_payment_intent : KernelId → ℤ → Action X (String × String)
  pub get_payment_intent_status : String → Action X String

pub record CheckoutService (S X : Type 0) : Type 0 where
  pub repo : Repository S CheckoutSession KernelId
  pub calculate_tax : TaxInput → Action X TaxResult
  pub calculate : PriceInput → Action X PriceResult
  pub mandate_verifier : Option (MandateVerifier X)
  pub stripe_processor : Option (StripePaymentProcessor X)

pub record CheckoutWorld (S X : Type 0) : Type 0 where
  pub store : S
  pub outside : X
  pub published : List CheckoutSession

-- The names that `publishEvents` passes on.
abbrev pub is_published : CheckoutEvent → Bool
is_published e =
    str_eq (event_name e) "checkout.ready_for_complete"
    || str_eq (event_name e) "checkout.requires_escalation"
    || str_eq (event_name e) "checkout.completed"
    || str_eq (event_name e) "checkout.cancelled"

module _ {S X : Type 0} where
  abbrev pub ask : {A : Type 0} → Action X A → Action (CheckoutWorld S X) A
  ask m w = let (r, x) = m w.outside in (r, record w { outside = x })

  abbrev pub with_store : {A : Type 0} → Action S A → Action (CheckoutWorld S X) A
  with_store m w = let (r, s) = m w.store in (r, record w { store = s })

  unfoldable pub publish_events : CheckoutSession → Action (CheckoutWorld S X) CheckoutSession
  publish_events s w = (
    ok (drop_events s),
    record w { published = publish_each is_published s.events s w.published },
  )

module _ {S X : Type 0} (svc : CheckoutService S X) where
  abbrev pub find_session : KernelId → Action (CheckoutWorld S X) CheckoutSession
  find_session id = with_store (λ s. (svc.repo.find id s, s))

  abbrev pub save_session : CheckoutSession → Action (CheckoutWorld S X) (Unit {0})
  save_session session = with_store (from_save (svc.repo.save session))

  -- Save, publish the events, return the session: how every change ends.
  unfoldable pub save_and_publish : CheckoutSession → Action (CheckoutWorld S X) CheckoutSession
  unfolding publish_events
  save_and_publish session = do save_session session; publish_events session

  -- Find, change, save, publish.
  unfoldable pub modify_session :
      KernelId
      → (CheckoutSession → Outcome CheckoutSession)
      → Action (CheckoutWorld S X) CheckoutSession
  unfolding save_and_publish
  modify_session id method = do
    session ← find_session id
    changed ← from_outcome (method session)
    save_and_publish changed

  unfoldable pub create_checkout :
      KernelId
      → KernelId
      → KernelId
      → List CartSnapshotItem
      → Time
      → Time
      → Action (CheckoutWorld S X) CheckoutSession
  unfolding save_and_publish
  create_checkout checkout_id user_id cart_id cart_items created updated = do
    raise_if (leb_ℤ user_id (pos 0)) (new_domain_error invalid_argument "user_id must be positive")
    raise_if (no_items cart_items) (new_domain_error invalid_argument "cart must not be empty")
    session ← from_result (
        Session.new_checkout_session checkout_id user_id cart_id (new_cart_snapshot cart_items)
          created updated)
    save_and_publish session

  unfoldable pub set_shipping_address :
      KernelId → Address → Time → Action (CheckoutWorld S X) CheckoutSession
  unfolding modify_session
  set_shipping_address id address now = modify_session id (Session.set_shipping_address address now)

  unfoldable pub set_billing_address :
      KernelId → Address → Time → Action (CheckoutWorld S X) CheckoutSession
  unfolding modify_session
  set_billing_address id address now = modify_session id (Session.set_billing_address address now)

  unfoldable pub select_shipping_option :
      KernelId → ShippingOption → Time → Action (CheckoutWorld S X) CheckoutSession
  unfolding modify_session
  select_shipping_option id option now =
      modify_session id (Session.select_shipping_option option now)

  unfoldable pub select_mandate :
      KernelId → KernelId → Time → Action (CheckoutWorld S X) CheckoutSession
  unfolding modify_session
  select_mandate id mandate_id now = modify_session id (Session.select_mandate mandate_id now)

  unfoldable pub submit_payment_token :
      KernelId → String → String → Time → Action (CheckoutWorld S X) CheckoutSession
  unfolding modify_session
  submit_payment_token id provider token now =
      modify_session id (Session.submit_payment_token provider token now)

  unfoldable pub select_payment_handler :
      KernelId → String → Time → Action (CheckoutWorld S X) CheckoutSession
  unfolding modify_session
  select_payment_handler id handler now =
      modify_session id (Session.select_payment_handler handler now)

  unfoldable pub cancel : KernelId → Time → Action (CheckoutWorld S X) CheckoutSession
  unfolding modify_session
  cancel id now = modify_session id (Session.cancel now)

  unfoldable pub calculate_tax : KernelId → Time → Action (CheckoutWorld S X) CheckoutSession
  unfolding save_and_publish
  calculate_tax id now = do
    session ← find_session id
    result ← ask (
        svc.calculate_tax (record {
          items = session.cart_snapshot.items;
          subtotal = session.subtotal;
          cost = session.shipping_cost;
          address = session.shipping_address;
        }))
    save_and_publish (Session.set_tax_amount result.tax_amount now session)

  unfoldable pub mark_ready : KernelId → Time → Action (CheckoutWorld S X) CheckoutSession
  unfolding save_and_publish
  mark_ready id now = do
    session ← find_session id
    ready ← from_outcome (Session.mark_ready now session)
    result ← ask (
        svc.calculate (record {
          items = ready.cart_snapshot.items;
          shipping_cost = ready.shipping_cost;
          tax_amount = ready.tax_amount;
          discount_code = "";
        }))
    save_and_publish (record ready {
      subtotal = result.subtotal;
      shipping_cost = result.shipping;
      tax_amount = result.tax;
      grand_total = result.grand_total;
    })
