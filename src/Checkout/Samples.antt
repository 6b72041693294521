-- ===== src/Checkout/Samples.antt =====
-- A session for two pieces of one product, and the calls that take it to its end.
use mall.Base.{◌≡◌, refl, false, none, List, [], ◌∷◌, pos, add64, mul64, is_none}
use mall.Kernel.{ok}
use mall.Checkout.Values.{
  incomplete, completed, checkout_created, is_valid, CartSnapshotItem, CartSnapshot,
  new_cart_snapshot, Address, ShippingOption, total_price, add_prices,
}
use mall.Checkout.Session.{CheckoutSession, new_checkout_session, set_tax_amount, drop_events}
use mall.Checkout.Session
use mall.Checkout.Machine.{
  SessionCall, marks_ready, sets_shipping_address, sets_billing_address, selects_shipping_option,
  selects_payment_handler, completes, perform, run,
}

abbrev pub line : CartSnapshotItem
line = record {
  product_id = pos 7;
  sku = "sku-7";
  name = "cup";
  quantity = pos 2;
  unit_price = pos 450;
  image_url = "";
}

abbrev pub home : Address
home = record {
  line1 = "1 Main St";
  line2 = "";
  city = "Springfield";
  state = "IL";
  postal_code = "62701";
  country = "US";
}

abbrev pub post : ShippingOption
post = record { id = "std"; name = "Standard"; cost = pos 500; estimated = "" }

abbrev pub snapshot : CartSnapshot
snapshot = record { items = line ∷ []; total = pos 900 }

pub new_cart_snapshot_total : new_cart_snapshot (line ∷ []) ≡ snapshot
unfolding new_cart_snapshot add_prices total_price add64 mul64
new_cart_snapshot_total = refl

abbrev pub fresh : CheckoutSession
fresh = record {
  root = record {
    entity = record { id = pos 1; created_at = 10; updated_at = 20 };
    events = checkout_created (pos 1) (pos 2) ∷ [];
  };
  user_id = pos 2;
  cart_id = pos 3;
  cart_snapshot = snapshot;
  shipping_address = none;
  billing_address = none;
  shipping_option = none;
  payment_handler = "";
  mandate_id = pos 0;
  wallet_provider = "";
  wallet_token = "";
  subtotal = pos 900;
  shipping_cost = pos 0;
  tax_amount = pos 0;
  grand_total = pos 0;
  status = incomplete;
  continue_url = "";
  stripe_session_id = "";
  stripe_payment_intent_id = "";
  stripe_payment_status = "";
  completed_at = none;
}

pub new_fresh : new_checkout_session (pos 1) (pos 2) (pos 3) snapshot 10 20 ≡ ok fresh
unfolding new_checkout_session
new_fresh = refl

abbrev pub calls : List SessionCall
calls =
    sets_shipping_address home 30
    ∷ sets_billing_address home 31
    ∷ selects_shipping_option post 32
    ∷ selects_payment_handler "mock" 33
    ∷ marks_ready 34
    ∷ completes 35 36
    ∷ []

pub calls_complete : (run calls fresh).status ≡ completed
unfolding perform Session.set_shipping_address Session.set_billing_address
    Session.select_shipping_option Session.select_payment_handler Session.mark_ready
    Session.complete is_valid
calls_complete = refl

pub calls_shipped : is_none (run calls fresh).shipping_option ≡ false
unfolding perform Session.set_shipping_address Session.set_billing_address
    Session.select_shipping_option Session.select_payment_handler Session.mark_ready
    Session.complete is_valid
calls_shipped = refl
