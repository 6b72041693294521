-- ===== src/Order/Creation.antt =====
-- The order that a checkout becomes.
use mall.Base.{◌≡◌, refl, sym, ◌∙◌, ◌↔◌, false, List, [], ◌∷◌, arith, ℤ, pos, add64, ◌<ℤ◌, is_none}
use mall.Kernel.{KernelId, Time, ok}
use mall.Checkout.Values.{
  completed, CartSnapshot, CartSnapshotItem, total_price, add_prices, new_cart_snapshot,
}
use mall.Checkout.Session.{CheckoutSession, new_checkout_session}
use mall.Checkout.Machine.{SessionCall, run}
use mall.Checkout.Totals.{run-IsPriced, run-cart_snapshot}
use mall.Order.Types.{OrderLineItem, Order}
use mall.Order.Life.{line_item, line_items, order_of, new_order_from_checkout}

-- The sum of the lines' total prices, as an int64.
abbrev pub add_lines : ℤ → List OrderLineItem → ℤ
add_lines total [] = total
add_lines total (l ∷ ls) = add_lines (add64 total l.total_price) ls

add_lines-line_items :
    (items : List CartSnapshotItem) (total : ℤ)
    → add_lines total (line_items items) ≡ add_prices total items
unfolding line_items line_item add_prices
add_lines-line_items [] total = refl
add_lines-line_items (i ∷ is) total = add_lines-line_items is (add64 total (total_price i))

pub new_order_is :
    (id : KernelId) (session : CheckoutSession) (now : Time) (o : Order)
    → new_order_from_checkout id session now ≡ ok o
    → (o ≡ order_of id session now) × (session.status ≡ completed) × (pos 0 <ℤ id)
unfolding new_order_from_checkout
new_order_is id session now o e = ground arith

pub new_order_made :
    (id : KernelId) (session : CheckoutSession) (now : Time)
    → session.status ≡ completed
    → pos 0 <ℤ id
    → new_order_from_checkout id session now ≡ ok (order_of id session now)
unfolding new_order_from_checkout
new_order_made id session now done positive = ground arith

-- An order is made exactly from a completed checkout under a positive id.
pub new_order_from_checkout_ok_iff :
    (id : KernelId) (session : CheckoutSession) (now : Time)
    → ((o : Order) × (new_order_from_checkout id session now ≡ ok o))
      ↔ ((session.status ≡ completed) × (pos 0 <ℤ id))
new_order_from_checkout_ok_iff id session now = (
  λ (o, e). let (_, done, positive) = new_order_is id session now o e in (done, positive),
  λ (done, positive). (order_of id session now, new_order_made id session now done positive),
)

order_of_money :
    (id : KernelId) (session : CheckoutSession) (now : Time)
    → let o = order_of id session now in
      (add_lines (pos 0) o.items ≡ add_prices (pos 0) session.cart_snapshot.items)
      × (o.subtotal ≡ session.subtotal)
      × (o.grand_total ≡ session.grand_total)
      × (o.shipping_cost ≡ session.shipping_cost)
      × (o.tax_amount ≡ session.tax_amount)
unfolding order_of
order_of_money id session now =
    (add_lines-line_items session.cart_snapshot.items (pos 0), refl, refl, refl, refl)

new_session_total :
    (cid user cart : KernelId) (items : List CartSnapshotItem) (t u : Time) (s : CheckoutSession)
    → new_checkout_session cid user cart (new_cart_snapshot items) t u ≡ ok s
    → s.cart_snapshot ≡ new_cart_snapshot items
unfolding new_checkout_session
new_session_total cid user cart items t u s e = ground arith

sums :
    (c : CartSnapshot) (items : List CartSnapshotItem)
    → c ≡ new_cart_snapshot items
    → add_prices (pos 0) c.items ≡ c.total
unfolding new_cart_snapshot
sums c items e = rw e refl

-- The order of a checkout that was created for a cart, taken through any methods and completed with
-- a shipping option: its lines add up to its subtotal, and its grand total is the sum of the
-- subtotal, the shipping cost and the tax, all as int64.
pub order_adds_up :
    (cid user cart : KernelId) (items : List CartSnapshotItem) (t u : Time) (s : CheckoutSession)
    (cs : List SessionCall) (id : KernelId) (now : Time) (o : Order)
    → new_checkout_session cid user cart (new_cart_snapshot items) t u ≡ ok s
    → is_none (run cs s).shipping_option ≡ false
    → new_order_from_checkout id (run cs s) now ≡ ok o
    → (add_lines (pos 0) o.items ≡ o.subtotal)
      × (o.grand_total ≡ add64 (add64 o.subtotal o.shipping_cost) o.tax_amount)
order_adds_up cid user cart items t u s cs id now o made shipped e =
    let priced = run-IsPriced cid user cart (new_cart_snapshot items) t u s cs made in
    let (lines, sub, grand, cost, tax) = order_of_money id (run cs s) now in
    let (is, _, _) = new_order_is id (run cs s) now o e in
    let same = run-cart_snapshot cs s ∙ new_session_total cid user cart items t u s made in
    let listed : add_prices (pos 0) (run cs s).cart_snapshot.items
        ≡ (run cs s).cart_snapshot.total =
      sums (run cs s).cart_snapshot items same in
    rw is (
      lines ∙ listed ∙ sym priced.frozen_subtotal ∙ sym sub,
      grand ∙ priced.totalled shipped ∙ cc (sub, cost, tax),
    )
