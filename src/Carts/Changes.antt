-- ===== src/Carts/Changes.antt =====
-- domain/cart/cart.go and events.go: the cart and its methods, with the clock readings that they
-- make.
use mall.Base.{
  ℕ, suc, String, not, Option, none, some, List, [], ◌∷◌, if◌then◌else◌, ℤ, pos, leb_ℤ, ltb_ℤ,
  eqb_ℤ, length,
}
use mall.Kernel.{
  KernelId, Time, AggregateRoot, new_aggregate_root, add_event, clear_events, touch_root, Result,
  ok, err, Outcome, invalid, new_domain_error, invalid_argument, not_found,
}
use mall.Carts.Lines.{CartItem, put_item, put_quantity, drop_item, add_up}

pub data CartStatus : Type 0 where
  active merged abandoned : CartStatus

-- Each event names the cart and its user.
pub data CartEvent : Type 0 where
  cart_created cart_updated cart_cleared cart_merged : KernelId → KernelId → CartEvent

abbrev pub event_name : CartEvent → String
event_name (cart_created c u) = "cart.created"
event_name (cart_updated c u) = "cart.updated"
event_name (cart_cleared c u) = "cart.cleared"
event_name (cart_merged c u) = "cart.merged"

pub record Cart : Type 0 where
  pub root : AggregateRoot CartEvent
  pub open root use *
  pub user_id : KernelId
  pub items : List CartItem
  pub status : CartStatus

abbrev pub raise_event : CartEvent → Cart → Cart
raise_event e c = record c { root = add_event e c.root }

abbrev pub touch : Time → Cart → Cart
touch now c = record c { root = touch_root now c.root }

abbrev pub drop_events : Cart → Cart
drop_events c = record c { root = clear_events c.root }

unfoldable pub new_cart : KernelId → KernelId → Time → Time → Result Cart
new_cart id user_id created updated =
    if leb_ℤ user_id (pos 0)
    then err (new_domain_error invalid_argument "user_id must be positive")
    else ok (
        raise_event (cart_created id user_id) (record {
          root = new_aggregate_root id created updated;
          user_id = user_id;
          items = [];
          status = active;
        }))

-- A change of the lines, `touch` and the event.
abbrev pub with_items : List CartItem → Time → Cart → Cart
with_items items now c =
    raise_event (cart_updated c.id c.user_id) (touch now (record c { items = items }))

unfoldable pub add_item : CartItem → Time → Cart → Outcome Cart
add_item item now c =
    if leb_ℤ item.product_id (pos 0)
    then (c, invalid "product_id must be positive")
    else if leb_ℤ item.quantity (pos 0)
    then (c, invalid "quantity must be positive")
    else if ltb_ℤ item.unit_price (pos 0)
    then (c, invalid "unit_price must not be negative")
    else (with_items (put_item item c.items) now c, none)

-- A loop that found the product, or not.
abbrev pub found_or_not : Option (List CartItem) → Time → Cart → Outcome Cart
found_or_not none now c = (c, some (new_domain_error not_found "item not found in cart"))
found_or_not (some items) now c = (with_items items now c, none)

unfoldable pub remove_item : KernelId → Time → Cart → Outcome Cart
remove_item product_id now c =
    if leb_ℤ product_id (pos 0)
    then (c, invalid "product_id must be positive")
    else found_or_not (drop_item product_id c.items) now c

unfoldable pub update_quantity : KernelId → ℤ → Time → Cart → Outcome Cart
update_quantity product_id quantity now c =
    if leb_ℤ product_id (pos 0)
    then (c, invalid "product_id must be positive")
    else if ltb_ℤ quantity (pos 0)
    then (c, invalid "quantity must not be negative")
    else if eqb_ℤ quantity (pos 0)
    then remove_item product_id now c
    else found_or_not (put_quantity product_id quantity c.items) now c

unfoldable pub clear : Time → Cart → Cart
clear now c = raise_event (cart_cleared c.id c.user_id) (touch now (record c { items = [] }))

pub record CartTotal : Type 0 where
  pub subtotal : ℤ
  pub item_count : ℕ

unfoldable pub get_total : Cart → CartTotal
get_total c = record { subtotal = add_up (pos 0) c.items; item_count = length c.items }

-- The rest of a loop that returns at the first error.
abbrev pub unless_error : Outcome Cart → Outcome Cart → Outcome Cart
unless_error (c, none) rest = rest
unless_error (c, some e) rest = (c, some e)

-- `Merge`'s loop; `clock i` is the reading of its i-th call.
unfoldable pub add_items : List CartItem → (ℕ → Time) → ℕ → Cart → Outcome Cart
add_items [] clock i c = (c, none)
add_items (item ∷ items) clock i c =
    let added = add_item item (clock i) c in
    let rest = add_items items clock (suc i) added.0 in unless_error added rest

unfoldable pub mark_merged : Cart → Cart
mark_merged c = raise_event (cart_merged c.id c.user_id) (record c { status = merged })

abbrev pub both_merged : Cart → Outcome Cart → Outcome (Cart × Cart)
both_merged other (c, none) = ((c, mark_merged other), none)
both_merged other (c, some e) = ((c, other), some e)

-- `c.Merge(other)` changes both carts.
unfoldable pub merge : Cart → (ℕ → Time) → Cart → Outcome (Cart × Cart)
merge other clock c =
    if not (eqb_ℤ c.user_id other.user_id)
    then ((c, other), invalid "cannot merge carts from different users")
    else both_merged other (add_items other.items clock 0 c)
