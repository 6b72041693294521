-- ===== src/Wishlists/Wishlist.antt =====
-- domain/wishlist/wishlist.go.
use mall.Base.{
  ℕ, Bool, true, false, Option, none, some, List, [], ◌∷◌, ◌++◌, if◌then◌else◌, pos, eqb_ℤ, length,
}
use mall.Kernel.{
  KernelId, Time, AggregateRoot, new_aggregate_root, add_event, touch_root, Result, ok, err,
  Outcome, invalid, new_domain_error, invalid_argument, already_exists, not_found,
}

pub record WishlistItem : Type 0 where
  pub product_id : KernelId
  pub added_at : Time

-- Each event names the wishlist and its user; two name a product.
pub data WishlistEvent : Type 0 where
  wishlist_created wishlist_cleared : KernelId → KernelId → WishlistEvent
  wishlist_item_added wishlist_item_removed : KernelId → KernelId → KernelId → WishlistEvent

pub record Wishlist : Type 0 where
  pub root : AggregateRoot WishlistEvent
  pub open root use *
  pub user_id : KernelId
  pub items : List WishlistItem

unfoldable pub new_wishlist : KernelId → KernelId → Time → Time → Result Wishlist
new_wishlist id user_id created updated =
    if eqb_ℤ id (pos 0)
    then err (new_domain_error invalid_argument "wishlist id must not be empty")
    else if eqb_ℤ user_id (pos 0)
    then err (new_domain_error invalid_argument "user id must not be empty")
    else ok (record {
      root = add_event (wishlist_created id user_id) (new_aggregate_root id created updated);
      user_id = user_id;
      items = [];
    })

-- The loop of `AddItem` and of `Contains`.
unfoldable pub among : KernelId → List WishlistItem → Bool
among p [] = false
among p (i ∷ items) = if eqb_ℤ i.product_id p then true else among p items

abbrev pub with_items : List WishlistItem → Time → WishlistEvent → Wishlist → Wishlist
with_items items now e w = record w { root = add_event e (touch_root now w.root); items = items }

-- `added` is the reading for the item, `now` the one for the wishlist.
unfoldable pub add_item : KernelId → Time → Time → Wishlist → Outcome Wishlist
add_item product_id added now w =
    if eqb_ℤ product_id (pos 0)
    then (w, invalid "product id must not be empty")
    else if among product_id w.items
    then (w, some (new_domain_error already_exists "product already in wishlist"))
    else (
      with_items (w.items ++ ((record { product_id = product_id; added_at = added }) ∷ [])) now
          (wishlist_item_added w.id w.user_id product_id) w,
      none,
    )

-- `RemoveItem`'s loop.
unfoldable pub drop : KernelId → List WishlistItem → Option (List WishlistItem)
drop p [] = none
drop p (i ∷ items) =
    let rest = drop p items in
    if eqb_ℤ i.product_id p then some items else elim rest [ none ↦ none | some r ↦ some (i ∷ r) ]

abbrev pub dropped : Option (List WishlistItem) → KernelId → Time → Wishlist → Outcome Wishlist
dropped none p now w = (w, some (new_domain_error not_found "product not in wishlist"))
dropped (some items) p now w =
    (with_items items now (wishlist_item_removed w.id w.user_id p) w, none)

unfoldable pub remove_item : KernelId → Time → Wishlist → Outcome Wishlist
remove_item product_id now w =
    if eqb_ℤ product_id (pos 0)
    then (w, invalid "product id must not be empty")
    else dropped (drop product_id w.items) product_id now w

unfoldable pub clear : Time → Wishlist → Wishlist
clear now w = with_items [] now (wishlist_cleared w.id w.user_id) w

unfoldable pub contains : KernelId → Wishlist → Bool
unfolding among
contains p w = among p w.items

unfoldable pub item_count : Wishlist → ℕ
item_count w = length w.items
