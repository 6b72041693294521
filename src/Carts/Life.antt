-- ===== src/Carts/Life.antt =====
-- A cart under all the methods that change it.
use mall.Base.{
  ◌≡◌, ◌≢◌, refl, Option, none, some, inl, inr, List, [], ◌∷◌, arith, ℤ, pos, ◌<ℤ◌, ◌⊎◌,
}
use mall.Kernel.{KernelId, Time, ok, Outcome}
use mall.Carts.Lines.{CartItem, put_item, put_quantity, drop_item}
use mall.Carts.Changes.{Cart, new_cart, add_item, update_quantity, remove_item, clear, found_or_not}
use mall.Carts.LineLaws.{
  quantity_of, IsDistinct, joined, left, put_item-IsDistinct, drop_item-IsDistinct,
  put_quantity-IsDistinct, quantity_of-put_item, quantity_of-put_item_ne, quantity_of-drop_item,
  quantity_of-drop_item_ne,
}

pub data CartCall : Type 0 where
  adds : CartItem → Time → CartCall
  updates : KernelId → ℤ → Time → CartCall
  removes : KernelId → Time → CartCall
  clears : Time → CartCall

abbrev pub perform_cart : CartCall → Cart → Outcome Cart
perform_cart (adds item now) c = add_item item now c
perform_cart (updates p q now) c = update_quantity p q now c
perform_cart (removes p now) c = remove_item p now c
perform_cart (clears now) c = (clear now c, none)

found_or_not-items :
    (o : Option (List CartItem)) (now : Time) (c : Cart)
    → (found_or_not o now c).0.items ≡ left o c.items
found_or_not-items none now c = refl
found_or_not-items (some items) now c = refl

-- The lines after a call: as they were, or as the loop leaves them.
add_item-items :
    (item : CartItem) (now : Time) (c : Cart)
    → ((add_item item now c).0.items ≡ c.items)
      ⊎ ((add_item item now c).0.items ≡ put_item item c.items)
unfolding add_item
add_item-items item now c = ground arith

remove_item-items :
    (p : KernelId) (now : Time) (c : Cart)
    → ((remove_item p now c).0.items ≡ c.items)
      ⊎ ((remove_item p now c).0.items ≡ left (drop_item p c.items) c.items)
unfolding remove_item
remove_item-items p now c = ground (arith, found_or_not-items (drop_item p c.items) now c)

update_quantity-items :
    (p : KernelId) (q : ℤ) (now : Time) (c : Cart)
    → ((update_quantity p q now c).0.items ≡ c.items)
      ⊎ ((update_quantity p q now c).0.items ≡ (remove_item p now c).0.items)
      ⊎ ((update_quantity p q now c).0.items ≡ left (put_quantity p q c.items) c.items)
unfolding update_quantity
update_quantity-items p q now c =
    ground (arith, found_or_not-items (put_quantity p q c.items) now c)

clear-items : (now : Time) (c : Cart) → (clear now c).items ≡ []
unfolding clear
clear-items now c = refl

pub add_item_put :
    (item : CartItem) (now : Time) (c : Cart)
    → (add_item item now c).1 ≡ none
    → (add_item item now c).0.items ≡ put_item item c.items
unfolding add_item
add_item_put item now c done = ground arith

remove_item_dropped :
    (p : KernelId) (now : Time) (c : Cart)
    → pos 0 <ℤ p
    → (remove_item p now c).0.items ≡ left (drop_item p c.items) c.items
unfolding remove_item
remove_item_dropped p now c known = ground (arith, found_or_not-items (drop_item p c.items) now c)

remove_item-IsDistinct :
    (p : KernelId) (now : Time) (c : Cart)
    → IsDistinct c.items
    → IsDistinct (remove_item p now c).0.items
remove_item-IsDistinct p now c d = elim (remove_item-items p now c) [
  | inl same ↦ rw same d
  | inr dropped ↦ rw dropped (drop_item-IsDistinct p c.items d)
]

pub perform_cart-IsDistinct :
    (call : CartCall) (c : Cart) → IsDistinct c.items → IsDistinct (perform_cart call c).0.items
perform_cart-IsDistinct (adds item now) c d = elim (add_item-items item now c) [
  | inl same ↦ rw same d
  | inr put ↦ rw put (put_item-IsDistinct item c.items d)
]
perform_cart-IsDistinct (updates p q now) c d = elim (update_quantity-items p q now c) [
  | inl same ↦ rw same d
  | inr (inl removed) ↦ rw removed (remove_item-IsDistinct p now c d)
  | inr (inr changed) ↦ rw changed (put_quantity-IsDistinct p q c.items d)
]
perform_cart-IsDistinct (removes p now) c d = remove_item-IsDistinct p now c d
perform_cart-IsDistinct (clears now) c d = rw (clear-items now c) tt

abbrev pub run_cart : List CartCall → Cart → Cart
run_cart [] c = c
run_cart (call ∷ calls) c = run_cart calls (perform_cart call c).0

run_cart-IsDistinct_from :
    (calls : List CartCall) (c : Cart) → IsDistinct c.items → IsDistinct (run_cart calls c).items
run_cart-IsDistinct_from [] c d = d
run_cart-IsDistinct_from (call ∷ calls) c d =
    run_cart-IsDistinct_from calls (perform_cart call c).0 (perform_cart-IsDistinct call c d)

pub new_cart-items :
    (id user : KernelId) (t u : Time) (c : Cart) → new_cart id user t u ≡ ok c → c.items ≡ []
unfolding new_cart
new_cart-items id user t u c e = ground arith

-- Whatever is called on a new cart, in any sequence, with or without success: no product has two
-- lines.
pub run_cart-IsDistinct :
    (id user : KernelId) (t u : Time) (c : Cart) (calls : List CartCall)
    → new_cart id user t u ≡ ok c
    → IsDistinct (run_cart calls c).items
run_cart-IsDistinct id user t u c calls made =
    run_cart-IsDistinct_from calls c (rw (new_cart-items id user t u c made) tt)

-- An item that is added raises the quantity of its product, as an int64, or is its first line, and
-- changes the quantity of no other product.
pub add_item-quantity_of :
    (item : CartItem) (now : Time) (c : Cart)
    → (add_item item now c).1 ≡ none
    → (quantity_of item.product_id (add_item item now c).0.items
        ≡ joined (quantity_of item.product_id c.items) (some item.quantity))
      × ((p : KernelId)
          → p ≢ item.product_id
          → quantity_of p (add_item item now c).0.items ≡ quantity_of p c.items)
add_item-quantity_of item now c done =
    let put = add_item_put item now c done in
    rw put (quantity_of-put_item item c.items, λ p ne. quantity_of-put_item_ne p item c.items ne)

-- Where a product has one line: a removal that succeeds leaves none of it, and one that reports it
-- missing found none. No other product's quantity changes.
pub remove_item-quantity_of :
    (p : KernelId) (now : Time) (c : Cart)
    → IsDistinct c.items
    → pos 0 <ℤ p
    → (quantity_of p (remove_item p now c).0.items ≡ none)
      × ((k : KernelId)
          → k ≢ p
          → quantity_of k (remove_item p now c).0.items ≡ quantity_of k c.items)
remove_item-quantity_of p now c d known =
    rw (remove_item_dropped p now c known)
      (quantity_of-drop_item p c.items d, λ k ne. quantity_of-drop_item_ne k p c.items ne)
