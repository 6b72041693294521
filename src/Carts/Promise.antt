-- ===== src/Carts/Promise.antt =====
-- What a cart promises to its callers: a quantity, or none, for each product. The order of the
-- lines and their names, prices and times are forgotten.
use mathlib.Core.Path.{fun_ext}
use mall.Base.{
  ◌≡◌, refl, Option, none, some, List, [], ◌∷◌, arith, ℤ, pos, eqb_ℤ, leb_ℤ, ltb_ℤ, if◌then◌else◌,
  eq_of_parts, Bool-cases, inl, inr,
}
use mall.Kernel.{KernelId, Error, Outcome, invalid, new_domain_error, not_found}
use mall.Carts.Lines.{CartItem, put_item, put_quantity, drop_item}
use mall.Carts.Changes.{Cart, remove_item, found_or_not}
use mall.Carts.LineLaws.{
  quantity_of, IsDistinct, joined, left, replaced, quantity_of-put_item, quantity_of-put_item_ne,
  quantity_of-drop_item, quantity_of-drop_item_ne, quantity_of-put_quantity,
  quantity_of-put_quantity_ne,
}
use mall.Carts.Life.{CartCall, adds, updates, removes, clears}

abbrev pub Quantities : Type 0
Quantities = KernelId → Option ℤ

abbrev pub quantities : Cart → Quantities
quantities c k = quantity_of k c.items

-- A function, changed at one product.
abbrev pub update : Quantities → KernelId → Option ℤ → Quantities
update f p q k = if eqb_ℤ k p then q else f k

abbrev missing : Option ℤ → Option Error
missing none = some (new_domain_error not_found "item not found in cart")
missing (some q) = none

abbrev removed : KernelId → Quantities → Quantities × Option Error
removed p f =
    if leb_ℤ p (pos 0)
    then (f, invalid "product_id must be positive")
    else (update f p none, missing (f p))

-- A call on the quantities: those after it, and the error it returns.
unfoldable pub promised : CartCall → Quantities → Quantities × Option Error
promised (adds item now) f =
    if leb_ℤ item.product_id (pos 0)
    then (f, invalid "product_id must be positive")
    else if leb_ℤ item.quantity (pos 0)
    then (f, invalid "quantity must be positive")
    else if ltb_ℤ item.unit_price (pos 0)
    then (f, invalid "unit_price must not be negative")
    else (update f item.product_id (joined (f item.product_id) (some item.quantity)), none)
promised (updates p q now) f =
    if leb_ℤ p (pos 0)
    then (f, invalid "product_id must be positive")
    else if ltb_ℤ q (pos 0)
    then (f, invalid "quantity must not be negative")
    else if eqb_ℤ q (pos 0)
    then removed p f
    else (update f p (replaced (f p) q), missing (f p))
promised (removes p now) f = removed p f
promised (clears now) f = (λ k. none, none)

-- What can be seen of a method's outcome.
abbrev pub seen : Outcome Cart → Quantities × Option Error
seen o = (quantities o.0, o.1)

-- The loops find a product exactly where it has a quantity.
pub missing-put_quantity :
    (p : KernelId) (q : ℤ) (now : _) (items : List CartItem) (c : Cart)
    → (found_or_not (put_quantity p q items) now c).1 ≡ missing (quantity_of p items)
unfolding quantity_of put_quantity
missing-put_quantity p q now [] c = refl
missing-put_quantity p q now (i ∷ items) c =
    let rest = missing-put_quantity p q now items c in ground (arith, rest)

pub missing-drop_item :
    (p : KernelId) (now : _) (items : List CartItem) (c : Cart)
    → (found_or_not (drop_item p items) now c).1 ≡ missing (quantity_of p items)
unfolding quantity_of drop_item
missing-drop_item p now [] c = refl
missing-drop_item p now (i ∷ items) c =
    let rest = missing-drop_item p now items c in ground (arith, rest)

-- The loops as changes of the quantities.
pub update-put_item :
    (item : CartItem) (items : List CartItem)
    → (λ k. quantity_of k (put_item item items))
      ≡ update
          (λ k. quantity_of k items)
          item.product_id
          (joined (quantity_of item.product_id items) (some item.quantity))
update-put_item item items = fun_ext λ k. elim (Bool-cases (eqb_ℤ k item.product_id)) [
  | inl same ↦
      let eq = eq_of_parts k item.product_id (ground (arith, same)) in
      ground (arith, quantity_of-put_item item items, eq)
  | inr other ↦ ground (arith, quantity_of-put_item_ne k item items)
]

update-drop_item :
    (p : KernelId) (items : List CartItem)
    → IsDistinct items
    → (λ k. quantity_of k (left (drop_item p items) items))
      ≡ update (λ k. quantity_of k items) p none
update-drop_item p items d = fun_ext λ k. elim (Bool-cases (eqb_ℤ k p)) [
  | inl same ↦
      let eq = eq_of_parts k p (ground (arith, same)) in
      ground (arith, quantity_of-drop_item p items d, eq)
  | inr other ↦ ground (arith, quantity_of-drop_item_ne k p items)
]

pub update-put_quantity :
    (p : KernelId) (q : ℤ) (items : List CartItem)
    → (λ k. quantity_of k (left (put_quantity p q items) items))
      ≡ update (λ k. quantity_of k items) p (replaced (quantity_of p items) q)
update-put_quantity p q items = fun_ext λ k. elim (Bool-cases (eqb_ℤ k p)) [
  | inl same ↦
      let eq = eq_of_parts k p (ground (arith, same)) in
      ground (arith, quantity_of-put_quantity p q items, eq)
  | inr other ↦ ground (arith, quantity_of-put_quantity_ne k p q items)
]

pub seen-found_or_not :
    (o : Option (List CartItem)) (now : _) (c : Cart) {f : Quantities} {e : Option Error}
    → (λ k. quantity_of k (left o c.items)) ≡ f
    → (found_or_not o now c).1 ≡ e
    → seen (found_or_not o now c) ≡ (f, e)
seen-found_or_not none now c same error = cc
seen-found_or_not (some items) now c same error = cc

pub remove_item-removed :
    (p : KernelId) (now : _) (c : Cart)
    → IsDistinct c.items
    → seen (remove_item p now c) ≡ removed p (quantities c)
unfolding remove_item
remove_item-removed p now c d = elim (Bool-cases (leb_ℤ p (pos 0))) [
  | inl bad ↦ rw bad refl
  | inr good ↦ rw good (
      seen-found_or_not (drop_item p c.items) now c (update-drop_item p c.items d)
        (missing-drop_item p now c.items c))
]
