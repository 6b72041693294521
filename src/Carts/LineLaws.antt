-- ===== src/Carts/LineLaws.antt =====
-- What the loops over the lines of a cart do to the quantity of each product.
use mall.Base.{
  ◌≡◌, ◌≢◌, refl, ◌∙◌, Option, none, some, inl, inr, List, [], ◌∷◌, arith, ℤ, add64, eqb_ℤ,
  if◌then◌else◌, eq_of_parts, Bool-cases, false,
}
use mall.Kernel.{KernelId}
use mall.Carts.Lines.{CartItem, onto, renewed, put_item, put_quantity, drop_item}

-- The quantity of the first line of a product.
unfoldable pub quantity_of : KernelId → List CartItem → Option ℤ
quantity_of p [] = none
quantity_of p (i ∷ items) = if eqb_ℤ i.product_id p then some i.quantity else quantity_of p items

-- One line for each product.
abbrev pub IsDistinct : List CartItem → Type 0
IsDistinct [] = Unit
IsDistinct (i ∷ items) = (quantity_of i.product_id items ≡ none) × IsDistinct items

-- What is there and what is added, as an int64.
abbrev pub joined : Option ℤ → Option ℤ → Option ℤ
joined none q = q
joined (some a) none = some a
joined (some a) (some b) = some (add64 a b)

pub quantity_of-put_item :
    (item : CartItem) (items : List CartItem)
    → quantity_of item.product_id (put_item item items)
      ≡ joined (quantity_of item.product_id items) (some item.quantity)
unfolding quantity_of put_item renewed
quantity_of-put_item item [] = ground arith
quantity_of-put_item item (e ∷ items) = ground (arith, quantity_of-put_item item items)

pub quantity_of-put_item_ne :
    (p : KernelId) (item : CartItem) (items : List CartItem)
    → p ≢ item.product_id
    → quantity_of p (put_item item items) ≡ quantity_of p items
unfolding quantity_of put_item renewed
quantity_of-put_item_ne p item [] ne = ground (arith, eq_of_parts item.product_id p)
quantity_of-put_item_ne p item (e ∷ items) ne = ground (
  arith,
  quantity_of-put_item_ne p item items ne,
  eq_of_parts e.product_id item.product_id,
  eq_of_parts e.product_id p,
)

pub quantity_of_nil : (p : KernelId) → quantity_of p [] ≡ none
unfolding quantity_of
quantity_of_nil p = refl

eqb_ℤ_ne : (a b : ℤ) → eqb_ℤ a b ≡ false → a ≢ b
eqb_ℤ_ne a b h e = ground (arith, e)

pub put_item-IsDistinct :
    (item : CartItem) (items : List CartItem) → IsDistinct items → IsDistinct (put_item item items)
unfolding put_item renewed
put_item-IsDistinct item [] d = (quantity_of_nil item.product_id, tt)
put_item-IsDistinct item (e ∷ items) d = elim (Bool-cases (eqb_ℤ e.product_id item.product_id)) [
  | inl same ↦ rw same d
  | inr other ↦ rw other (
    quantity_of-put_item_ne e.product_id item items (eqb_ℤ_ne e.product_id item.product_id other)
        ∙ d.0,
    put_item-IsDistinct item items d.1,
  )
]

-- The lines after a loop that found the product or left them as they are.
abbrev pub left : Option (List CartItem) → List CartItem → List CartItem
left none items = items
left (some rest) items = rest

abbrev pub replaced : Option ℤ → ℤ → Option ℤ
replaced none q = none
replaced (some a) q = some q

pub quantity_of-drop_item :
    (p : KernelId) (items : List CartItem)
    → IsDistinct items
    → quantity_of p (left (drop_item p items) items) ≡ none
unfolding quantity_of drop_item
quantity_of-drop_item p [] d = refl
quantity_of-drop_item p (i ∷ items) d =
    ground (arith, eq_of_parts i.product_id p, d.0, quantity_of-drop_item p items d.1)

pub quantity_of-drop_item_ne :
    (k p : KernelId) (items : List CartItem)
    → k ≢ p
    → quantity_of k (left (drop_item p items) items) ≡ quantity_of k items
unfolding quantity_of drop_item
quantity_of-drop_item_ne k p [] ne = refl
quantity_of-drop_item_ne k p (i ∷ items) ne = ground (
  arith,
  eq_of_parts i.product_id p,
  eq_of_parts i.product_id k,
  quantity_of-drop_item_ne k p items ne,
)

pub quantity_of-put_quantity :
    (p : KernelId) (q : ℤ) (items : List CartItem)
    → quantity_of p (left (put_quantity p q items) items) ≡ replaced (quantity_of p items) q
unfolding quantity_of put_quantity
quantity_of-put_quantity p q [] = refl
quantity_of-put_quantity p q (i ∷ items) = ground (arith, quantity_of-put_quantity p q items)

pub quantity_of-put_quantity_ne :
    (k p : KernelId) (q : ℤ) (items : List CartItem)
    → k ≢ p
    → quantity_of k (left (put_quantity p q items) items) ≡ quantity_of k items
unfolding quantity_of put_quantity
quantity_of-put_quantity_ne k p q [] ne = refl
quantity_of-put_quantity_ne k p q (i ∷ items) ne = ground (
  arith,
  eq_of_parts i.product_id p,
  eq_of_parts i.product_id k,
  quantity_of-put_quantity_ne k p q items ne,
)

left-onto :
    (o : Option (List CartItem)) (i : CartItem) (items : List CartItem)
    → left (onto o i) (i ∷ items) ≡ i ∷ left o items
left-onto none i items = refl
left-onto (some rest) i items = refl

pub drop_item-IsDistinct :
    (p : KernelId) (items : List CartItem)
    → IsDistinct items
    → IsDistinct (left (drop_item p items) items)
unfolding drop_item
drop_item-IsDistinct p [] d = d
drop_item-IsDistinct p (i ∷ items) d = elim (Bool-cases (eqb_ℤ i.product_id p)) [
  | inl same ↦ rw same d.1
  | inr other ↦
      rw (other, left-onto (drop_item p items) i items)
        (
          quantity_of-drop_item_ne i.product_id p items (eqb_ℤ_ne i.product_id p other) ∙ d.0,
          drop_item-IsDistinct p items d.1,
        )
]

pub put_quantity-IsDistinct :
    (p : KernelId) (q : ℤ) (items : List CartItem)
    → IsDistinct items
    → IsDistinct (left (put_quantity p q items) items)
unfolding put_quantity
put_quantity-IsDistinct p q [] d = d
put_quantity-IsDistinct p q (i ∷ items) d = elim (Bool-cases (eqb_ℤ i.product_id p)) [
  | inl same ↦ rw same d
  | inr other ↦
      rw (other, left-onto (put_quantity p q items) i items)
        (
          quantity_of-put_quantity_ne i.product_id p q items (eqb_ℤ_ne i.product_id p other) ∙ d.0,
          put_quantity-IsDistinct p q items d.1,
        )
]
