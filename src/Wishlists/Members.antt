-- ===== src/Wishlists/Members.antt =====
-- The loops of domain/wishlist/wishlist.go, by the products that are in the list.
use mathlib.Core.Path.{fun_ext}
use mall.Base.{
  ◌≡◌, refl, ◌∙◌, Bool, true, false, not, Option, none, some, List, [], ◌∷◌, ◌++◌, arith, eqb_ℤ,
  if◌then◌else◌, eq_of_parts, is_none, Bool-cases, inl, inr,
}
use mall.Kernel.{KernelId}
use mall.Wishlists.Wishlist.{WishlistItem, among, drop}

abbrev pub Members : Type 0
Members = KernelId → Bool

abbrev pub members : List WishlistItem → Members
members items p = among p items

-- A set, changed at one product.
abbrev pub update : Members → KernelId → Bool → Members
update f p b k = if eqb_ℤ k p then b else f k

-- No product twice.
abbrev pub IsDistinct : List WishlistItem → Type 0
IsDistinct [] = Unit
IsDistinct (i ∷ items) = (among i.product_id items ≡ false) × IsDistinct items

-- The list after a loop that found the product or left it as it was.
abbrev pub left : Option (List WishlistItem) → List WishlistItem → List WishlistItem
left none items = items
left (some rest) items = rest

pub among_nil : (p : KernelId) → among p [] ≡ false
unfolding among
among_nil p = refl

among-append :
    (p : KernelId) (items : List WishlistItem) (i : WishlistItem)
    → among p (items ++ (i ∷ [])) ≡ (if eqb_ℤ p i.product_id then true else among p items)
unfolding among
among-append p [] i = ground (arith, eq_of_parts i.product_id p, eq_of_parts p i.product_id)
among-append p (j ∷ items) i = ground (arith, among-append p items i)

pub members-append :
    (items : List WishlistItem) (i : WishlistItem)
    → members (items ++ (i ∷ [])) ≡ update (members items) i.product_id true
members-append items i = fun_ext λ p. among-append p items i

among-drop :
    (k p : KernelId) (items : List WishlistItem)
    → IsDistinct items
    → among k (left (drop p items) items) ≡ (if eqb_ℤ k p then false else among k items)
unfolding among drop
among-drop k p [] d = ground arith
among-drop k p (i ∷ items) d = ground (
  arith,
  among-drop k p items d.1,
  d.0,
  eq_of_parts i.product_id p,
  eq_of_parts i.product_id k,
  eq_of_parts k p,
)

pub members-drop :
    (p : KernelId) (items : List WishlistItem)
    → IsDistinct items
    → members (left (drop p items) items) ≡ update (members items) p false
members-drop p items d = fun_ext λ k. among-drop k p items d

pub drop_none :
    (p : KernelId) (items : List WishlistItem) → is_none (drop p items) ≡ not (among p items)
unfolding among drop
drop_none p [] = refl
drop_none p (i ∷ items) = ground (arith, drop_none p items)

pub append-IsDistinct :
    (items : List WishlistItem) (i : WishlistItem)
    → IsDistinct items
    → among i.product_id items ≡ false
    → IsDistinct (items ++ (i ∷ []))
unfolding among
append-IsDistinct [] i d new = (refl, tt)
append-IsDistinct (j ∷ items) i d new = (
  ground
      (arith, among-append j.product_id items i, d.0, new, eq_of_parts j.product_id i.product_id),
  append-IsDistinct items i d.1 (ground (arith, new)),
)

left-drop :
    (p : KernelId) (i : WishlistItem) (items : List WishlistItem)
    → eqb_ℤ i.product_id p ≡ false
    → left (drop p (i ∷ items)) (i ∷ items) ≡ i ∷ left (drop p items) items
unfolding drop
left-drop p i items other = ground (arith, other)

left-drop_here :
    (p : KernelId) (i : WishlistItem) (items : List WishlistItem)
    → eqb_ℤ i.product_id p ≡ true
    → left (drop p (i ∷ items)) (i ∷ items) ≡ items
unfolding drop
left-drop_here p i items same = ground (arith, same)

pub drop-IsDistinct :
    (p : KernelId) (items : List WishlistItem)
    → IsDistinct items
    → IsDistinct (left (drop p items) items)
unfolding drop
drop-IsDistinct p [] d = d
drop-IsDistinct p (i ∷ items) d = elim (Bool-cases (eqb_ℤ i.product_id p)) [
  | inl same ↦ rw (left-drop_here p i items same) d.1
  | inr other ↦
      rw (left-drop p i items other)
        (among-drop i.product_id p items d.1 ∙ rw other d.0, drop-IsDistinct p items d.1)
]
