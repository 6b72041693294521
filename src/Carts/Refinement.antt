-- ===== src/Carts/Refinement.antt =====
-- The cart of domain/cart/cart.go does what it promises: every run of calls shows the errors and
-- the quantities of the same run on a function.
use mall.Base.{
  ◌≡◌, refl, ◌∙◌, none, Option, List, [], ◌∷◌, ℤ, pos, eqb_ℤ, leb_ℤ, ltb_ℤ, Bool-cases, inl, inr,
  ap,
}
use mall.Kernel.{KernelId, Time, Error, ok}
use mall.Carts.Lines.{CartItem}
use mall.Carts.Changes.{Cart, new_cart, add_item, update_quantity, clear}
use mall.Carts.LineLaws.{quantity_of, IsDistinct}
use mall.Carts.Life.{
  CartCall, adds, updates, removes, clears, perform_cart, perform_cart-IsDistinct, new_cart-items,
}
use mall.Carts.Promise.{
  Quantities, quantities, promised, seen, remove_item-removed, update-put_item, update-put_quantity,
  missing-put_quantity, seen-found_or_not,
}

adds-promised :
    (item : CartItem) (now : Time) (c : Cart)
    → seen (add_item item now c) ≡ promised (adds item now) (quantities c)
unfolding add_item promised
adds-promised item now c = elim (Bool-cases (leb_ℤ item.product_id (pos 0))) [
  | inl bad ↦ rw bad refl
  | inr named ↦ elim (Bool-cases (leb_ℤ item.quantity (pos 0))) [
    | inl bad ↦ rw (named, bad) refl
    | inr some_of_it ↦ elim (Bool-cases (ltb_ℤ item.unit_price (pos 0))) [
      | inl bad ↦ rw (named, some_of_it, bad) refl
      | inr priced ↦
          rw (named, some_of_it, priced) (ap (λ f. (f, none)) (update-put_item item c.items))
    ]
  ]
]

updates-promised :
    (p : KernelId) (q : ℤ) (now : Time) (c : Cart)
    → IsDistinct c.items
    → seen (update_quantity p q now c) ≡ promised (updates p q now) (quantities c)
unfolding update_quantity promised
updates-promised p q now c d = elim (Bool-cases (leb_ℤ p (pos 0))) [
  | inl bad ↦ rw bad refl
  | inr named ↦ elim (Bool-cases (ltb_ℤ q (pos 0))) [
    | inl bad ↦ rw (named, bad) refl
    | inr counted ↦ elim (Bool-cases (eqb_ℤ q (pos 0))) [
      | inl gone ↦ rw (counted, gone, named) (rw named at (remove_item-removed p now c d))
      | inr kept ↦
          rw (named, counted, kept)
            (seen-found_or_not _ now c (update-put_quantity p q c.items)
              (missing-put_quantity p q now c.items c))
    ]
  ]
]

-- One call: the quantities after it and its error are those that are promised.
perform_cart-promised :
    (call : CartCall) (c : Cart)
    → IsDistinct c.items
    → seen (perform_cart call c) ≡ promised call (quantities c)
unfolding promised clear quantity_of
perform_cart-promised (adds item now) c d = adds-promised item now c
perform_cart-promised (updates p q now) c d = updates-promised p q now c d
perform_cart-promised (removes p now) c d = remove_item-removed p now c d
perform_cart-promised (clears now) c d = refl

-- The errors of a run of calls, one for each, and the cart after it; the same of a function.
abbrev pub run_seen : List CartCall → Cart → List (Option Error) × Quantities
run_seen [] c = ([], quantities c)
run_seen (call ∷ calls) c =
    let o = perform_cart call c in let rest = run_seen calls o.0 in (o.1 ∷ rest.0, rest.1)

unfoldable pub run_promised : List CartCall → Quantities → List (Option Error) × Quantities
run_promised [] f = ([], f)
run_promised (call ∷ calls) f =
    let o = promised call f in let rest = run_promised calls o.0 in (o.1 ∷ rest.0, rest.1)

run_seen_refines :
    (calls : List CartCall) (c : Cart)
    → IsDistinct c.items
    → run_seen calls c ≡ run_promised calls (quantities c)
unfolding run_promised
run_seen_refines [] c d = refl
run_seen_refines (call ∷ calls) c d =
    let one = perform_cart-promised call c d in
    let rest = run_seen_refines calls (perform_cart call c).0 (perform_cart-IsDistinct call c d) in
    rw rest (
      ap
        (λ (o : Quantities × Option Error).
          (o.1 ∷ (run_promised calls o.0).0, (run_promised calls o.0).1))
        one)

-- Whatever is called on a new cart, in any sequence: each call returns the error that the same call
-- returns on a function from products to quantities, which starts empty, and the cart ends with the
-- quantities of that function. So the order of the lines, and what else they carry, is never seen.
pub run_cart_refines :
    (id user : KernelId) (t u : Time) (c : Cart) (calls : List CartCall)
    → new_cart id user t u ≡ ok c
    → run_seen calls c ≡ run_promised calls (λ k. none)
unfolding quantity_of
run_cart_refines id user t u c calls made =
    let empty = new_cart-items id user t u c made in
    run_seen_refines calls c (rw empty tt)
    ∙ ap (λ (items : List CartItem). run_promised calls (λ k. quantity_of k items)) empty
