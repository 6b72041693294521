-- ===== src/Wishlists/Refinement.antt =====
-- The wishlist of domain/wishlist/wishlist.go is a set of products: every run of calls shows the
-- errors and the members of the same run on a set.
use mall.Base.{
  ◌≡◌, refl, ap, ◌∙◌, Bool, true, false, not, Option, none, some, List, [], ◌∷◌, arith, pos, eqb_ℤ,
  if◌then◌else◌, Bool-cases, inl, inr, is_none,
}
use mall.Kernel.{
  KernelId, Time, Error, ok, Outcome, invalid, new_domain_error, already_exists, not_found,
}
use mall.Wishlists.Wishlist.{
  Wishlist, WishlistItem, new_wishlist, among, drop, dropped, add_item, remove_item, clear,
}
use mall.Wishlists.Members.{
  Members, members, update, IsDistinct, left, members-append, members-drop, drop_none,
  append-IsDistinct, drop-IsDistinct,
}

pub data WishCall : Type 0 where
  adds : KernelId → Time → Time → WishCall
  removes : KernelId → Time → WishCall
  clears : Time → WishCall

abbrev pub perform_wish : WishCall → Wishlist → Outcome Wishlist
perform_wish (adds p added now) w = add_item p added now w
perform_wish (removes p now) w = remove_item p now w
perform_wish (clears now) w = (clear now w, none)

-- A call on a set: the set after it, and the error it returns.
unfoldable pub wish_promised : WishCall → Members → Members × Option Error
wish_promised (adds p added now) f =
    if eqb_ℤ p (pos 0)
    then (f, invalid "product id must not be empty")
    else if f p
    then (f, some (new_domain_error already_exists "product already in wishlist"))
    else (update f p true, none)
wish_promised (removes p now) f =
    if eqb_ℤ p (pos 0) then (f, invalid "product id must not be empty") else (
      update f p false,
      if f p then none else some (new_domain_error not_found "product not in wishlist"),
    )
wish_promised (clears now) f = (λ p. false, none)

abbrev seen : Outcome Wishlist → Members × Option Error
seen o = (members o.0.items, o.1)

seen-dropped :
    (o : Option (List WishlistItem)) (p : KernelId) (now : Time) (w : Wishlist)
    → seen (dropped o p now w) ≡ (
      members (left o w.items),
      if is_none o then some (new_domain_error not_found "product not in wishlist") else none,
    )
seen-dropped none p now w = refl
seen-dropped (some items) p now w = refl

dropped-IsDistinct :
    (o : Option (List WishlistItem)) (p : KernelId) (now : Time) (w : Wishlist)
    → IsDistinct (left o w.items)
    → IsDistinct (dropped o p now w).0.items
dropped-IsDistinct none p now w d = d
dropped-IsDistinct (some items) p now w d = d

if_not : {A : Type 0} (b : Bool) (x y : A) → (if not b then x else y) ≡ (if b then y else x)
if_not true x y = refl
if_not false x y = refl

perform_wish-promised :
    (c : WishCall) (w : Wishlist)
    → IsDistinct w.items
    → seen (perform_wish c w) ≡ wish_promised c (members w.items)
unfolding wish_promised add_item remove_item clear among
perform_wish-promised (adds p added now) w d = elim (Bool-cases (eqb_ℤ p (pos 0))) [
  | inl bad ↦ rw bad refl
  | inr named ↦ elim (Bool-cases (among p w.items)) [
    | inl there ↦ rw (named, there) refl
    | inr new ↦
        rw (named, new)
          (ap (λ f. (f, none))
            (members-append w.items (record { product_id = p; added_at = added })))
  ]
]
perform_wish-promised (removes p now) w d = elim (Bool-cases (eqb_ℤ p (pos 0))) [
  | inl bad ↦ rw bad refl
  | inr named ↦
      rw
        (
          named,
          seen-dropped (drop p w.items) p now w,
          members-drop p w.items d,
          drop_none p w.items,
        )
        (ap (λ e. (update (members w.items) p false, e)) (if_not (among p w.items) _ none))
]
perform_wish-promised (clears now) w d = refl

perform_wish-IsDistinct :
    (c : WishCall) (w : Wishlist) → IsDistinct w.items → IsDistinct (perform_wish c w).0.items
unfolding add_item remove_item clear
perform_wish-IsDistinct (adds p added now) w d = elim (Bool-cases (eqb_ℤ p (pos 0))) [
  | inl bad ↦ rw bad d
  | inr named ↦ elim (Bool-cases (among p w.items)) [
    | inl there ↦ rw (named, there) d
    | inr new ↦ rw (named, new) (append-IsDistinct w.items _ d new)
  ]
]
perform_wish-IsDistinct (removes p now) w d = elim (Bool-cases (eqb_ℤ p (pos 0))) [
  | inl bad ↦ rw bad d
  | inr named ↦ rw named (dropped-IsDistinct (drop p w.items) p now w (drop-IsDistinct p w.items d))
]
perform_wish-IsDistinct (clears now) w d = tt

-- The errors of a run of calls, one for each, and what is in the wishlist after it; the same of a
-- set.
abbrev pub wish_run : List WishCall → Wishlist → List (Option Error) × Members
wish_run [] w = ([], members w.items)
wish_run (c ∷ cs) w =
    let o = perform_wish c w in let rest = wish_run cs o.0 in (o.1 ∷ rest.0, rest.1)

unfoldable pub wish_run_promised : List WishCall → Members → List (Option Error) × Members
wish_run_promised [] f = ([], f)
wish_run_promised (c ∷ cs) f =
    let o = wish_promised c f in let rest = wish_run_promised cs o.0 in (o.1 ∷ rest.0, rest.1)

wish_run_refines_from :
    (cs : List WishCall) (w : Wishlist)
    → IsDistinct w.items
    → wish_run cs w ≡ wish_run_promised cs (members w.items)
unfolding wish_run_promised
wish_run_refines_from [] w d = refl
wish_run_refines_from (c ∷ cs) w d =
    let one = perform_wish-promised c w d in
    let rest = wish_run_refines_from cs (perform_wish c w).0 (perform_wish-IsDistinct c w d) in
    rw rest (
      ap
        (λ (o : Members × Option Error).
          (o.1 ∷ (wish_run_promised cs o.0).0, (wish_run_promised cs o.0).1))
        one)

new_wishlist-items :
    (id user_id : KernelId) (t u : Time) (w : Wishlist)
    → new_wishlist id user_id t u ≡ ok w
    → w.items ≡ []
unfolding new_wishlist
new_wishlist-items id user_id t u w made = ground (arith, made)

-- Whatever is called on a new wishlist, in any sequence: each call returns the error that the same
-- call returns on a set of products, which starts empty, and at the end the wishlist contains the
-- products of that set. So the order of the items is never seen.
pub wish_run_refines :
    (id user_id : KernelId) (t u : Time) (w : Wishlist) (cs : List WishCall)
    → new_wishlist id user_id t u ≡ ok w
    → wish_run cs w ≡ wish_run_promised cs (λ p. false)
unfolding among
wish_run_refines id user_id t u w cs made =
    let empty = new_wishlist-items id user_id t u w made in
    wish_run_refines_from cs w (rw empty tt)
    ∙ ap (λ (items : List WishlistItem). wish_run_promised cs (members items)) empty
