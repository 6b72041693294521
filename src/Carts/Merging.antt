-- ===== src/Carts/Merging.antt =====
-- A merge of one cart into another, and of a cart into itself.
use mall.Base.{
  ℕ, suc, ◌≡◌, ◌≢◌, refl, sym, ap, subst, ◌∙◌, Option, none, some, List, [], ◌∷◌, arith, ℤ,
  eq_of_parts,
}
use mall.Carts.Service.{CartRepository, by_id, merge_saved}
use mall.Kernel.{KernelId, Time, Outcome, ok, IsFaithful, ℤ-discrete}
use mall.Carts.Lines.{CartItem}
use mall.Carts.Changes.{Cart, add_item, unless_error, add_items, mark_merged, both_merged, merge}
use mall.Carts.LineLaws.{quantity_of, quantity_of_nil, IsDistinct, joined}
use mall.Carts.Life.{add_item-quantity_of}

unless_error-none :
    (o rest : Outcome Cart)
    → (unless_error o rest).1 ≡ none
    → (o.1 ≡ none) × (unless_error o rest ≡ rest)
unless_error-none (c, none) rest h = (refl, refl)
unless_error-none (c, some e) rest h = absurd (ground (arith, h))

joined-none : (a : Option ℤ) → joined a none ≡ a
joined-none none = refl
joined-none (some a) = refl

quantity_of_here :
    (p : KernelId) (i : CartItem) (items : List CartItem)
    → p ≡ i.product_id
    → quantity_of p (i ∷ items) ≡ some i.quantity
unfolding quantity_of
quantity_of_here p i items same = ground (arith, same)

quantity_of_there :
    (p : KernelId) (i : CartItem) (items : List CartItem)
    → p ≢ i.product_id
    → quantity_of p (i ∷ items) ≡ quantity_of p items
unfolding quantity_of
quantity_of_there p i items other = ground (arith, other, eq_of_parts i.product_id p)

quantity_of-add_items :
    (items : List CartItem) (clock : ℕ → Time) (i : ℕ) (c : Cart) (p : KernelId)
    → IsDistinct items
    → (add_items items clock i c).1 ≡ none
    → quantity_of p (add_items items clock i c).0.items
      ≡ joined (quantity_of p c.items) (quantity_of p items)
unfolding add_items
quantity_of-add_items [] clock i c p d done =
    sym (
      ap (joined (quantity_of p c.items)) (quantity_of_nil p) ∙ joined-none (quantity_of p c.items))
quantity_of-add_items (item ∷ items) clock i c p d done =
    let added = add_item item (clock i) c in
    let (item_done, same_rest) =
      unless_error-none added (add_items items clock (suc i) added.0) done in
    let rest_done : (add_items items clock (suc i) added.0).1 ≡ none =
      subst (λ (o : Outcome Cart). o.1 ≡ none) same_rest done in
    let rest = quantity_of-add_items items clock (suc i) added.0 p d.1 rest_done in
    let (here, elsewhere) = add_item-quantity_of item (clock i) c item_done in
    rw same_rest (
      rest ∙ (elim (ℤ-discrete p item.product_id) [
        | yes same ↦
            ap (λ k. joined (quantity_of k added.0.items) (quantity_of p items)) same
            ∙ ap (joined (quantity_of item.product_id added.0.items))
                (ap (λ k. quantity_of k items) same ∙ d.0)
            ∙ joined-none (quantity_of item.product_id added.0.items)
            ∙ here
            ∙ ap (λ k. joined (quantity_of k c.items) (some item.quantity)) (sym same)
            ∙ ap (joined (quantity_of p c.items)) (sym (quantity_of_here p item items same))
        | no other ↦
            ap (λ q. joined q (quantity_of p items)) (elsewhere p other)
            ∙ ap (joined (quantity_of p c.items)) (sym (quantity_of_there p item items other))
      ]))

both_merged_ok :
    (other : Cart) (o : Outcome Cart)
    → (both_merged other o).1 ≡ none
    → (o.1 ≡ none) × ((both_merged other o).0 ≡ (o.0, mark_merged other))
both_merged_ok other (c, none) h = (refl, refl)
both_merged_ok other (c, some e) h = absurd (ground (arith, h))

merge_added :
    (c other : Cart) (clock : ℕ → Time)
    → (merge other clock c).1 ≡ none
    → (c.user_id ≡ other.user_id)
      × (merge other clock c ≡ both_merged other (add_items other.items clock 0 c))
unfolding merge
merge_added c other clock done = ground (arith, eq_of_parts c.user_id other.user_id)

-- A merge that succeeds is of two carts of one user, and where each product has one line in the
-- merged cart, the other has of each product what both had together, as an int64. The merged cart
-- keeps its lines and is marked merged.
pub merge-quantity_of :
    (c other : Cart) (clock : ℕ → Time)
    → IsDistinct other.items
    → (merge other clock c).1 ≡ none
    → let (c', other') = (merge other clock c).0 in
      (c.user_id ≡ other.user_id)
      × (other' ≡ mark_merged other)
      × ((p : KernelId)
          → quantity_of p c'.items ≡ joined (quantity_of p c.items) (quantity_of p other.items))
merge-quantity_of c other clock d done =
    let (user, added) = merge_added c other clock done in
    let all = add_items other.items clock 0 c in
    let (all_done, both) =
      both_merged_ok other all (ap (λ (o : Outcome (Cart × Cart)). o.1) (sym added) ∙ done) in
    rw (added, both) (user, refl, λ p. quantity_of-add_items other.items clock 0 c p d all_done)

merge_marks :
    (c other : Cart) (clock : ℕ → Time) (both : Cart × Cart)
    → merge other clock c ≡ (both, none)
    → both.1 ≡ mark_merged other
merge_marks c other clock both done =
    let done' : (merge other clock c).1 ≡ none = ap (λ (o : Outcome (Cart × Cart)). o.1) done in
    let (user, added) = merge_added c other clock done' in
    let (all_done, is) =
      both_merged_ok other (add_items other.items clock 0 c)
        (ap (λ (o : Outcome (Cart × Cart)). o.1) (sym added) ∙ done') in
    ap (λ (o : Outcome (Cart × Cart)). o.0.1) (sym done)
    ∙ ap (λ (o : Outcome (Cart × Cart)). o.0.1) added
    ∙ ap (λ (b : Cart × Cart). b.1) is

mark_merged-id : (c : Cart) → (mark_merged c).id ≡ c.id
unfolding mark_merged
mark_merged-id c = refl

module _ {S : Type 0} (repo : CartRepository S) (kept : Cart → Cart)
    (faithful : IsFaithful (by_id repo) (λ c. c.id) kept) where
  merge_saved_done :
      (target_id source_id : KernelId) (clock : ℕ → Time) (s : S) (target source : Cart)
      (both : Cart × Cart)
      → repo.find_by_id target_id s ≡ ok target
      → repo.find_by_id source_id s ≡ ok source
      → (merge_saved repo target_id source_id clock s).0 ≡ ok both
      → (merge source clock target ≡ (both, none))
        × ((repo.save both.1 (repo.save both.0 s).1).0 ≡ none)
        × ((merge_saved repo target_id source_id clock s).1
            ≡ (repo.save both.1 (repo.save both.0 s).1).1)
  unfolding merge_saved
  merge_saved_done target_id source_id clock s target source both found_t found_s done =
      ground arith

  -- After a merge through the service that succeeds, over a faithful repository, the cart that is
  -- found under the source's id is the source as it was, marked merged. This is so even where
  -- source and target are one cart.
  pub merge_saved_source :
      (target_id source_id : KernelId) (clock : ℕ → Time) (s : S) (target source : Cart)
      (both : Cart × Cart)
      → repo.find_by_id target_id s ≡ ok target
      → repo.find_by_id source_id s ≡ ok source
      → (merge_saved repo target_id source_id clock s).0 ≡ ok both
      → repo.find_by_id source_id (merge_saved repo target_id source_id clock s).1
        ≡ ok (kept (mark_merged source))
  merge_saved_source target_id source_id clock s target source both found_t found_s done =
      let (is_both, saved, stored) =
        merge_saved_done target_id source_id clock s target source both found_t found_s done in
      let source' : both.1 ≡ mark_merged source = merge_marks target source clock both is_both in
      let key : both.1.id ≡ source_id =
        ap (λ (c : Cart). c.id) source'
        ∙ mark_merged-id source
        ∙ faithful.find_key source_id source s found_s in
      subst (λ t. repo.find_by_id source_id t ≡ ok (kept (mark_merged source))) (sym stored)
        (subst
          (λ k.
            repo.find_by_id k (repo.save both.1 (repo.save both.0 s).1).1
            ≡ ok (kept (mark_merged source)))
          key
          (faithful.find_saved both.1 (repo.save both.0 s).1 saved ∙ ap (λ c. ok (kept c)) source'))
