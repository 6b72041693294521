-- ===== src/Carts/Service.antt =====
-- domain/cart/service.go, over a repository and the record of the publisher's calls. Logging,
-- tracing and the method that only reads are left out.
use mall.Base.{ℕ, Bool, not, ◌||◌, Option, none, if◌then◌else◌, ℤ, pos, leb_ℤ, str_eq}
use mall.Kernel.{
  KernelId, Time, Result, ok, err, Error, Outcome, Action, ◌>>=◌, ◌>>◌, pure, from_result,
  from_outcome, from_save, Repository, World, in_store, publish_each, modify_stored, create_stored,
  new_domain_error, invalid_argument, is_not_found,
}
use mall.Carts.Lines.{CartItem}
use mall.Carts.Changes
use mall.Carts.Changes.{Cart, CartEvent, event_name, new_cart, drop_events, merge}

-- A cart is found by its user or by its id. A call that finds no cart returns an error, by Go's
-- convention without a cart.
pub record CartRepository (S : Type 0) : Type 0 where
  pub find_by_user : KernelId → S → Result Cart
  pub find_by_id : KernelId → S → Result Cart
  pub save : Cart → S → Option Error × S

abbrev pub by_user : {S : Type 0} → CartRepository S → Repository S Cart KernelId
by_user repo = record { find = repo.find_by_user; save = repo.save }

abbrev pub by_id : {S : Type 0} → CartRepository S → Repository S Cart KernelId
by_id repo = record { find = repo.find_by_id; save = repo.save }

abbrev pub is_published : CartEvent → Bool
is_published e =
    str_eq (event_name e) "cart.updated"
    || str_eq (event_name e) "cart.cleared"
    || str_eq (event_name e) "cart.merged"

unfoldable pub publish_events : {S : Type 0} → Cart → Action (World S Cart) Cart
unfolding publish_each
publish_events c w =
    (ok (drop_events c), record w { published = publish_each is_published c.events c w.published })

module _ {S : Type 0} (repo : CartRepository S) where
  -- From the look-up on: an error other than that there is none is returned.
  unfoldable pub found_or_created : Result Cart → KernelId → KernelId → Time → Time → Action S Cart
  found_or_created (ok c) cart_id user_id created updated s = (ok c, s)
  found_or_created (err e) cart_id user_id created updated s =
      if not (is_not_found e)
      then (err e, s)
      else create_stored (by_user repo) (new_cart cart_id user_id created updated) s

  unfoldable pub get_or_create_cart : KernelId → KernelId → Time → Time → Action S Cart
  get_or_create_cart cart_id user_id created updated s =
      if leb_ℤ user_id (pos 0)
      then (err (new_domain_error invalid_argument "user_id must be positive"), s)
      else found_or_created (repo.find_by_user user_id s) cart_id user_id created updated s

  -- A method on a cart, a save, and what the service publishes.
  unfoldable pub change_saved : (Cart → Outcome Cart) → Cart → Action S Cart
  change_saved method c = do
    changed ← from_outcome (method c)
    from_save (repo.save changed)
    pure changed

  unfoldable pub add_item :
      KernelId → KernelId → CartItem → Time → Time → Time → Action (World S Cart) Cart
  add_item cart_id user_id item created updated now = do
    cart ← in_store (get_or_create_cart cart_id user_id created updated)
    changed ← in_store (change_saved (Changes.add_item item now) cart)
    publish_events changed

  unfoldable pub modify_cart : KernelId → (Cart → Outcome Cart) → Action (World S Cart) Cart
  modify_cart user_id method = do
    cart ← in_store (modify_stored (by_user repo) user_id method)
    publish_events cart

  unfoldable pub update_quantity : KernelId → KernelId → ℤ → Time → Action (World S Cart) Cart
  update_quantity user_id product_id quantity now =
      modify_cart user_id (Changes.update_quantity product_id quantity now)

  unfoldable pub remove_item : KernelId → KernelId → Time → Action (World S Cart) Cart
  remove_item user_id product_id now = modify_cart user_id (Changes.remove_item product_id now)

  unfoldable pub clear_cart : KernelId → Time → Action (World S Cart) Cart
  clear_cart user_id now = modify_cart user_id (λ c. (Changes.clear now c, none))

  -- The finding, the merge and the two saves, of the target first.
  unfoldable pub merge_saved : KernelId → KernelId → (ℕ → Time) → Action S (Cart × Cart)
  merge_saved target_id source_id clock s =
      (do
        target ← from_result (repo.find_by_id target_id s)
        source ← from_result (repo.find_by_id source_id s)
        both ← from_outcome (merge source clock target)
        from_save (repo.save both.0)
        from_save (repo.save both.1)
        pure both)
        s

  unfoldable pub merge_carts : KernelId → KernelId → (ℕ → Time) → Action (World S Cart) Cart
  merge_carts target_id source_id clock = do
    both ← in_store (merge_saved target_id source_id clock)
    published ← publish_events both.0
    others ← publish_events both.1
    pure published
