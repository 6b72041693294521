-- ===== src/Wishlists/Service.antt =====
-- domain/wishlist/service.go, over the repository of the wishlists and the generator of ids.
-- Logging is left out.
use mall.Base.{Bool, false, none, pos, not, if◌then◌else◌}
use mall.Kernel.{
  KernelId, Time, Result, ok, err, Action, ◌>>=◌, from_outcome, from_save, Repository,
  modify_stored, create_stored, is_not_found,
}
use mall.Wishlists.Wishlist as List
use mall.Wishlists.Wishlist.{Wishlist, new_wishlist, contains}

pub record WishWorld (S G : Type 0) : Type 0 where
  pub lists : S
  pub ids : G

module _ {S G : Type 0} (repo : Repository S Wishlist KernelId)
    (next_id : G → Result KernelId × G) where
  abbrev in_lists : {A : Type 0} → Action S A → Action (WishWorld S G) A
  in_lists m w = let (r, s) = m w.lists in (r, record w { lists = s })

  abbrev draw : Action (WishWorld S G) KernelId
  draw w = let (r, g) = next_id w.ids in (r, record w { ids = g })

  abbrev made : KernelId → Time → Time → Action (WishWorld S G) Wishlist
  made user_id created updated = do
    id ← draw
    in_lists (create_stored repo (new_wishlist id user_id created updated))

  abbrev found_or_made : Result Wishlist → KernelId → Time → Time → Action (WishWorld S G) Wishlist
  found_or_made (ok existing) user_id created updated w = (ok existing, w)
  found_or_made (err e) user_id created updated w =
      if not (is_not_found e) then (err e, w) else made user_id created updated w

  unfoldable pub get_or_create : KernelId → Time → Time → Action (WishWorld S G) Wishlist
  get_or_create user_id created updated w =
      found_or_made (repo.find user_id w.lists) user_id created updated w

  unfoldable pub add_item :
      KernelId → KernelId → Time → Time → Time → Time → Action (WishWorld S G) (Unit {0})
  add_item user_id product_id created updated added now = do
    w ← get_or_create user_id created updated
    changed ← from_outcome (List.add_item product_id added now w)
    in_lists (from_save (repo.save changed))

  unfoldable pub remove_item : KernelId → KernelId → Time → Action S Wishlist
  remove_item user_id product_id now = modify_stored repo user_id (List.remove_item product_id now)

  unfoldable pub clear_wishlist : KernelId → Time → Action S Wishlist
  clear_wishlist user_id now = modify_stored repo user_id (λ w. (List.clear now w, none))

  abbrev id_or_zero : Result KernelId → KernelId
  id_or_zero (ok id) = id
  id_or_zero (err e) = pos 0

  -- A missing list is made, with the id 0 where none is drawn, and not saved.
  abbrev listed_or_new : Result Wishlist → KernelId → Time → Time → Action (WishWorld S G) Wishlist
  listed_or_new (ok l) user_id created updated w = (ok l, w)
  listed_or_new (err e) user_id created updated w =
      if is_not_found e
      then (let (r, g) = next_id w.ids in
          (new_wishlist (id_or_zero r) user_id created updated, record w { ids = g }))
      else (err e, w)

  unfoldable pub get_wishlist : KernelId → Time → Time → Action (WishWorld S G) Wishlist
  get_wishlist user_id created updated w =
      listed_or_new (repo.find user_id w.lists) user_id created updated w

  abbrev contained : Result Wishlist → KernelId → Result Bool
  contained (ok l) product_id = ok (contains product_id l)
  contained (err e) product_id = if is_not_found e then ok false else err e

  unfoldable pub is_in_wishlist : KernelId → KernelId → S → Result Bool
  is_in_wishlist user_id product_id s = contained (repo.find user_id s) product_id
