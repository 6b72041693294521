-- ===== src/Wishlists/Tests.antt =====
-- The wishlist theorem at a new wishlist, with five calls.
use mall.Base.{◌≡◌, refl, true, false, none, some, List, [], ◌∷◌, pos, Option}
use mall.Kernel.{Error, ok, new_domain_error, already_exists, not_found}
use mall.Wishlists.Wishlist.{Wishlist, new_wishlist, wishlist_created}
use mall.Wishlists.Refinement.{
  WishCall, adds, removes, wish_promised, wish_run, wish_run_promised, wish_run_refines,
}

abbrev empty_wishlist : Wishlist
empty_wishlist = record {
  root = record {
    entity = record { id = pos 1; created_at = 10; updated_at = 11 };
    events = wishlist_created (pos 1) (pos 2) ∷ [];
  };
  user_id = pos 2;
  items = [];
}

abbrev calls : List WishCall
calls =
    adds (pos 7) 20 21
    ∷ adds (pos 8) 22 23
    ∷ adds (pos 7) 24 25
    ∷ removes (pos 9) 26
    ∷ removes (pos 8) 27
    ∷ []

abbrev errors : List (Option Error)
errors =
    none
    ∷ none
    ∷ some (new_domain_error already_exists "product already in wishlist")
    ∷ some (new_domain_error not_found "product not in wishlist")
    ∷ none
    ∷ []

new_wishlist_made : new_wishlist (pos 1) (pos 2) 10 11 ≡ ok empty_wishlist
unfolding new_wishlist
new_wishlist_made = refl

wish_run_refines_example : wish_run calls empty_wishlist ≡ wish_run_promised calls (λ p. false)
wish_run_refines_example =
    wish_run_refines (pos 1) (pos 2) 10 11 empty_wishlist calls new_wishlist_made

promised_errors : (wish_run_promised calls (λ p. false)).0 ≡ errors
unfolding wish_run_promised wish_promised
promised_errors = refl

promised_members :
    let f = (wish_run_promised calls (λ p. false)).1 in (f (pos 7) ≡ true) × (f (pos 8) ≡ false)
unfolding wish_run_promised wish_promised
promised_members = (refl, refl)
