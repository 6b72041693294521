-- ===== src/Carts/Tests.antt =====
-- The cart theorems at a cart with two cups, and a second one with a cup and a pot.
use mall.Base.{◌≡◌, refl, none, some, List, [], ◌∷◌, ℤ, pos, add64}
use mall.Kernel.{
  KernelId, new_domain_error, not_found, new_aggregate_root, ok, memory, memory-IsFaithful,
  IsFaithful, Repository,
}
use mall.Carts.Lines.{CartItem, put_item, renewed}
use mall.Carts.Changes.{
  Cart, active, cart_created, new_cart, add_item, add_items, merge, mark_merged, drop_events,
}
use mall.Carts.LineLaws.{quantity_of, IsDistinct, joined}
use mall.Carts.Life.{CartCall, adds, updates, removes}
use mall.Carts.Promise.{promised}
use mall.Carts.Refinement.{run_seen, run_promised, run_cart_refines}
use mall.Carts.Service.{CartRepository}
use mall.Carts.Merging.{merge-quantity_of}

abbrev cups : ℤ → CartItem
cups q = record {
  product_id = pos 7;
  sku = "cup";
  name = "Cup";
  quantity = q;
  unit_price = pos 450;
  image_url = "";
}

abbrev pots : CartItem
pots = record (cups (pos 1)) { product_id = pos 8; sku = "pot"; name = "Pot" }

abbrev empty_cart : Cart
empty_cart = record {
  root = record {
    entity = record { id = pos 1; created_at = 10; updated_at = 11 };
    events = cart_created (pos 1) (pos 2) ∷ [];
  };
  user_id = pos 2;
  items = [];
  status = active;
}

new_cart_made : new_cart (pos 1) (pos 2) 10 11 ≡ ok empty_cart
unfolding new_cart
new_cart_made = refl

abbrev cart : Cart
cart = record empty_cart { items = cups (pos 2) ∷ [] }

abbrev other : Cart
other = record empty_cart {
  root = new_aggregate_root (pos 3) 20 21;
  items = cups (pos 1) ∷ pots ∷ [];
}

five_cups : quantity_of (pos 7) (add_item (cups (pos 3)) 12 cart).0.items ≡ some (pos 5)
unfolding add_item quantity_of put_item renewed add64
five_cups = refl

other-IsDistinct : IsDistinct other.items
unfolding quantity_of
other-IsDistinct = (refl, (refl, tt))

merge-quantity_of_example :
    let (c', other') = (merge other (λ i. 30) cart).0 in
    (pos 2 ≡ pos 2)
    × (other' ≡ mark_merged other)
    × ((p : KernelId)
        → quantity_of p c'.items ≡ joined (quantity_of p cart.items) (quantity_of p other.items))
unfolding merge add_items add_item put_item renewed
merge-quantity_of_example = merge-quantity_of cart other (λ i. 30) other-IsDistinct refl

abbrev listed : Repository (List Cart) Cart KernelId
listed = memory (λ c. c.id) drop_events

-- Carts in memory, found by their ids alone.
abbrev carts : CartRepository (List Cart)
carts = record { find_by_user = listed.find; find_by_id = listed.find; save = listed.save }

listed-IsFaithful : IsFaithful listed (λ c. c.id) drop_events
listed-IsFaithful = memory-IsFaithful (λ c. c.id) drop_events (λ c. refl)

abbrev cart_calls : List CartCall
cart_calls =
    adds (cups (pos 2)) 12
    ∷ adds pots 13
    ∷ adds (cups (pos 1)) 14
    ∷ removes (pos 9) 15
    ∷ updates (pos 8) (pos 0) 16
    ∷ []

run_cart_refines_example : run_seen cart_calls empty_cart ≡ run_promised cart_calls (λ k. none)
run_cart_refines_example =
    run_cart_refines (pos 1) (pos 2) 10 11 empty_cart cart_calls new_cart_made

-- The third product is missing, and three cups are left.
cart_calls_promise :
    let (errors, left) = run_promised cart_calls (λ k. none) in
    (errors
      ≡ none ∷ none ∷ none ∷ some (new_domain_error not_found "item not found in cart") ∷ none ∷ [])
    × (left (pos 7) ≡ some (pos 3))
    × (left (pos 8) ≡ none)
unfolding run_promised promised add64
cart_calls_promise = (refl, refl, refl)
