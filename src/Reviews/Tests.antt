-- ===== src/Reviews/Tests.antt =====
-- The theorems on reviews at one review, and a shop that stores one.
use mall.Base.{◌≡◌, refl, Option, none, some, List, [], ◌∷◌, pos}
use mall.Kernel.{Result, ok, err, Error, new_domain_error, not_found, create_stored, is_not_found}
use mall.Reviews.Review.{
  Review, review_created, pending, rejected, new_rating, new_review, approve, reject, flag,
}
use mall.Reviews.Service.{ReviewRepository, create_review}
use mall.Reviews.Moderation.{
  ReviewCall, approves, flags, rejects, run_review, replay, run_review-replay, Remembers,
  create_review_once,
}

abbrev fine_cup : Review
fine_cup = record {
  root = record {
    entity = record { id = pos 1; created_at = 10; updated_at = 11 };
    events = review_created (pos 1) (pos 7) (pos 2) (pos 5) ∷ [];
  };
  product_id = pos 7;
  user_id = pos 2;
  rating = pos 5;
  title = "Fine";
  content = "A fine cup.";
  status = pending;
}

fine_cup_made : new_review (pos 1) (pos 7) (pos 2) (pos 5) "Fine" "A fine cup." 10 11 ≡ ok fine_cup
unfolding new_review
fine_cup_made = refl

-- The second approval is refused.
abbrev calls : List ReviewCall
calls = approves 20 ∷ approves 21 ∷ flags 22 ∷ rejects 23 ∷ []

run_review-replay_example :
    replay (run_review calls fine_cup).events pending ≡ (run_review calls fine_cup).status
run_review-replay_example =
    run_review-replay (pos 1) (pos 7) (pos 2) (pos 5) "Fine" "A fine cup." 10 11 fine_cup calls
      pending fine_cup_made

ends_rejected : (run_review calls fine_cup).status ≡ rejected
unfolding approve reject flag
ends_rejected = refl

-- The last review is stored.
abbrev last_review : Option Review → Result Review
last_review none = err (new_domain_error not_found "review not found")
last_review (some r) = ok r

abbrev shop : ReviewRepository (Option Review)
shop = record {
  save = λ r s. (none, some r);
  find_by_id = λ id s. last_review s;
  find_by_product_and_user = λ p u s. last_review s;
  delete = λ id s. (none, none);
}

shop-Remembers : Remembers shop
shop-Remembers = record { find_saved = λ r s saved. (r, refl) }

was_created :
    create_review shop (pos 1) (pos 7) (pos 2) (pos 5) "Fine" "A fine cup." 10 11 none
    ≡ (ok fine_cup, some fine_cup)
unfolding create_review create_stored new_rating new_review is_not_found
was_created = refl

create_review_once_example :
    (e : Error) × (create_review shop
        (pos 3)
        (pos 7)
        (pos 2)
        (pos 1)
        "Broken"
        "It broke."
        50
        51
        (some fine_cup)
      ≡ (err e, some fine_cup))
create_review_once_example =
    create_review_once shop shop-Remembers (pos 1) (pos 3) (pos 7) (pos 2) (pos 5) (pos 1) "Fine"
      "A fine cup." "Broken" "It broke." 10 11 50 51 none (some fine_cup) fine_cup was_created
