-- ===== src/Reviews/Moderation.antt =====
-- What the events of a review of domain/review/review.go tell, and how often a user reviews a
-- product.
use mall.Base.{◌≡◌, refl, sym, String, inl, inr, none, List, [], ◌∷◌, ◌++◌, arith, ℤ}
use mall.Kernel.{
  KernelId, Time, ok, err, Error, Result-cases, create_stored, new_domain_error, already_exists,
}
use mall.Reviews.Review.{
  Review, ReviewEvent, ReviewStatus, review_created, review_approved, review_rejected,
  review_flagged, pending, approved, rejected, flagged, new_rating, new_review, approve, reject,
  flag,
}
use mall.Reviews.Service.{ReviewRepository, create_review}

pub data ReviewCall : Type 0 where
  approves rejects flags : Time → ReviewCall

abbrev pub perform_review : ReviewCall → Review → Review
perform_review (approves now) r = (approve now r).0
perform_review (rejects now) r = (reject now r).0
perform_review (flags now) r = (flag now r).0

abbrev pub run_review : List ReviewCall → Review → Review
run_review [] r = r
run_review (c ∷ cs) r = run_review cs (perform_review c r)

-- The status that an event tells of.
abbrev pub told : ReviewEvent → ReviewStatus
told (review_created id product_id user_id rating) = pending
told (review_approved id product_id) = approved
told (review_rejected id product_id) = rejected
told (review_flagged id product_id) = flagged

abbrev pub replay : List ReviewEvent → ReviewStatus → ReviewStatus
replay [] s = s
replay (e ∷ es) s = replay es (told e)

replay-append :
    (es : List ReviewEvent) (e : ReviewEvent) (s : ReviewStatus)
    → replay (es ++ (e ∷ [])) s ≡ told e
replay-append [] e s = refl
replay-append (x ∷ es) e s = replay-append es e (told x)

abbrev IsTold : Review → Type 0
IsTold r = (s : ReviewStatus) → replay r.events s ≡ r.status

perform_review-IsTold :
    (c : ReviewCall) (r : Review)
    → ((s : ReviewStatus) → replay r.events s ≡ r.status)
    → (s : ReviewStatus) → replay (perform_review c r).events s ≡ (perform_review c r).status
unfolding approve reject flag
perform_review-IsTold (approves now) r h s =
    ground (arith, h s, replay-append r.events (review_approved r.id r.product_id) s)
perform_review-IsTold (rejects now) r h s =
    ground (arith, h s, replay-append r.events (review_rejected r.id r.product_id) s)
perform_review-IsTold (flags now) r h s =
    ground (arith, h s, replay-append r.events (review_flagged r.id r.product_id) s)

run_review-IsTold_from : (cs : List ReviewCall) (r : Review) → IsTold r → IsTold (run_review cs r)
run_review-IsTold_from [] r h = h
run_review-IsTold_from (c ∷ cs) r h =
    run_review-IsTold_from cs (perform_review c r) (perform_review-IsTold c r h)

new_review-IsTold :
    (id product_id user_id : KernelId) (rating : ℤ) (title content : String)
    (created updated : Time) (r : Review)
    → new_review id product_id user_id rating title content created updated ≡ ok r
    → IsTold r
unfolding new_review
new_review-IsTold id product_id user_id rating title content created updated r made s =
    ground (arith, made)

-- Whatever is called on a new review, in any sequence, with or without success: a reader that
-- starts from any status and takes over the one that each event tells of ends with the status of
-- the review.
pub run_review-replay :
    (id product_id user_id : KernelId) (rating : ℤ) (title content : String)
    (created updated : Time) (r : Review) (cs : List ReviewCall) (s : ReviewStatus)
    → new_review id product_id user_id rating title content created updated ≡ ok r
    → replay (run_review cs r).events s ≡ (run_review cs r).status
run_review-replay id product_id user_id rating title content created updated r cs s made =
    run_review-IsTold_from cs r
      (new_review-IsTold id product_id user_id rating title content created updated r made) s

module _ {S : Type 0} (repo : ReviewRepository S) where
  -- What is relied on of the storage: a review that was saved is found by its product and its user.
  pub record Remembers : Type 0 where
    pub find_saved :
        (r : Review) (s : S)
        → (repo.save r s).0 ≡ none
        → (found : Review) × (repo.find_by_product_and_user r.product_id r.user_id (repo.save r s).1
            ≡ ok found)

  create_review_saved :
      (id product_id user_id : KernelId) (rating : ℤ) (title content : String)
      (created updated : Time) (s s' : S) (r : Review)
      → create_review repo id product_id user_id rating title content created updated s ≡ (ok r, s')
      → (r.product_id ≡ product_id)
        × (r.user_id ≡ user_id)
        × ((repo.save r s).0 ≡ none)
        × (s' ≡ (repo.save r s).1)
  unfolding create_review new_rating new_review create_stored
  create_review_saved id product_id user_id rating title content created updated s s' r done =
      elim (Result-cases (repo.find_by_product_and_user product_id user_id s)) [
        | inl (x, there) ↦ absurd (ground (arith, done, there))
        | inr (e, missing) ↦ (
          ground (arith, done, missing),
          ground (arith, done, missing),
          ground (arith, done, missing),
          ground (arith, done, missing),
        )
      ]

  create_review_there :
      (id product_id user_id : KernelId) (rating : ℤ) (title content : String)
      (created updated : Time) (s : S) (r : Review)
      → repo.find_by_product_and_user product_id user_id s ≡ ok r
      → (e : Error) × (create_review repo id product_id user_id rating title content created updated
            s
          ≡ (err e, s))
  unfolding create_review
  create_review_there id product_id user_id rating title content created updated s r there =
      elim (Result-cases (new_rating rating)) [
        | inr (e, bad) ↦ (e, rw bad refl)
        | inl (x, good) ↦ (
          new_domain_error already_exists "user already reviewed this product",
          rw (good, there) refl,
        )
      ]

  -- Over a storage that finds a saved review by its product and its user: where a user has reviewed
  -- a product, a further review of it by the same user returns an error and changes nothing.
  pub create_review_once :
      Remembers
      → (id again product_id user_id : KernelId) (rating rating' : ℤ)
        (title content title' content' : String) (created updated created' updated' : Time)
        (s s' : S) (r : Review)
      → create_review repo id product_id user_id rating title content created updated s ≡ (ok r, s')
      → (e : Error) × (create_review repo again product_id user_id rating' title' content' created'
            updated' s'
          ≡ (err e, s'))
  create_review_once remembers id again product_id user_id rating rating' title content title'
        content' created updated created' updated' s s' r done =
      let (product, user, saved, end) =
        create_review_saved id product_id user_id rating title content created updated s s' r
          done in
      let (found, there) = remembers.find_saved r s saved in
      create_review_there again product_id user_id rating' title' content' created' updated' s'
        found (rw (end, sym product, sym user) there)
