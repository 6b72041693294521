-- ===== src/Reviews/Review.antt =====
-- domain/review/review.go.
use mall.Base.{ℕ, String, Bool, not, ◌&&◌, ◌||◌, ◌==◌, none, if◌then◌else◌, ℤ, pos, eqb_ℤ, ltb_ℤ}
use mall.Kernel.{
  KernelId, Time, AggregateRoot, new_aggregate_root, add_event, touch_root, Result, ok, err,
  Outcome, invalid, new_domain_error, invalid_argument,
}

unfoldable pub new_rating : ℤ → Result ℤ
new_rating r =
    if ltb_ℤ r (pos 1) || ltb_ℤ (pos 5) r
    then err (new_domain_error invalid_argument "rating must be between 1 and 5")
    else ok r

pub data ReviewStatus : Type 0 where
  pending approved rejected flagged : ReviewStatus

abbrev status_number : ReviewStatus → ℕ
status_number pending = 0
status_number approved = 1
status_number rejected = 2
status_number flagged = 3

abbrev pub status_eq : ReviewStatus → ReviewStatus → Bool
status_eq a b = status_number a == status_number b

-- Each event names the review and the product.
pub data ReviewEvent : Type 0 where
  review_created : KernelId → KernelId → KernelId → ℤ → ReviewEvent
  review_approved review_rejected review_flagged : KernelId → KernelId → ReviewEvent

pub record Review : Type 0 where
  pub root : AggregateRoot ReviewEvent
  pub open root use *
  pub product_id : KernelId
  pub user_id : KernelId
  pub rating : ℤ
  pub title : String
  pub content : String
  pub status : ReviewStatus

unfoldable pub new_review :
    KernelId → KernelId → KernelId → ℤ → String → String → Time → Time → Result Review
new_review id product_id user_id rating title content created updated =
    if eqb_ℤ id (pos 0)
    then err (new_domain_error invalid_argument "review id must not be empty")
    else if eqb_ℤ product_id (pos 0)
    then err (new_domain_error invalid_argument "product id must not be empty")
    else if eqb_ℤ user_id (pos 0)
    then err (new_domain_error invalid_argument "user id must not be empty")
    else ok (record {
      root =
          add_event (review_created id product_id user_id rating)
            (new_aggregate_root id created updated);
      product_id = product_id;
      user_id = user_id;
      rating = rating;
      title = title;
      content = content;
      status = pending;
    })

abbrev moved : ReviewStatus → ReviewEvent → Time → Review → Review
moved status e now r = record r { root = add_event e (touch_root now r.root); status = status }

unfoldable pub approve : Time → Review → Outcome Review
approve now r =
    if not (status_eq r.status pending)
    then (r, invalid "can only approve a pending review")
    else (moved approved (review_approved r.id r.product_id) now r, none)

unfoldable pub reject : Time → Review → Outcome Review
reject now r =
    if not (status_eq r.status pending) && not (status_eq r.status flagged)
    then (r, invalid "can only reject a pending or flagged review")
    else (moved rejected (review_rejected r.id r.product_id) now r, none)

unfoldable pub flag : Time → Review → Outcome Review
flag now r =
    if not (status_eq r.status approved) && not (status_eq r.status pending)
    then (r, invalid "can only flag an approved or pending review")
    else (moved flagged (review_flagged r.id r.product_id) now r, none)
