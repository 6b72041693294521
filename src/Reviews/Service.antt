-- ===== src/Reviews/Service.antt =====
-- domain/review/service.go. The queries and the average are left out.
use mall.Base.{String, not, Option, if◌then◌else◌, ℤ}
use mall.Kernel.{
  KernelId, Time, Result, ok, err, Error, Action, ◌>>=◌, ◌>>◌, from_result, from_save, Repository,
  create_stored, modify_stored, is_not_found, new_domain_error, already_exists,
}
use mall.Reviews.Review.{Review, new_rating, new_review, approve, reject}

pub record ReviewRepository (S : Type 0) : Type 0 where
  pub save : Review → S → Option Error × S
  pub find_by_id : KernelId → S → Result Review
  pub find_by_product_and_user : KernelId → KernelId → S → Result Review
  pub delete : KernelId → S → Option Error × S

module _ {S : Type 0} (repo : ReviewRepository S) where
  abbrev by_id : Repository S Review KernelId
  by_id = record { find = repo.find_by_id; save = repo.save }

  -- From the look-up on: an error other than that there is none is returned.
  abbrev pub unless_reviewed : Result Review → Action S Review → Action S Review
  unless_reviewed (ok existing) go s =
      (err (new_domain_error already_exists "user already reviewed this product"), s)
  unless_reviewed (err e) go s = if not (is_not_found e) then (err e, s) else go s

  unfoldable pub create_review :
      KernelId → KernelId → KernelId → ℤ → String → String → Time → Time → Action S Review
  create_review id product_id user_id rating title content created updated = do
    r ← from_result (new_rating rating)
    λ s.
        unless_reviewed (repo.find_by_product_and_user product_id user_id s)
          (create_stored by_id (new_review id product_id user_id r title content created updated)) s

  unfoldable pub approve_review : KernelId → Time → Action S Review
  approve_review id now = modify_stored by_id id (approve now)

  unfoldable pub reject_review : KernelId → Time → Action S Review
  reject_review id now = modify_stored by_id id (reject now)

  unfoldable pub delete_review : KernelId → Action S (Unit {0})
  delete_review id s = (do from_result (repo.find_by_id id s); from_save (repo.delete id)) s
