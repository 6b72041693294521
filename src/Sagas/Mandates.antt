-- ===== src/Sagas/Mandates.antt =====
-- infrastructure/checkout/mandate_verifier.go: the verifier that the checkout asks, over the stored
-- mandates and the DTM server. `expires_at` is a reading of the clock.
use Prim.Native.String.{◌++◌ as concat}
use mall.Base.{String, not, Option, none, some, if◌then◌else◌, ℤ, eqb_ℤ, ltb_ℤ, decimal}
use mall.Kernel.{
  KernelId, Time, Result, ok, err, Error, Action, Repository, ◌>>=◌, ◌>>◌, from_result,
  new_domain_error, new_domain_error_with_cause, invalid_argument, permission_denied, internal,
}
use mall.Payment.Mandate.{Mandate, has_expired}
use mall.Payment.Service.{WalletTokenValidator, TokenValidationResult}
use mall.Checkout.Service.{MandateVerifier}
use mall.Sagas.Branches.{DtmMandateSaga, execute_saga}

-- The mandates, and what stands behind the DTM client.
pub record MandateWorld (S D : Type 0) : Type 0 where
  pub mandates : S
  pub dtm : D

module _ {S D : Type 0} (repo : Repository S Mandate KernelId) (saga : DtmMandateSaga D)
    (now : Time) where
  abbrev submitted : Option Error × D → S → Result (Unit {0}) × MandateWorld S D
  submitted (none, d) s = (ok tt, record { mandates = s; dtm = d })
  submitted (some e, d) s = (
    err (
        new_domain_error_with_cause internal
          "mandate verification failed: cannot execute mandate saga" e),
    record { mandates = s; dtm = d },
  )

  unfoldable pub submit_mandate : KernelId → String → Action (MandateWorld S D) (Unit {0})
  submit_mandate id token w = submitted (execute_saga saga id token w.dtm) w.mandates

  -- The checks of a mandate that was found, or not.
  unfoldable pub check_terms : Result Mandate → KernelId → ℤ → Result (Unit {0})
  check_terms (err e) user_id amount = err (
      new_domain_error_with_cause invalid_argument
        "mandate verification failed: cannot retrieve mandate" e)
  check_terms (ok m) user_id amount =
      if not (eqb_ℤ m.user_id user_id)
      then err (new_domain_error permission_denied "mandate does not belong to this user")
      else if ltb_ℤ m.scope.max_amount amount
      then err (new_domain_error invalid_argument "mandate max amount is less than checkout total")
      else if has_expired now m
      then err (new_domain_error invalid_argument "mandate has expired")
      else ok tt

  unfoldable pub verify_and_execute : KernelId → KernelId → ℤ → Action (MandateWorld S D) (Unit {0})
  verify_and_execute mandate_id user_id amount w =
      (do
        from_result (check_terms (repo.find mandate_id w.mandates) user_id amount)
        submit_mandate mandate_id (concat "checkout-" (decimal mandate_id)))
        w

  abbrev valid_token : Result TokenValidationResult → Result String
  valid_token (ok r) = ok r.token
  valid_token (err e) = err (
      new_domain_error_with_cause invalid_argument
        "mandate verification failed: wallet token validation failed" e)

  unfoldable pub verify_and_execute_with_token :
      WalletTokenValidator
      → KernelId
      → KernelId
      → ℤ
      → String
      → String
      → Action (MandateWorld S D) (Unit {0})
  verify_and_execute_with_token validate mandate_id user_id amount token provider w =
      (do
        from_result (check_terms (repo.find mandate_id w.mandates) user_id amount)
        valid ← from_result (valid_token (validate token provider))
        submit_mandate mandate_id valid)
        w

  unfoldable pub checkout_mandate_verifier :
      WalletTokenValidator → MandateVerifier (MandateWorld S D)
  checkout_mandate_verifier validate = record {
    verify_and_execute = verify_and_execute;
    verify_and_execute_with_token = verify_and_execute_with_token validate;
  }
