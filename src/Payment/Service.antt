-- ===== src/Payment/Service.antt =====
-- domain/payment/service.go. Logging and the methods that only read are left
-- out.
use mall.Base.{String, not, Option, none, some, ℤ, eqb_ℤ}
use mall.Kernel.{
  KernelId, Time, Result, ok, err, Error, Action, ◌>>=◌, ◌>>◌, pure, raise, raise_if, from_outcome,
  from_result, from_save, Repository, modify_stored, create_stored, new_domain_error,
  new_domain_error_with_cause, invalid_argument, permission_denied,
}
use mall.Payment.Mandate
use mall.Payment.Mandate.{
  Mandate, MandateScope, new_mandate, raise_event, token_exchanged, token_verification_failed,
}

pub record TokenValidationResult : Type 0 where
  pub provider : String
  pub token : String
  pub expiry : Time

-- `WalletTokenValidator.ValidateToken`, and `Error()` of an error value.
abbrev pub WalletTokenValidator : Type 0
WalletTokenValidator = String → String → Result TokenValidationResult

module _ {S : Type 0} (repo : Repository S Mandate KernelId) where
  unfoldable pub request_mandate :
      KernelId → KernelId → MandateScope → Time → Time → Time → Action S Mandate
  request_mandate id user_id scope now created updated =
      create_stored repo (new_mandate id user_id scope now created updated)

  unfoldable pub approve_mandate : KernelId → String → Time → Action S Mandate
  approve_mandate id signature now = modify_stored repo id (Mandate.approve signature now)

  unfoldable pub execute_mandate : KernelId → String → Action S Mandate
  execute_mandate id token = modify_stored repo id (Mandate.execute token)

  unfoldable pub settle_mandate : KernelId → Action S Mandate
  settle_mandate id = modify_stored repo id Mandate.settle

  unfoldable pub refund_mandate : KernelId → ℤ → Action S Mandate
  refund_mandate id amount = modify_stored repo id (Mandate.refund amount)

  unfoldable pub cancel_mandate : KernelId → Action S Mandate
  cancel_mandate id = modify_stored repo id Mandate.cancel

  -- The event of a token that was refused is stored if the mandate is found, and the outcome of the
  -- saving is ignored.
  unfoldable pub note_refused : KernelId → KernelId → String → String → S → S
  note_refused mandate_id user_id provider reason s = elim (repo.find mandate_id s) [
    | err e ↦ s
    | ok m ↦
        (repo.save (raise_event (token_verification_failed mandate_id user_id provider reason) m)
          s).1
  ]

  unfoldable pub exchange_valid : KernelId → String → String → KernelId → Action S Mandate
  exchange_valid mandate_id token provider user_id s =
      (do
        m ← from_result (repo.find mandate_id s)
        raise_if (not (eqb_ℤ m.user_id user_id))
            (new_domain_error permission_denied "mandate does not belong to this user")
        done ← from_outcome (Mandate.execute token m)
        let exchanged = raise_event (token_exchanged mandate_id user_id provider token) done
        from_save (repo.save exchanged)
        pure exchanged)
        s

  -- `reason` is the text of the validator's error, `err.Error()`.
  unfoldable pub exchange_wallet_token :
      Option WalletTokenValidator
      → (Error → String)
      → KernelId
      → String
      → String
      → KernelId
      → Action S Mandate
  exchange_wallet_token none reason mandate_id token provider user_id s =
      raise (new_domain_error invalid_argument "wallet token validator not configured") s
  exchange_wallet_token (some validate) reason mandate_id token provider user_id s =
      elim (validate token provider) [
        | err e ↦ (
          err (new_domain_error_with_cause invalid_argument "token validation failed" e),
          note_refused mandate_id user_id provider (reason e) s,
        )
        | ok result ↦ exchange_valid mandate_id result.token provider user_id s
      ]
