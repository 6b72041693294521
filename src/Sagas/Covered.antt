-- ===== src/Sagas/Covered.antt =====
-- What the verifier of infrastructure/checkout/mandate_verifier.go makes of a checkout that is paid
-- by a mandate, and what it leaves open.
use Prim.Native.String.{◌++◌ as concat}
use mall.Base.{
  String, ◌≡◌, ◌≢◌, decimal, none, some, arith, ℤ, pos, ◌≤ℤ◌, ◌<ℤ◌, ◌≤◌, ℕ, false, eq_of_parts,
  refl,
}
use mall.Kernel.{
  KernelId, Time, Result, ok, err, Error, Repository, modify_stored_refused, new_domain_error,
  invalid_argument,
}
use mall.Payment.Mandate.{Mandate, approved, execute, has_expired}
use mall.Payment.Service.{WalletTokenValidator}
use mall.Payment.Service as PaymentService
use mall.Sagas.Handlers.{SagaPaymentReq, Body, decoded, execute_mandate}
use mall.Checkout.Service.{CheckoutService, CheckoutWorld}
use mall.Checkout.Session.{CheckoutSession}
use mall.Checkout.Completion.{verify_mandate, start_complete}
use mall.Checkout.Payment.{start_complete_verified}
use mall.Sagas.Branches.{DtmMandateSaga, execute_saga}
use mall.Sagas.Mandates.{
  MandateWorld, check_terms, submit_mandate, verify_and_execute, verify_and_execute_with_token,
  checkout_mandate_verifier,
}

-- A mandate of the user, for at least the amount, that has not expired.
abbrev pub IsCovered : Mandate → KernelId → ℤ → Time → Type 0
IsCovered m user_id amount now =
    (m.user_id ≡ user_id) × (amount ≤ℤ m.scope.max_amount) × (now ≤ m.scope.expiry)

module _ {S D : Type 0} (repo : Repository S Mandate KernelId) (saga : DtmMandateSaga D)
    (now : Time) where
  check_terms_ok :
      (r : Result Mandate) (user_id : KernelId) (amount : ℤ)
      → check_terms repo saga now r user_id amount ≡ ok tt
      → (m : Mandate) × (r ≡ ok m) × IsCovered m user_id amount now
  unfolding check_terms has_expired
  check_terms_ok (err e) user_id amount h = absurd (ground (arith, h))
  check_terms_ok (ok m) user_id amount h =
      (m, refl, (ground (arith, eq_of_parts m.user_id user_id), ground arith, ground arith))

  verified_terms :
      (validate : WalletTokenValidator) (s : CheckoutSession) (w : MandateWorld S D)
      → (verify_mandate (checkout_mandate_verifier repo saga now validate) s w).0 ≡ ok tt
      → check_terms repo saga now (repo.find s.mandate_id w.mandates) s.user_id s.grand_total
        ≡ ok tt
  unfolding verify_mandate checkout_mandate_verifier verify_and_execute
      verify_and_execute_with_token
  verified_terms validate s w h = ground arith

  verify_and_execute_ok :
      (id user_id : KernelId) (amount : ℤ) (m : Mandate) (w : MandateWorld S D)
      → repo.find id w.mandates ≡ ok m
      → IsCovered m user_id amount now
      → (execute_saga saga id (concat "checkout-" (decimal id)) w.dtm).0 ≡ none
      → (verify_and_execute repo saga now id user_id amount w).0 ≡ ok tt
  unfolding verify_and_execute check_terms has_expired submit_mandate
  verify_and_execute_ok id user_id amount m w found covered accepted = ground (arith, covered.0)

  verify_and_execute-mandates :
      (id user_id : KernelId) (amount : ℤ) (w : MandateWorld S D)
      → (verify_and_execute repo saga now id user_id amount w).1.mandates ≡ w.mandates
  unfolding verify_and_execute submit_mandate
  verify_and_execute-mandates id user_id amount w = ground arith

  execute_refused :
      (token : String) (m : Mandate)
      → m.status ≢ approved
      → (execute token m).1
        ≡ some (new_domain_error invalid_argument "can only execute approved mandates")
  unfolding execute
  execute_refused token m other = ground arith

  -- The verifier does not look at the status of a mandate: where the DTM server accepts the saga,
  -- it accepts a mandate of the user that covers the amount and has not expired, whether or not it
  -- was ever approved, and leaves the stored mandates as they are. Where it is not approved, the
  -- branch that is then to execute it replies 409 for every token and changes nothing.
  pub verify_and_execute_unapproved :
      (text : Error → String) (id user_id : KernelId) (amount : ℤ) (m : Mandate) (token : String)
      (w : MandateWorld S D)
      → repo.find id w.mandates ≡ ok m
      → IsCovered m user_id amount now
      → m.status ≢ approved
      → (execute_saga saga id (concat "checkout-" (decimal id)) w.dtm).0 ≡ none
      → let (result, w') = verify_and_execute repo saga now id user_id amount w in
        let body : Body SagaPaymentReq = decoded (record { mandate_id = id; token = token }) in
        let (reply, s) = execute_mandate repo text body w'.mandates in
        (result ≡ ok tt) × (w'.mandates ≡ w.mandates) × (reply.status ≡ 409) × (s ≡ w.mandates)
  unfolding execute_mandate PaymentService.execute_mandate
  verify_and_execute_unapproved text id user_id amount m token w found covered other accepted =
      let same = verify_and_execute-mandates id user_id amount w in
      let refused =
        modify_stored_refused repo id (execute token) w.mandates m found
          (execute_refused token m other) in
      (
        verify_and_execute_ok id user_id amount m w found covered accepted,
        same,
        rw (same, refused) refl,
        rw (same, refused) refl,
      )

module _ {S M D : Type 0} (repo : Repository M Mandate KernelId) (saga : DtmMandateSaga D)
    (now : Time) (validate : WalletTokenValidator) (svc : CheckoutService S (MandateWorld M D))
    (v : svc.mandate_verifier ≡ some (checkout_mandate_verifier repo saga now validate)) where
  -- Where a checkout service with this verifier completes a session with no escalation, and that is
  -- to be paid by a mandate (the handler ap2_mandate, a positive mandate id), the mandate is
  -- stored, is one of the session's user, allows at least the grand total, and has not expired.
  pub start_complete-IsCovered :
      (id : KernelId) (url : String) (clock : ℕ → Time) (w w' : CheckoutWorld S (MandateWorld M D))
      (r s : CheckoutSession)
      → start_complete svc id url clock w ≡ (ok (r, false), w')
      → svc.repo.find id w.store ≡ ok s
      → s.payment_handler ≡ "ap2_mandate"
      → pos 0 <ℤ s.mandate_id
      → (m : Mandate) × (repo.find s.mandate_id w.outside.mandates ≡ ok m)
        × IsCovered m s.user_id s.grand_total now
  start_complete-IsCovered id url clock w w' r s h found handler positive =
      check_terms_ok repo saga now _ s.user_id s.grand_total (
        verified_terms repo saga now validate s w.outside
          (start_complete_verified svc id url clock w w' r s h found _ v handler positive))
