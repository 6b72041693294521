-- ===== src/Payment/Stored.antt =====
-- What the payment service does to the stored mandates.
use mall.Base.{
  ◌≡◌, ap, subst, ◌∙◌, ◌<◌, String, none, some, inl, inr, arith, ℤ, is_empty, false, ◌⊎◌,
}
use mall.Kernel.{
  KernelId, Time, Error, Result, ok, err, Repository, IsFaithful, invalid_argument,
  new_domain_error, modify_stored, modify_stored-Ends, modify_stored_refused, Ends,
}
use mall.Payment.Mandate.{Mandate, requested, refunded, approve, refund}
use mall.Payment.Service.{approve_mandate, refund_mandate}

abbrev pub mandate_has_expired : Error
mandate_has_expired = new_domain_error invalid_argument "mandate has expired"

approve_late :
    (signature : String) (now : Time) (m : Mandate)
    → m.status ≡ requested
    → is_empty signature ≡ false
    → m.scope.expiry < now
    → (approve signature now m).1 ≡ some mandate_has_expired
unfolding approve
approve_late signature now m h t late = ground arith

refund_repeated :
    (amount : ℤ) (m : Mandate) → m.status ≡ refunded → (e : Error) × ((refund amount m).1 ≡ some e)
unfolding refund
refund_repeated amount m h =
    (new_domain_error invalid_argument "can only refund settled mandates", ground arith)

refund-status : (amount : ℤ) (m a : Mandate) → refund amount m ≡ (a, none) → a.status ≡ refunded
unfolding refund
refund-status amount m a e = ground arith

refund-id : (amount : ℤ) (m a : Mandate) → refund amount m ≡ (a, none) → a.id ≡ m.id
unfolding refund
refund-id amount m a e = ground arith

-- Where a requested mandate has expired and the signature is not empty, `Approve` marks it expired,
-- but the service returns its error before it saves: the storage keeps the mandate as it was, still
-- requested.
pub approve_mandate_late :
    {S : Type 0} (repo : Repository S Mandate KernelId) (id : KernelId) (signature : String)
    (now : Time) (m : Mandate) (s : S)
    → repo.find id s ≡ ok m
    → m.status ≡ requested
    → is_empty signature ≡ false
    → m.scope.expiry < now
    → approve_mandate repo id signature now s ≡ (err mandate_has_expired, s)
unfolding approve_mandate
approve_mandate_late repo id signature now m s found h t late =
    modify_stored_refused repo id (approve signature now) s m found
      (approve_late signature now m h t late)

module _ {S : Type 0} (repo : Repository S Mandate KernelId) (kept : Mandate → Mandate)
    (faithful : IsFaithful repo (λ m. m.id) kept)
    (kept-status : (m : Mandate) → (kept m).status ≡ m.status) where
  -- A mandate that is found under the id and is refunded.
  abbrev pub FoundRefunded : KernelId → S → Type 0
  FoundRefunded id s = (m : Mandate) × (repo.find id s ≡ ok m) × (m.status ≡ refunded)

  Ends-FoundRefunded :
      (id : KernelId) (amount : ℤ) (s : S) (end : Result Mandate × S)
      → Ends repo (λ m. m.id) kept faithful id (refund amount) s end
      → (FoundRefunded id end.1) ⊎ ((e : Error) × (end ≡ (err e, s)))
  Ends-FoundRefunded id amount s (err e, s') same = inr (e, ap (λ t. (err e, t)) same)
  Ends-FoundRefunded id amount s (ok a, s') (b, found, done, stored, again) =
      let same_id : a.id ≡ id = refund-id amount b a done ∙ faithful.find_key id b s found in
      inl (
        kept a,
        subst (λ k. repo.find k s' ≡ ok (kept a)) same_id again,
        kept-status a ∙ refund-status amount b a done,
      )

  -- A refund of a stored mandate leaves it refunded, or returns an error and changes nothing.
  pub refund_mandate_ends :
      (id : KernelId) (amount : ℤ) (s : S)
      → (FoundRefunded id (refund_mandate repo id amount s).1)
        ⊎ ((e : Error) × (refund_mandate repo id amount s ≡ (err e, s)))
  unfolding refund_mandate
  refund_mandate_ends id amount s =
      Ends-FoundRefunded id amount s (modify_stored repo id (refund amount) s)
        (modify_stored-Ends repo (λ m. m.id) kept faithful id (refund amount) s)

  -- A refunded mandate is not refunded again.
  pub refund_mandate_again :
      (id : KernelId) (amount : ℤ) (s : S)
      → FoundRefunded id s
      → (e : Error) × (refund_mandate repo id amount s ≡ (err e, s))
  unfolding refund_mandate
  refund_mandate_again id amount s (m, found, h) =
      let (e, refused) = refund_repeated amount m h in
      (e, modify_stored_refused repo id (refund amount) s m found refused)
