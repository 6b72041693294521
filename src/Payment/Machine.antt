-- ===== src/Payment/Machine.antt =====
-- The life of a mandate under all its methods.
use mall.Base.{
  String, ◌≡◌, ◌⊎◌, Bool, true, false, none, some, List, [], ◌∷◌, arith, ℤ, pos, ◌≤ℤ◌, ◌<ℤ◌,
  is_empty, ◌↔◌,
}
use mall.Kernel.{KernelId, Time, ok, Outcome, Error}
use mall.Payment.Mandate.{
  MandateStatus, requested, approved, executed, settled, refunded, cancelled, expired, MandateScope,
  Mandate, new_mandate, approve, execute, settle, refund, cancel,
}

pub data MandateCall : Type 0 where
  approves : String → Time → MandateCall
  executes : String → MandateCall
  settles cancels : MandateCall
  refunds : ℤ → MandateCall

unfoldable pub perform_mandate : MandateCall → Mandate → Outcome Mandate
perform_mandate (approves signature now) m = approve signature now m
perform_mandate (executes token) m = execute token m
perform_mandate settles m = settle m
perform_mandate (refunds amount) m = refund amount m
perform_mandate cancels m = cancel m

-- The edges of the state diagram. All that a method asks of the state before it cancels is that the
-- mandate is neither settled nor cancelled.
infix 40 ◌⟶◌
pub data ◌⟶◌ : MandateStatus → MandateStatus → Type 0 where
  stay : {s : MandateStatus} → s ⟶ s
  sign : requested ⟶ approved
  lapse : requested ⟶ expired
  pay : approved ⟶ executed
  clear : executed ⟶ settled
  reverse : settled ⟶ refunded
  drop_requested : requested ⟶ cancelled
  drop_approved : approved ⟶ cancelled
  drop_executed : executed ⟶ cancelled
  drop_refunded : refunded ⟶ cancelled
  drop_expired : expired ⟶ cancelled

ruleset edges = (
  stay, sign, lapse, pay, clear, reverse, drop_requested, drop_approved, drop_executed,
  drop_refunded, drop_expired,
)

-- Every method of a mandate, on every branch, keeps the status or follows an edge of the diagram.
pub perform_mandate-⟶ : (c : MandateCall) (m : Mandate) → m.status ⟶ (perform_mandate c m).0.status
unfolding perform_mandate approve execute settle refund cancel
perform_mandate-⟶ (approves signature now) m = grind (arith, edges)
perform_mandate-⟶ c m = grind (arith, edges)

-- A method that returns an error leaves the mandate as it was, but for an approval after the
-- expiry, which marks it expired.
pub perform_mandate_error :
    (c : MandateCall) (m : Mandate) {e : Error}
    → (perform_mandate c m).1 ≡ some e
    → ((perform_mandate c m).0 ≡ m)
      ⊎ ((m.status ≡ requested) × ((perform_mandate c m).0 ≡ record m { status = expired }))
unfolding perform_mandate approve execute settle refund cancel
perform_mandate_error (approves signature now) m h = ground arith
perform_mandate_error c m h = ground arith

-- What a mandate carries tells what was done with it: a signature since the approval, a token since
-- the execution.
abbrev pub was_executed : MandateStatus → Bool
was_executed executed = true
was_executed settled = true
was_executed refunded = true
was_executed _ = false

pub record IsSigned (m : Mandate) : Type 0 where
  pub approved_signature : m.status ≡ approved → is_empty m.signature ≡ false
  pub executed_signature : was_executed m.status ≡ true → is_empty m.signature ≡ false
  pub executed_token : was_executed m.status ≡ true → is_empty m.token ≡ false
  pub positive : pos 0 <ℤ m.scope.max_amount

new_mandate-IsSigned :
    (id user : KernelId) (scope : MandateScope) (now t u : Time) (m : Mandate)
    → new_mandate id user scope now t u ≡ ok m
    → IsSigned m
unfolding new_mandate
new_mandate-IsSigned id user scope now t u m e = ground arith

perform_mandate-IsSigned :
    (c : MandateCall) (m : Mandate) → IsSigned m → IsSigned (perform_mandate c m).0
unfolding perform_mandate approve execute settle refund cancel
perform_mandate-IsSigned (approves signature now) m h = ground arith
perform_mandate-IsSigned c m h = ground arith

abbrev pub run_mandate : List MandateCall → Mandate → Mandate
run_mandate [] m = m
run_mandate (c ∷ cs) m = run_mandate cs (perform_mandate c m).0

run_mandate-IsSigned_from :
    (cs : List MandateCall) (m : Mandate) → IsSigned m → IsSigned (run_mandate cs m)
run_mandate-IsSigned_from [] m h = h
run_mandate-IsSigned_from (c ∷ cs) m h =
    run_mandate-IsSigned_from cs (perform_mandate c m).0 (perform_mandate-IsSigned c m h)

-- Whatever is called on a new mandate, in any sequence: while approved, executed, settled or
-- refunded it carries a signature, from the execution to the refund a token, and its limit is
-- positive.
pub run_mandate-IsSigned :
    (id user : KernelId) (scope : MandateScope) (now t u : Time) (m : Mandate)
    (cs : List MandateCall)
    → new_mandate id user scope now t u ≡ ok m
    → IsSigned (run_mandate cs m)
run_mandate-IsSigned id user scope now t u m cs e =
    run_mandate-IsSigned_from cs m (new_mandate-IsSigned id user scope now t u m e)

-- A refund succeeds exactly on a settled mandate, for a positive amount up to its limit.
pub refund_ok_iff :
    (amount : ℤ) (m : Mandate)
    → ((refund amount m).1 ≡ none)
      ↔ ((m.status ≡ settled) × (pos 0 <ℤ amount) × (amount ≤ℤ m.scope.max_amount))
unfolding refund
refund_ok_iff amount m = (λ h. ground arith, λ h. ground arith)

-- An approval succeeds only up to the expiry, but an execution asks for no time: a mandate that is
-- approved is executed however long ago it expired, if the token is not empty.
pub execute_ignores_expiry :
    (token : String) (m : Mandate)
    → m.status ≡ approved
    → is_empty token ≡ false
    → ((execute token m).1 ≡ none)
      × ((execute token m).0.status ≡ executed)
      × ((execute token m).0.scope ≡ m.scope)
unfolding execute
execute_ignores_expiry token m h t = ground arith

-- A mandate whose money was paid back can still be cancelled, and keeps its token.
pub cancel_refunded :
    (m : Mandate)
    → m.status ≡ refunded
    → ((cancel m).1 ≡ none) × ((cancel m).0.status ≡ cancelled) × ((cancel m).0.token ≡ m.token)
unfolding cancel
cancel_refunded m h = ground arith
