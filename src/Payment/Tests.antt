-- ===== src/Payment/Tests.antt =====
-- The mandate theorems at a mandate for up to 5000.
use mall.Base.{◌≡◌, refl, List, [], ◌∷◌, pos}
use mall.Kernel.{KernelId, clear_events, ok, memory, memory-IsFaithful, Repository, IsFaithful}
use mall.Payment.Mandate.{
  Mandate, MandateScope, requested, approved, settled, new_mandate, mandate_requested,
}
use mall.Payment.Machine.{approves, executes, settles, run_mandate, run_mandate-IsSigned, IsSigned}

abbrev scope : MandateScope
scope = record { max_amount = pos 5000; merchant_id = pos 9; expiry = 500; allowed_handlers = [] }

abbrev mandate : Mandate
mandate = record {
  root = record {
    entity = record { id = pos 4; created_at = 100; updated_at = 101 };
    events = mandate_requested (pos 4) (pos 2) (pos 5000) (pos 9) ∷ [];
  };
  user_id = pos 2;
  status = requested;
  scope = scope;
  signature = "";
  token = "";
}

abbrev signed : Mandate
signed = record mandate { status = approved; signature = "sig" }

abbrev settled_mandate : Mandate
settled_mandate = record signed { status = settled; token = "tok" }

new_mandate_made : new_mandate (pos 4) (pos 2) scope 99 100 101 ≡ ok mandate
unfolding new_mandate
new_mandate_made = refl

run_mandate-IsSigned_example :
    IsSigned (run_mandate (approves "sig" 200 ∷ executes "tok" ∷ settles ∷ []) mandate)
run_mandate-IsSigned_example =
    run_mandate-IsSigned (pos 4) (pos 2) scope 99 100 101 mandate
      (approves "sig" 200 ∷ executes "tok" ∷ settles ∷ []) new_mandate_made

abbrev kept : Mandate → Mandate
kept m = record m { root = clear_events m.root }

abbrev mandates : Repository (List Mandate) Mandate KernelId
mandates = memory (λ m. m.id) kept

mandates-IsFaithful : IsFaithful mandates (λ m. m.id) kept
mandates-IsFaithful = memory-IsFaithful (λ m. m.id) kept (λ m. refl)

found_mandate : mandates.find (pos 4) (mandate ∷ []) ≡ ok mandate
unfolding memory
found_mandate = refl
