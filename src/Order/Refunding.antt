-- ===== src/Order/Refunding.antt =====
-- What a refund does to the payment and to the stock.
use mall.Base.{
  ◌≡◌, refl, sym, subst, ℕ, String, inl, inr, arith, ℤ, pos, ◌<ℤ◌, ◌≤ℤ◌, ◌⊎◌, ltb_ℤ, true, false,
}
use mall.Kernel.{KernelId, Time, Error, Result, ok, err, IsFaithful, Result-cases}
use mall.Payment.Mandate.{Mandate}
use mall.Payment.Service.{refund_mandate}
use mall.Payment.Stored.{FoundRefunded, refund_mandate_ends, refund_mandate_again}
use mall.Order.Types.{Order}
use mall.Order.Refund.{Refund, new_refund}
use mall.Order.RefundService.{
  RefundWorld, RefundService, restock_items, refund_refused, finish_refund, reverse_payment,
  after_reversal, process_refund, carry_out,
}

module _ {M I R : Type 0} (svc : RefundService M I R) where
  finish_refund-mandates :
      (r : Refund) (order : Order) (now : Time) (w : RefundWorld M I R)
      → (finish_refund svc r order now w).1.mandates ≡ w.mandates
  unfolding finish_refund
  finish_refund-mandates r order now w = ground arith

  finish_refund-stock :
      (r : Refund) (order : Order) (now : Time) (w : RefundWorld M I R)
      → (finish_refund svc r order now w).1.stock ≡ restock_items svc order.items now w.stock
  unfolding finish_refund
  finish_refund-stock r order now w = ground arith

  -- A result that is an error and left the mandates and the stock as they were.
  abbrev pub Refuses : RefundWorld M I R → Result Refund × RefundWorld M I R → Type 0
  Refuses w end =
      ((e : Error) × (end.0 ≡ err e)) × (end.1.mandates ≡ w.mandates) × (end.1.stock ≡ w.stock)

  reverse_payment_refused :
      (r : Refund) (order : Order) (mandate_id : KernelId) (now : Time) (w : RefundWorld M I R)
      (e : Error)
      → refund_mandate svc.mandate_repo mandate_id order.grand_total w.mandates
        ≡ (err e, w.mandates)
      → Refuses w (reverse_payment svc r order mandate_id now w)
  unfolding reverse_payment after_reversal refund_refused
  reverse_payment_refused r order mandate_id now w e h =
      subst (λ end. Refuses w (after_reversal svc r order now end w)) (sym h)
        ((e, refl), refl, refl)

  after_reversal-mandates :
      (r : Refund) (order : Order) (now : Time) (end : Result Mandate × M) (w : RefundWorld M I R)
      → (after_reversal svc r order now end w).1.mandates ≡ end.1
  unfolding after_reversal refund_refused
  after_reversal-mandates r order now (err e, mandates) w = refl
  after_reversal-mandates r order now (ok m, mandates) w =
      finish_refund-mandates r order now (record w { mandates = mandates })

  -- A call for a positive mandate id.
  module _ (order : Order) (mandate_id : KernelId) (positive : pos 0 <ℤ mandate_id)
      (kept : Mandate → Mandate) (faithful : IsFaithful svc.mandate_repo (λ m. m.id) kept)
      (kept-status : (m : Mandate) → (kept m).status ≡ m.status) where
    positive_test : ltb_ℤ (pos 0) mandate_id ≡ true
    positive_test = ground arith

    abbrev pub Reversed : M → Type 0
    Reversed = FoundRefunded svc.mandate_repo kept faithful kept-status mandate_id

    carry_out_again :
        (made : Result Refund) (now : Time) (w : RefundWorld M I R)
        → Reversed w.mandates
        → Refuses w (carry_out svc made order mandate_id now w)
    unfolding carry_out
    carry_out_again (err e) now w h = ((e, refl), refl, refl)
    carry_out_again (ok r) now w h =
        let (e, refused) =
          refund_mandate_again svc.mandate_repo kept faithful kept-status mandate_id
            order.grand_total w.mandates h in
        rw positive_test (reverse_payment_refused r order mandate_id now w e refused)

    -- What a call that reports success leaves.
    abbrev pub ReversedIfOk : Result Refund × RefundWorld M I R → Type 0
    ReversedIfOk (ok r, w) = Reversed w.mandates
    ReversedIfOk (err e, w) = Unit

    Reversed-ReversedIfOk :
        (end : Result Refund × RefundWorld M I R) → Reversed end.1.mandates → ReversedIfOk end
    Reversed-ReversedIfOk (ok r, w) h = h
    Reversed-ReversedIfOk (err e, w) h = tt

    ReversedIfOk-Reversed :
        (r : Refund) (end : Result Refund × RefundWorld M I R)
        → ReversedIfOk end
        → end.0 ≡ ok r
        → Reversed end.1.mandates
    ReversedIfOk-Reversed r (ok a, w) h same = h
    ReversedIfOk-Reversed r (err e, w) h same = absurd (ground (arith, same))

    after_reversal-ReversedIfOk :
        (r : Refund) (now : Time) (end : Result Mandate × M) (w : RefundWorld M I R)
        → Reversed end.1 ⊎ ((e : Error) × (end ≡ (err e, w.mandates)))
        → ReversedIfOk (after_reversal svc r order now end w)
    unfolding after_reversal refund_refused
    after_reversal-ReversedIfOk r now (err e, mandates) w h = tt
    after_reversal-ReversedIfOk r now (ok m, mandates) w (inl found) = Reversed-ReversedIfOk _ (
        subst Reversed (sym (finish_refund-mandates r order now (record w { mandates = mandates })))
          found)
    after_reversal-ReversedIfOk r now (ok m, mandates) w (inr (e, same)) =
        absurd (ground (arith, same))

    reverse_payment-ReversedIfOk :
        (r : Refund) (now : Time) (w : RefundWorld M I R)
        → ReversedIfOk (reverse_payment svc r order mandate_id now w)
    unfolding reverse_payment
    reverse_payment-ReversedIfOk r now w = after_reversal-ReversedIfOk r now _ w (
        refund_mandate_ends svc.mandate_repo kept faithful kept-status mandate_id order.grand_total
          w.mandates)

    carry_out-ReversedIfOk :
        (made : Result Refund) (now : Time) (w : RefundWorld M I R)
        → ReversedIfOk (carry_out svc made order mandate_id now w)
    unfolding carry_out
    carry_out-ReversedIfOk (err e) now w = tt
    carry_out-ReversedIfOk (ok r) now w = rw positive_test (reverse_payment-ReversedIfOk r now w)

    -- Over a faithful storage of the mandates, which keeps their status, a payment is paid back
    -- once only: after a refund for a positive mandate id that reported success, each further call
    -- for that mandate and order returns an error and leaves the stock and the mandates as they
    -- are.
    pub process_refund_twice :
        (id1 id2 : KernelId) (reason1 reason2 : String) (clock1 clock2 : ℕ → Time)
        (w : RefundWorld M I R) (r : Refund)
        → (process_refund svc id1 order mandate_id reason1 clock1 w).0 ≡ ok r
        → let w' = (process_refund svc id1 order mandate_id reason1 clock1 w).1 in
          Refuses w' (process_refund svc id2 order mandate_id reason2 clock2 w')
    unfolding process_refund
    process_refund_twice id1 id2 reason1 reason2 clock1 clock2 w r done =
        carry_out_again _ (clock2 3) _
          (ReversedIfOk-Reversed r _ (carry_out-ReversedIfOk _ (clock1 3) w) done)

new_refund_refused :
    (id order_id mandate_id : KernelId) (amount : ℤ) (reason : String) (created updated now : Time)
    (e : Error)
    → new_refund id order_id mandate_id amount reason created updated now ≡ err e
    → (order_id ≤ℤ pos 0) ⊎ (amount ≤ℤ pos 0)
unfolding new_refund
new_refund_refused id order_id mandate_id amount reason created updated now e h = ground arith

carry_out_unpaid :
    {M I R : Type 0} (svc : RefundService M I R) (r : Refund) (order : Order)
    (mandate_id : KernelId) (now : Time) (w : RefundWorld M I R)
    → mandate_id ≤ℤ pos 0
    → (carry_out svc (ok r) order mandate_id now w).1.stock
      ≡ restock_items svc order.items now w.stock
unfolding carry_out
carry_out_unpaid svc r order mandate_id now w unpaid =
    let no_payment : ltb_ℤ (pos 0) mandate_id ≡ false = ground arith in
    rw no_payment (finish_refund-stock svc r order now w)

-- Without a payment to take back nothing tells a second refund from the first: a call for a mandate
-- id that is not positive, and an order with a positive id and a positive total, restocks the
-- order's items each time it is made.
pub process_refund_unpaid :
    {M I R : Type 0} (svc : RefundService M I R) (refund_id : KernelId) (order : Order)
    (mandate_id : KernelId) (reason : String) (clock : ℕ → Time) (w : RefundWorld M I R)
    → mandate_id ≤ℤ pos 0
    → pos 0 <ℤ order.id
    → pos 0 <ℤ order.grand_total
    → (process_refund svc refund_id order mandate_id reason clock w).1.stock
      ≡ restock_items svc order.items (clock 3) w.stock
unfolding process_refund
process_refund_unpaid svc refund_id order mandate_id reason clock w unpaid known positive =
    elim (Result-cases (
      new_refund refund_id order.id mandate_id order.grand_total reason (clock 0) (clock 1)
        (clock 2))) [
          | inl (r, made) ↦
              subst
                (λ (made : Result Refund).
                  (carry_out svc made order mandate_id (clock 3) w).1.stock
                  ≡ restock_items svc order.items (clock 3) w.stock)
                (sym made) (carry_out_unpaid svc r order mandate_id (clock 3) w unpaid)
          | inr (e, refused) ↦
              let low =
                new_refund_refused refund_id order.id mandate_id order.grand_total reason (clock 0)
                  (clock 1) (clock 2) e refused in
              absurd (ground (arith, low, known, positive))
        ]
