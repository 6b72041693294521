-- ===== src/Order/RefundService.antt =====
-- domain/order/refund_service.go: the refund of an order over the mandates, the stock and the
-- refunds.
use mall.Base.{ℕ, String, none, some, List, [], ◌∷◌, if◌then◌else◌, pos, ltb_ℤ}
use mall.Kernel.{KernelId, Time, Result, ok, err, Error, Action, Repository}
use mall.Payment.Mandate.{Mandate}
use mall.Payment.Service.{refund_mandate}
use mall.Inventory.Item.{InventoryItem}
use mall.Inventory.Service.{restock}
use mall.Order.Types.{OrderLineItem, Order}
use mall.Order.Refund.{Refund, new_refund, mark_processed, mark_failed}

pub record RefundWorld (M I R : Type 0) : Type 0 where
  pub mandates : M
  pub stock : I
  pub refunds : R

pub record RefundService (M I R : Type 0) : Type 0 where
  pub mandate_repo : Repository M Mandate KernelId
  pub stock_repo : Repository I InventoryItem KernelId
  pub refund_repo : Repository R Refund KernelId
  -- `Error()` of an error value
  pub error_text : Error → String

module _ {M I R : Type 0} (svc : RefundService M I R) where
  -- The loop over the order's items: a restock that fails is logged and passed over.
  unfoldable pub restock_items : List OrderLineItem → Time → I → I
  restock_items [] now stock = stock
  restock_items (item ∷ items) now stock =
      restock_items items now (restock svc.stock_repo item.product_id item.quantity now stock).1

  -- A payment that is not taken back: the refund is marked failed and saved, both with their errors
  -- ignored, and the payment's error returned.
  unfoldable pub refund_refused : Refund → Error → Time → Action (RefundWorld M I R) Refund
  refund_refused r e now w = (
    err e,
    record w {
      refunds = (svc.refund_repo.save (mark_failed (svc.error_text e) now r).0 w.refunds).1;
    },
  )

  -- From the loop on.
  unfoldable pub finish_refund : Refund → Order → Time → Action (RefundWorld M I R) Refund
  finish_refund r order now w =
      let stock = restock_items order.items now w.stock in
      let (saved, refunds) = svc.refund_repo.save (mark_processed now r).0 w.refunds in
      elim (mark_processed now r).1 [
        | some e ↦ (err e, record w { stock = stock })
        | none ↦ elim saved [
          | some e ↦ (err e, record w { stock = stock; refunds = refunds })
          | none ↦ (ok (mark_processed now r).0, record w { stock = stock; refunds = refunds })
        ]
      ]

  -- From the check of the reversal's error on.
  unfoldable pub after_reversal :
      Refund → Order → Time → Result Mandate × M → Action (RefundWorld M I R) Refund
  after_reversal r order now (err e, mandates) w =
      refund_refused r e now (record w { mandates = mandates })
  after_reversal r order now (ok m, mandates) w =
      finish_refund r order now (record w { mandates = mandates })

  -- The reversal of the payment, for a positive mandate id.
  unfoldable pub reverse_payment :
      Refund → Order → KernelId → Time → Action (RefundWorld M I R) Refund
  reverse_payment r order mandate_id now w =
      after_reversal r order now
        (refund_mandate svc.mandate_repo mandate_id order.grand_total w.mandates) w

  -- From the check of the refund's error on.
  unfoldable pub carry_out :
      Result Refund → Order → KernelId → Time → Action (RefundWorld M I R) Refund
  carry_out (err e) order mandate_id now w = (err e, w)
  carry_out (ok r) order mandate_id now w =
      if ltb_ℤ (pos 0) mandate_id
      then reverse_payment r order mandate_id now w
      else finish_refund r order now w

  -- `clock i` is the call's i-th reading of the clock; from the fourth on one reading serves.
  unfoldable pub process_refund :
      KernelId → Order → KernelId → String → (ℕ → Time) → Action (RefundWorld M I R) Refund
  process_refund refund_id order mandate_id reason clock =
      carry_out
        (new_refund refund_id order.id mandate_id order.grand_total reason (clock 0) (clock 1)
          (clock 2))
        order mandate_id (clock 3)
