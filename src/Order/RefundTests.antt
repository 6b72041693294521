-- ===== src/Order/RefundTests.antt =====
-- The refund theorems at a paid order for two pieces of one product.
use mall.Base.{◌≡◌, refl, List, [], ◌∷◌, arith, pos, String}
use mall.Kernel.{
  KernelId, new_aggregate_root, clear_events, Repository, IsFaithful, Error, memory,
  memory-IsFaithful, modify_stored,
}
use mall.Checkout.Samples.{fresh}
use mall.Checkout.Values.{completed, total_price}
use mall.Inventory.Item
use mall.Inventory.Item.{InventoryItem}
use mall.Inventory.Service
use mall.Payment.Mandate
use mall.Payment.Mandate.{Mandate, MandateEvent, settled}
use mall.Payment.Service.{refund_mandate}
use mall.Order.Types.{Order}
use mall.Order.Life.{order_of, line_item, line_items}
use mall.Order.Refund.{Refund, new_refund, mark_processed}
use mall.Order.RefundService.{
  RefundService, RefundWorld, process_refund, restock_items, carry_out, reverse_payment,
  after_reversal, finish_refund,
}
use mall.Order.Refunding.{Refuses, process_refund_twice}

abbrev order : Order
order = order_of (pos 5) (record fresh { status = completed; grand_total = pos 1400 }) 300

abbrev mandate : Mandate
mandate = record {
  root = new_aggregate_root (pos 4) 100 101;
  user_id = pos 2;
  status = settled;
  scope = record {
    max_amount = pos 5000;
    merchant_id = pos 9;
    expiry = 500;
    allowed_handlers = [];
  };
  signature = "sig";
  token = "tok";
}

abbrev item : InventoryItem
item = record {
  root = new_aggregate_root (pos 1) 100 100;
  product_id = pos 7;
  quantity_available = pos 10;
  reserved_quantity = pos 3;
  low_stock_threshold = pos 2;
}

abbrev kept : Mandate → Mandate
kept m = record m { root = clear_events m.root }

abbrev mandates : Repository (List Mandate) Mandate KernelId
mandates = memory (λ m. m.id) kept

mandates-IsFaithful : IsFaithful mandates (λ m. m.id) kept
mandates-IsFaithful = memory-IsFaithful (λ m. m.id) kept (λ m. refl)

abbrev text : Error → String
text e = "refused"

abbrev svc : RefundService (List Mandate) (List InventoryItem) (List Refund)
svc = record {
  mandate_repo = mandates;
  stock_repo = memory (λ i. i.product_id) (λ i. i);
  refund_repo = memory (λ r. r.root.id) (λ r. r);
  error_text = text;
}

abbrev world : RefundWorld (List Mandate) (List InventoryItem) (List Refund)
world = record { mandates = mandate ∷ []; stock = item ∷ []; refunds = [] }

process_refund_twice_example :
    let w' = (process_refund svc (pos 11) order (pos 4) "broken" (λ i. 400) world).1 in
    Refuses svc w' (process_refund svc (pos 12) order (pos 4) "again" (λ i. 500) w')
unfolding process_refund carry_out reverse_payment after_reversal finish_refund refund_mandate
    modify_stored memory new_refund mark_processed order_of restock_items Mandate.refund
    Service.restock Item.restock line_items line_item total_price
process_refund_twice_example =
    process_refund_twice svc order (pos 4) (omega arith) kept mandates-IsFaithful (λ m. refl)
      (pos 11) (pos 12) "broken" "again" (λ i. 400) (λ i. 500) world _ refl

order_id : order.id ≡ pos 5
unfolding order_of
order_id = refl
