-- ===== src/Inventory/Item.antt =====
-- domain/inventory/inventory.go and events.go. A method takes the clock readings that it makes and
-- returns the changed item with its error.
use mall.Base.{Bool, none, if◌then◌else◌, ℤ, pos, ltb_ℤ, leb_ℤ, add64, sub64}
use mall.Kernel.{
  KernelId, Time, AggregateRoot, new_aggregate_root, add_event, touch_root, Result, ok, err,
  Outcome, invalid, new_domain_error, invalid_argument,
}

pub data StockEvent : Type 0 where
  stock_updated stock_reserved stock_reservation_released : KernelId → ℤ → StockEvent
  stock_reservation_confirmed stock_restocked stock_low : KernelId → ℤ → StockEvent
  stock_out_of_stock : KernelId → StockEvent

pub record InventoryItem : Type 0 where
  pub root : AggregateRoot StockEvent
  pub open root use *
  pub product_id : KernelId
  pub quantity_available : ℤ
  pub reserved_quantity : ℤ
  pub low_stock_threshold : ℤ

abbrev pub add_item_event : StockEvent → InventoryItem → InventoryItem
add_item_event e i = record i { root = add_event e i.root }

abbrev pub touch_item : Time → InventoryItem → InventoryItem
touch_item now i = record i { root = touch_root now i.root }

unfoldable pub new_inventory_item : KernelId → KernelId → ℤ → ℤ → Time → Time → Result InventoryItem
new_inventory_item id product_id quantity low_stock_threshold created updated =
    if ltb_ℤ quantity (pos 0)
    then err (new_domain_error invalid_argument "quantity must not be negative")
    else (let threshold =
          if ltb_ℤ low_stock_threshold (pos 0) then pos 10 else low_stock_threshold in
        if leb_ℤ product_id (pos 0)
        then err (new_domain_error invalid_argument "product id must be positive")
        else ok (
            add_item_event (stock_updated product_id quantity) (record {
              root = new_aggregate_root id created updated;
              product_id = product_id;
              quantity_available = quantity;
              reserved_quantity = pos 0;
              low_stock_threshold = threshold;
            })))

unfoldable pub available_quantity : InventoryItem → ℤ
available_quantity i = sub64 i.quantity_available i.reserved_quantity

unfoldable pub is_low_stock : InventoryItem → Bool
is_low_stock i = leb_ℤ i.quantity_available i.low_stock_threshold

unfoldable pub is_out_of_stock : InventoryItem → Bool
is_out_of_stock i = leb_ℤ i.quantity_available (pos 0)

unfoldable pub check_low_stock : InventoryItem → InventoryItem
unfolding is_low_stock is_out_of_stock
check_low_stock i =
    let j =
      if is_low_stock i
      then add_item_event (stock_low i.product_id i.quantity_available) i
      else i in
    if is_out_of_stock j then add_item_event (stock_out_of_stock j.product_id) j else j

unfoldable pub set_stock : ℤ → Time → InventoryItem → Outcome InventoryItem
unfolding check_low_stock
set_stock quantity now i =
    if ltb_ℤ quantity (pos 0) then (i, invalid "quantity must not be negative") else (
      check_low_stock (
          add_item_event (stock_updated i.product_id quantity)
            (touch_item now (record i { quantity_available = quantity }))),
      none,
    )

unfoldable pub reserve : ℤ → Time → InventoryItem → Outcome InventoryItem
reserve quantity now i =
    if leb_ℤ quantity (pos 0)
    then (i, invalid "reserve quantity must be positive")
    else (let available = sub64 i.quantity_available i.reserved_quantity in
        if ltb_ℤ available quantity then (i, invalid "insufficient stock") else (
          add_item_event (stock_reserved i.product_id quantity) (
              touch_item now (record i { reserved_quantity = add64 i.reserved_quantity quantity })),
          none,
        ))

unfoldable pub release_reservation : ℤ → Time → InventoryItem → Outcome InventoryItem
release_reservation quantity now i =
    if leb_ℤ quantity (pos 0)
    then (i, invalid "release quantity must be positive")
    else if ltb_ℤ i.reserved_quantity quantity
    then (i, invalid "cannot release more than reserved")
    else (
      add_item_event (stock_reservation_released i.product_id quantity)
          (touch_item now (record i { reserved_quantity = sub64 i.reserved_quantity quantity })),
      none,
    )

unfoldable pub confirm_reservation : ℤ → Time → InventoryItem → Outcome InventoryItem
unfolding check_low_stock
confirm_reservation quantity now i =
    if leb_ℤ quantity (pos 0)
    then (i, invalid "confirm quantity must be positive")
    else if ltb_ℤ i.reserved_quantity quantity
    then (i, invalid "cannot confirm more than reserved")
    else (
      check_low_stock (
          add_item_event (stock_reservation_confirmed i.product_id quantity) (
            touch_item now (record i {
              quantity_available = sub64 i.quantity_available quantity;
              reserved_quantity = sub64 i.reserved_quantity quantity;
            }))),
      none,
    )

unfoldable pub restock : ℤ → Time → InventoryItem → Outcome InventoryItem
restock quantity now i =
    if leb_ℤ quantity (pos 0) then (i, invalid "restock quantity must be positive") else (
      add_item_event (stock_restocked i.product_id quantity)
          (touch_item now (record i { quantity_available = add64 i.quantity_available quantity })),
      none,
    )
