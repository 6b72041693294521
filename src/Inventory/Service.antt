-- ===== src/Inventory/Service.antt =====
-- domain/inventory/service.go, over a repository of items found by their product. Logging and the
-- methods that only read are left out.
use mall.Base.{ℤ}
use mall.Kernel.{KernelId, Time, Action, Repository, modify_stored, create_stored}
use mall.Inventory.Item
use mall.Inventory.Item.{InventoryItem, new_inventory_item}

module _ {S : Type 0} (repo : Repository S InventoryItem KernelId) where
  -- `SetStock` makes a new item.
  unfoldable pub set_stock : KernelId → KernelId → ℤ → ℤ → Time → Time → Action S InventoryItem
  set_stock id product_id quantity low_stock_threshold created updated =
      create_stored repo
        (new_inventory_item id product_id quantity low_stock_threshold created updated)

  unfoldable pub update_stock : KernelId → ℤ → Time → Action S InventoryItem
  update_stock product_id quantity now = modify_stored repo product_id (Item.set_stock quantity now)

  unfoldable pub reserve : KernelId → ℤ → Time → Action S InventoryItem
  reserve product_id quantity now = modify_stored repo product_id (Item.reserve quantity now)

  unfoldable pub release_reservation : KernelId → ℤ → Time → Action S InventoryItem
  release_reservation product_id quantity now =
      modify_stored repo product_id (Item.release_reservation quantity now)

  unfoldable pub confirm_reservation : KernelId → ℤ → Time → Action S InventoryItem
  confirm_reservation product_id quantity now =
      modify_stored repo product_id (Item.confirm_reservation quantity now)

  unfoldable pub restock : KernelId → ℤ → Time → Action S InventoryItem
  restock product_id quantity now = modify_stored repo product_id (Item.restock quantity now)
