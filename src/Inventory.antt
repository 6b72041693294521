-- ===== src/Inventory.antt =====
-- Stock of a product (domain/inventory): the item with its reservations, and the service.
pub mod Item
pub mod Service
pub mod Invariant
pub mod Reservation
pub mod Stock
pub mod Race
mod Tests
