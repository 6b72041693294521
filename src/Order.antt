-- ===== src/Order.antt =====
-- Orders (domain/order): the order and its life, the service, and refunds.
pub mod Types
pub mod Life
pub mod Service
pub mod Creation
pub mod Machine
pub mod Announce
pub mod Refund
pub mod RefundService
pub mod Refunding
mod Tests
mod RefundTests
