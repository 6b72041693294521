-- ===== src/Payment.antt =====
-- Payment mandates (domain/payment): the mandate, its life, the service and what it stores.
pub mod Mandate
pub mod Machine
pub mod Service
pub mod Stored
mod Tests
