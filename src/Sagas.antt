-- ===== src/Sagas.antt =====
-- The branches of the distributed transactions (interfaces/rest/saga.go), and the sagas that submit
-- them (application/order, application/payment, infrastructure/checkout/mandate_verifier.go).
pub mod Handlers
pub mod Numbers
pub mod Holding
pub mod Undoing
pub mod Compensation
pub mod Branches
pub mod Mandates
pub mod Covered
pub mod Orders
pub mod Idempotence
mod Tests
mod PaymentTests
