-- ===== src/Checkout.antt =====
-- A checkout session (domain/checkout): its values, its state machine, and the service.
pub mod Values
pub mod Session
pub mod Machine
pub mod Totals
pub mod Service
pub mod Completion
pub mod Checks
pub mod Payment
pub mod Unpaid
pub mod Handlers
pub mod Samples
mod HandlerTests
mod Tests
