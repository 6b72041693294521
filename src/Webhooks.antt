-- ===== src/Webhooks.antt =====
-- Webhooks (domain/order/webhook.go, infrastructure/order): their registration, the delivery of an
-- event and the worker that tries again what failed.
pub mod Webhook
pub mod Delivery
pub mod Outcome
pub mod Keeping
pub mod Redelivery
pub mod Resending
mod Tests
mod RetryTests
