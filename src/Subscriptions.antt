-- ===== src/Subscriptions.antt =====
-- Subscriptions (domain/subscription): plans, the life of a subscription, and billing.
pub mod Plans
pub mod Life
pub mod Machine
pub mod Billing
pub mod Service
pub mod Trials
pub mod Due
pub mod TrialLaws
pub mod Cycle
mod Tests
