-- ===== src/Pricing.antt =====
-- Amounts and discount codes (domain/kernel/money.go, domain/discount).
pub mod Money
pub mod Discount
pub mod Bounds
mod Tests
