-- ===== src/Identity.antt =====
-- Accounts (domain/identity): users, passwords, their reset, and the service.
pub mod User
pub mod Service
pub mod Accounts
mod Tests
