-- ===== src/Oauth.antt =====
-- The OAuth server (domain/oauth): clients, authorization codes, tokens and the service.
pub mod Values
pub mod Service
pub mod Exchange
pub mod Once
pub mod Rotation
mod Tests
