-- ===== src/Middleware.antt =====
-- HTTP middleware (interfaces/middleware): the circuit breaker.
pub mod Breaker
pub mod BreakerLaws
pub mod Recovery
pub mod UserText
pub mod Auth
pub mod Bearer
mod Tests
mod BearerTests
