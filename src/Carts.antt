-- ===== src/Carts.antt =====
-- Carts (domain/cart): the lines, the cart, the service.
pub mod Lines
pub mod Changes
pub mod Service
pub mod LineLaws
pub mod Life
pub mod Promise
pub mod Refinement
pub mod Merging
mod Tests
