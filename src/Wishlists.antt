-- ===== src/Wishlists.antt =====
-- Wishlists (domain/wishlist): the list, the service, and the set that they stand for.
pub mod Wishlist
pub mod Service
pub mod Members
pub mod Refinement
mod Tests
