-- ===== src/Reviews.antt =====
-- Reviews of products (domain/review): a review and its moderation, and the service.
pub mod Review
pub mod Service
pub mod Moderation
mod Tests
