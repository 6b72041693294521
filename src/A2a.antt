-- ===== src/A2a.antt =====
-- The agent-to-agent protocol (domain/a2a): tasks and the service that runs skills on them.
pub mod Task
pub mod Skills
pub mod Service
pub mod Life
mod Tests
