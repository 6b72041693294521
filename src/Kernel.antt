-- ===== src/Kernel.antt =====
-- The shared kernel of the domain layer (domain/kernel): errors, results, entities and aggregate
-- roots, money, ids, and the calls that the domain services make on their collaborators.
mod Errors
mod Entities
mod Effects
mod Stored
mod StoredLaws
mod Memory
unfoldable pub use Errors.*
unfoldable pub use Entities.*
unfoldable pub use Effects.*
unfoldable pub use Stored.*
unfoldable pub use StoredLaws.*
unfoldable pub use Memory.*
