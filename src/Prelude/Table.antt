-- ===== src/Prelude/Table.antt =====
-- JavaScript's `Map` and plain objects by string keys: an association list in insertion order.
mod Laws
mod Eviction
mod Defs
unfoldable pub use Defs.*
pub use Laws.*
pub use Eviction.*
