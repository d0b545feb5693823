-- ===== src/Compact/Inputs.antt =====
-- internal/compact/compact.go: reading the captures of a day into the rows of the artifact.
--
-- A capture whose payload cannot be read, or has another hash than its row records, is excluded with a
-- reason; every other one is included. The context is never done.
mod Reading
mod Nested
mod Flattened
unfoldable pub use Reading.*
unfoldable pub use Nested.*
unfoldable pub use Flattened.*
