-- ===== src/State.antt =====
-- internal/state/store.go: the state database, one module for each group of tables, and what
-- its transactions guarantee.
pub mod Tables
pub mod Ticks
pub mod Captures
pub mod Compactions
pub mod Uploads
pub mod Days
pub mod Retention
pub mod History
pub mod Invariant
pub mod Inserts
pub mod Marks
pub mod Gate
pub mod Ids
pub mod Release
pub mod Midnight
pub mod Tests
