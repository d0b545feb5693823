-- ===== src/Compact.antt =====
-- internal/compact/compact.go: the immutable revision of an archive day.
pub mod Library
pub mod Inputs
pub mod Accounts
pub mod Validate
pub mod Verify
pub mod Run
pub mod Partition
pub mod Rows
pub mod Stops
pub mod Validated
pub mod Totals
pub mod Snapshot
pub mod Checks
pub mod Names
pub mod Artifacts
pub mod Complete
pub mod Accepted
pub mod Ready
pub mod Revision
pub mod Sound
pub mod Gate
pub mod Integrity
pub mod Tests
