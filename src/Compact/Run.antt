-- ===== src/Compact/Run.antt =====
-- internal/compact/compact.go, Compact: a revision of one archive day, from its captures to the row in
-- the state database.
--
-- `Environment` is what the run reads outside the configuration and the database: time zones, URLs, the
-- attribution, the build, the clock, the raw payloads and whether a directory is there already.
mod Start
mod Artifact
mod Commit
unfoldable pub use Start.*
unfoldable pub use Artifact.*
unfoldable pub use Commit.*
