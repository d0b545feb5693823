-- ===== src/Lib.antt =====
-- GTFS-Realtime archiver: the scheduler takes ticks of each stream, the fetcher stores what the feed
-- answers, compaction writes a day's captures as one revision, the uploader publishes revisions to the
-- destinations, and retention deletes what every destination has. The state database is what these
-- parts share, and decides what may be deleted.
--
-- Which file models which code:
--   Base                   helpers: Boolean tests, lists, rows of a table, texts as bytes, results,
--                          a stable sort, signed integers
--   Clock                  internal/state/store.go, encodeTime: an instant as the text that the
--                          database stores and compares (Digits, Calendar), and the order of these
--                          texts (Order, Compare)
--   Model                  internal/model/model.go: the records
--   State                  internal/state/store.go: Tables (the schema), Ticks, Captures,
--                          Compactions, Uploads, Days and Retention (one function for each method of
--                          Store, with the method's name), History (the methods that write, as
--                          commands, and the databases that they reach), Invariant, Marks, Inserts and
--                          Gate (what every reached database satisfies), Ids (the ids of its
--                          uploads), Release (what the retention queries return), Midnight (which
--                          ticks a day counts)
--   Projection             internal/projection/trip_update_flatten.go, with the generated accessors
--                          of the GTFS-Realtime bindings as parameters
--   Scheduler              internal/scheduler/scheduler.go: the ticks (Ticks) and the rounds of
--                          runStream (Rounds)
--   Gtfsrt                 internal/gtfsrt/decode.go: the status and the flags of a body
--   Fetch                  internal/fetch/fetch.go: the attempts of Fetch, how long a retry waits, and
--                          what they record
--   Upload                 internal/upload/upload.go: the queue (Queue), what a pass does to each
--                          upload (Safety), how long a failed one waits (Retries), and the
--                          copies of a publication (Publish)
--   Lifecycle              internal/lifecycle/retention.go: the retention pass and what it deletes
--   Config                 internal/config/config.go: the records that the others read, and the choice of
--                          a stream
--   Compact                internal/compact/compact.go: Library (the Parquet library and the files),
--                          Inputs (the two writers), Accounts (what a manifest counts), Validate,
--                          Verify (VerifyDirectory) and Run (Compact); and what is proved of them:
--                          Partition, Rows, Stops and Validated (the artifact), Totals and Snapshot
--                          (the manifest), Artifacts and Complete (what becomes of a day), Names,
--                          Checks, Accepted, Ready, Revision and Sound (VerifyDirectory accepts what
--                          Compact commits), Gate (the database) and Integrity (what VerifyDirectory
--                          has checked)
--   Rawstore               internal/rawstore/store.go: the paths of a capture and the checks of its
--                          sidecar, Commit, Finish (finishInterruptedCommits) and Walk (Reconcile); and
--                          what is proved of them: Names, Steps, Recovery and Atomic (a commit that was cut
--                          off), Registered (the files of the captures that Reconcile registers),
--                          Refusal and Unregistered (the ids that NewID gives), Gate (the database)
--   Reconcile              internal/reconcile/reconcile.go: the walk over the revisions, and Startup
--                          (All); Snapshot and Gate (the database), Adoption and Destinations
--                          (what is adopted)
--
-- A table is a list of records in the order of insertion. A transaction is a function to a result:
-- an error stands for the rollback, and History keeps the database as it was. A constraint of the
-- schema (PRIMARY KEY, UNIQUE, REFERENCES) that an operation can meet is a guard of that operation.
-- An AUTOINCREMENT id comes from a counter of the store. The instant that a method reads from the
-- clock is an argument.
--
-- Instants in the database are natural numbers of nanoseconds since 1970; the theorems on their
-- texts are about the years before 10000, up to which RFC 3339 has four digits. The scheduler's are
-- int64 with the wrap-around written out, and its theorem says where none occurs. The functions
-- recurse on lists and numbers. The list of years from 1970 has 8030 of them, which reaches 9999.
--
-- A Parquet file is what the library's reader reads, with its bytes for the hash; the laws that the
-- theorems use of it are in Compact/Library: a file reads back as its columns keep the rows written,
-- which is to the microsecond for an instant, and a hash is hexadecimal. A manifest.json is the value
-- that was encoded, and the disk is known by the paths of the manifests. A revision's directory is
-- renamed into place before its row is recorded: a run whose row is refused leaves the directory, and
-- reconciliation takes it up from there.
--
-- A commit of the raw store is a list of file operations, and a run may end after any number of them;
-- until the sidecar is written in full, its file holds what a started write has left.
--
-- Not modelled: the HTTP client, rclone, the inside of the Parquet library, SQLite itself and the file
-- system, whose answers are arguments where the code decides by them; safeRootPath, since the paths
-- are those that the program itself records; the flags, logging and metrics; the generated
-- projection of internal/projection, whose columns no check reads; internal/service; of
-- internal/rawstore safePath (its answers are an argument), Open, the lock, RemoveExpiredStaging and
-- DiskUsage; and of internal/config what is not named above.
pub mod Base
pub mod Clock
pub mod Compact
pub mod Config
pub mod Fetch
pub mod Gtfsrt
pub mod Lifecycle
pub mod Model
pub mod Projection
pub mod Rawstore
pub mod Reconcile
pub mod Scheduler
pub mod State
pub mod Upload
