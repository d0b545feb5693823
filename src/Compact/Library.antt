-- ===== src/Compact/Library.antt =====
-- What internal/compact/compact.go calls outside the repository, and the files that it reads and
-- writes.
--
-- A Parquet file is written through a writer of the Parquet library, closed to bytes and read back
-- as rows. The generated projection of a message, the encoding of the headers as JSON and SHA-256
-- (in hexadecimal) are functions that the library gives. Disk errors are left out, except where a
-- payload is read: there they are a result of the read.
use gtfs_rt_archiver.Base.{
  ℕ, ◌*◌, ◌/◌, List, [], ◌++◌, map, Bool, Option, String, Result, ◌≡◌, all, codes, true,
}
use gtfs_rt_archiver.Base.Int.{ℤ}
use gtfs_rt_archiver.Clock.{Time}
use gtfs_rt_archiver.Model.{Manifest}
use gtfs_rt_archiver.Projection.{Bindings, TripUpdateStopRow}
use gtfs_rt_archiver.Upload.Publish.{is_hex}

-- Row: `Projected` is what the generated projection gives for the columns header and entities.
pub record Row (Projected : Type 0) : Type 0 where
  pub source_id : String
  pub stream_id : String
  pub expected_kind : String
  pub capture_id : String
  pub archive_date : String
  pub archive_timezone : String
  pub sanitized_url : String
  pub raw_path : String
  pub config_fingerprint : String
  pub application_version : String
  pub protobuf_revision : String
  pub scheduled_at : Time
  pub started_at : Time
  pub observed_at : Time
  pub http_status : ℕ
  pub response_headers : String
  pub duration_ms : ℕ
  pub attempt_count : ℕ
  pub advertised_length : ℤ
  pub encoded_length : ℕ
  pub decoded_length : ℕ
  pub content_encoding : String
  pub transport_complete : Bool
  pub parse_status : String
  pub parse_error : Option String
  pub body_sha256 : String
  pub entity_count : Option ℕ
  pub validation_flags : List String
  pub projected : Option Projected
  pub feed_message_pb : List ℕ

-- What a column with the tag timestamp(microsecond) keeps of an instant in nanoseconds.
abbrev pub microseconds : Time → Time
microseconds t = t / 1000 * 1000

-- parquet.GenericWriter and GenericReader. A file is what the reader reads; `bytes` is its content on
-- disk. `open_file` takes the codec, the bound on the rows of a row
-- group and the key/value metadata.
pub record Parquet (R : Type 0) : Type 1 where
  pub Writer : Type 0
  pub File : Type 0
  pub open_file : String → ℕ → List (String × List ℕ) → Writer
  pub write : Writer → List R → Writer
  pub flush : Writer → Writer
  pub close : Writer → File
  pub read : File → List R
  pub bytes : File → List ℕ

-- A file reads back as the rows written to it, in their order, whatever its row groups are. `stored` is
-- what the columns keep of a row.
pub record IsFaithful (R : Type 0) (stored : R → R) (p : Parquet R) : Type 0 where
  pub written : p.Writer → List R
  pub open-written :
      (codec : String) (rows : ℕ) (metadata : List (String × List ℕ))
      → written (p.open_file codec rows metadata) ≡ []
  pub write-written :
      (w : p.Writer) (rows : List R) → written (p.write w rows) ≡ written w ++ map stored rows
  pub flush-written : (w : p.Writer) → written (p.flush w) ≡ written w
  pub read-close : (w : p.Writer) → p.read (p.close w) ≡ written w

pub record Library : Type 1 where
  pub bindings : Bindings
  pub unmarshal : List ℕ → Result String bindings.FeedMessage
  pub empty_message : bindings.FeedMessage
  pub Projected : Type 0
  pub project : bindings.FeedMessage → Projected
  pub headers_json : List (String × String) → String
  pub sha256 : List ℕ → String
  pub stored_projected : Option Projected → Option Projected
  pub nested : Parquet (Row Projected)
  pub flattened : Parquet TripUpdateStopRow

-- The columns scheduled_at, started_at and observed_at are timestamp(microsecond); what the columns of
-- the generated projection keep is the library's.
abbrev pub stored_row : {P : Type 0} → (Option P → Option P) → Row P → Row P
stored_row stored_projected row = record row {
  scheduled_at = microseconds row.scheduled_at;
  started_at = microseconds row.started_at;
  observed_at = microseconds row.observed_at;
  projected = stored_projected row.projected;
}

-- The columns fetch_timestamp and scheduled_at are timestamp(microsecond).
abbrev pub stored_stop_row : TripUpdateStopRow → TripUpdateStopRow
stored_stop_row row = record row {
  fetch_timestamp = microseconds row.fetch_timestamp;
  scheduled_at = microseconds row.scheduled_at;
}

-- The library's documented behaviour.
pub record IsSound (l : Library) : Type 0 where
  pub hexadecimal : (body : List ℕ) → all is_hex (codes (l.sha256 body)) ≡ true
  pub nested : IsFaithful (Row l.Projected) (stored_row l.stored_projected) l.nested
  pub flattened : IsFaithful TripUpdateStopRow stored_stop_row l.flattened

-- rawstore.Store.Read: the payload, or an error that is os.ErrNotExist or another.
pub data RawRead : Type 0 where
  payload : List ℕ → RawRead
  not_exist read_error : RawRead

-- What a directory entry of a revision is.
pub data Entry : Type 0 where
  regular : List ℕ → Entry
  other : Entry

-- The directory of a revision: its manifest, where manifest.json is valid JSON, and its files by name.
pub record Directory : Type 0 where
  pub manifest : Option Manifest
  pub files : List (String × Entry)
