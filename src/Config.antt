-- ===== src/Config.antt =====
-- internal/config/config.go: the parts of the configuration that compaction and reconciliation read,
-- and the choice of a stream.
--
-- The durations and the settings of the other components are arguments where they are used.
use gtfs_rt_archiver.Base.{
  ℕ, List, [], ◌∷◌, ◌++◌, Bool, true, ◌||◌, ◌&&◌, Option, none, some, String, str_eq, Result, ok,
  err, if◌then◌else◌,
}
use gtfs_rt_archiver.State.Tables.{is_empty}

pub record Stream : Type 0 where
  pub id : String
  pub expected_kind : String
  pub url : String
  pub timezone : String

-- `location` is the zone that validation loaded for `timezone`, by its name.
pub record Source : Type 0 where
  pub id : String
  pub location : String
  pub registry_id : String
  pub license_url : String
  pub attribution_text_file : String
  pub streams : List Stream

pub record Destination : Type 0 where
  pub id : String
  pub remote : String
  pub required : Option Bool

pub record Parquet : Type 0 where
  pub compression : String
  pub target_row_group_bytes : ℕ

pub record Config : Type 0 where
  pub allow_local_only_cleanup : Bool
  pub parquet : Parquet
  pub sources : List Source
  pub destinations : List Destination

unfoldable pub is_required : Destination → Bool
is_required d = elim d.required [ none ↦ true | some required ↦ required ]

-- `none` is the error of time.LoadLocation, which is the argument.
unfoldable pub effective_location : (String → Option String) → Stream → Source → Option String
effective_location load_location s source =
    if is_empty s.timezone then some source.location else load_location s.timezone

-- An empty id of the selection matches every id.
unfoldable pub is_selected : String → String → Source → Stream → Bool
is_selected source_id stream_id source stream =
    (is_empty source_id || str_eq source.id source_id)
    && (is_empty stream_id || str_eq stream.id stream_id)

unfoldable pub matches_in : String → String → Source → List Stream → List (Source × Stream)
matches_in source_id stream_id source [] = []
matches_in source_id stream_id source (s ∷ ss) =
    let rest = matches_in source_id stream_id source ss in
    if is_selected source_id stream_id source s then (source, s) ∷ rest else rest

unfoldable pub matches : String → String → List Source → List (Source × Stream)
matches source_id stream_id [] = []
matches source_id stream_id (source ∷ sources) =
    matches_in source_id stream_id source source.streams ++ matches source_id stream_id sources

pub data SelectionError : Type 0 where
  no_match several_matches : SelectionError

unfoldable pub the_match : List (Source × Stream) → Result SelectionError (Source × Stream)
the_match [] = err no_match
the_match (m ∷ []) = ok m
the_match (m ∷ n ∷ ms) = err several_matches

unfoldable pub find_source_stream :
    Config → String → String → Result SelectionError (Source × Stream)
find_source_stream c source_id stream_id = the_match (matches source_id stream_id c.sources)
