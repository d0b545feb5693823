-- ===== src/Compact/Artifacts.antt =====
-- internal/compact/compact.go, Compact: what the manifest says of the artifact that was written.
use gtfs_rt_archiver.Base.{
  List, [], ◌∷◌, Bool, true, false, Option, none, some, String, str_eq, Result, ok, err,
  ok-injective, >>=-eq-ok, ◌≡◌, ◌≢◌, refl, subst, arith, ◌⊎◌, inl, inr, length,
}
use gtfs_rt_archiver.Config.{Config}
use gtfs_rt_archiver.Model.{Capture, Manifest, ExcludedCapture}
use gtfs_rt_archiver.Compact.Library.{Library, RawRead, IsSound, Entry, regular}
use gtfs_rt_archiver.Compact.Inputs.{Progress, write_parquet, write_trip_update_parquet}
use gtfs_rt_archiver.Compact.Validate.{ValidateError}
use gtfs_rt_archiver.Compact.Verify.{artifact_name}
use gtfs_rt_archiver.Compact.Run.{
  Written, if_valid, written_nested, written_flattened, write_kind, write_artifact, with_written,
  some_included, without_captures, with_artifact,
}
use gtfs_rt_archiver.Compact.Partition.{IsPartition}
use gtfs_rt_archiver.Compact.Rows.{write_parquet-IsNested}
use gtfs_rt_archiver.Compact.Stops.{count_all_stops, write_trip_update_parquet-IsFlattened}

if_valid-eq-ok :
    (r : Result ValidateError (Unit {0})) (w w' : Written) → if_valid r w ≡ ok w' → w ≡ w'
unfolding if_valid
if_valid-eq-ok (err e) w w' h = absurd (ground arith)
if_valid-eq-ok (ok _) w w' h = ok-injective h

module _ (l : Library) (sound : IsSound l) (cfg : Config) (raw : String → RawRead) where
  -- The rows of a trip-update artifact are its stop_time_updates; those of another its captures.
  abbrev pub RowsFor : Bool → Written → Type 0
  RowsFor true w =
      (w.stop_time_update_total ≡ some w.rows) × (w.rows ≡ count_all_stops l raw w.included)
  RowsFor false w = (w.stop_time_update_total ≡ none) × (w.rows ≡ length w.included)

  abbrev pub IsWritten : Bool → List Capture → Written → Type 0
  IsWritten trip_update captures w =
      IsPartition l raw w.included w.excluded w.entities captures × RowsFor trip_update w

  written_nested-IsWritten :
      (captures : List Capture) (m : Manifest)
      (o : Option (l.nested.File × Progress l.nested.Writer)) (w : Written)
      → write_parquet l cfg raw captures m ≡ o
      → written_nested l cfg raw o ≡ ok w
      → IsWritten false captures w
  unfolding written_nested
  written_nested-IsWritten captures m none w e h = absurd (ground arith)
  written_nested-IsWritten captures m (some (file, p)) w e h =
      let (tally, rows) = write_parquet-IsNested l raw sound.nested cfg captures m (file, p) e in
      subst (IsWritten false captures) (if_valid-eq-ok _ _ w h) (tally, (refl, refl))

  written_flattened-IsWritten :
      (captures : List Capture) (m : Manifest)
      (o : Option (l.flattened.File × Progress l.flattened.Writer)) (w : Written)
      → write_trip_update_parquet l cfg raw captures m ≡ o
      → written_flattened l cfg raw o ≡ ok w
      → IsWritten true captures w
  unfolding written_flattened
  written_flattened-IsWritten captures m none w e h = absurd (ground arith)
  written_flattened-IsWritten captures m (some (file, p)) w e h =
      let (tally, rows, total) =
        write_trip_update_parquet-IsFlattened l raw sound.flattened cfg captures m (file, p) e in
      subst (IsWritten true captures) (if_valid-eq-ok _ _ w h) (tally, (refl, total))

  write_kind-IsWritten :
      (trip_update : Bool) (captures : List Capture) (m : Manifest) (w : Written)
      → write_kind l cfg raw trip_update captures m ≡ ok w
      → IsWritten trip_update captures w
  unfolding write_kind
  write_kind-IsWritten true captures m w h = written_flattened-IsWritten captures m _ w refl h
  write_kind-IsWritten false captures m w h = written_nested-IsWritten captures m _ w refl h

  pub write_artifact-IsWritten :
      (captures : List Capture) (m : Manifest) (w : Written)
      → write_artifact l cfg raw captures m ≡ ok w
      → IsWritten (str_eq m.expected_kind "trip_update") captures w
  unfolding write_artifact
  write_artifact-IsWritten captures m w h = write_kind-IsWritten _ captures m w h

  some_included-nonempty :
      (cs : List Capture) (excluded : List ExcludedCapture)
      → some_included cs excluded ≡ ok tt
      → cs ≢ []
  unfolding some_included
  some_included-nonempty [] excluded h = absurd (ground arith)
  some_included-nonempty (c ∷ cs) excluded h = λ e. absurd (ground arith)

  -- A day without captures has no artifact; any other one that includes at least one capture.
  abbrev pub IsArtifact : List Capture → Manifest → Manifest × List (String × Entry) → Type 0
  IsArtifact captures m (m', files) =
      ((captures ≡ []) × (m' ≡ without_captures m) × (files ≡ []))
      ⊎ ((w : Written) × IsWritten (str_eq m.expected_kind "trip_update") captures w
          × (w.included ≢ [])
          × (m' ≡ with_written l.sha256 m w)
          × (files ≡ (artifact_name (l.sha256 w.file), regular w.file) ∷ []))

  pub with_artifact-IsArtifact :
      (captures : List Capture) (m : Manifest) (written : Manifest × List (String × Entry))
      → with_artifact l cfg raw captures m ≡ ok written
      → IsArtifact captures m written
  unfolding with_artifact
  with_artifact-IsArtifact [] m written h =
      subst (IsArtifact [] m) (ok-injective h) (inl (refl, refl, refl))
  with_artifact-IsArtifact (c ∷ cs) m written h =
      let (w, e, rest) = >>=-eq-ok _ _ h in
      let (_, k, last) = >>=-eq-ok _ _ rest in
      subst (IsArtifact (c ∷ cs) m) (ok-injective last) (
        inr (
          w,
          write_artifact-IsWritten (c ∷ cs) m w e,
          some_included-nonempty w.included w.excluded k,
          refl,
          refl,
        ))
