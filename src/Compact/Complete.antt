-- ===== src/Compact/Complete.antt =====
-- internal/compact/compact.go: with a known codec the artifact of a day is always written and validated; only a
-- day whose captures were all excluded has none.
use gtfs_rt_archiver.Base.{
  List, [], ◌∷◌, Bool, true, false, some, String, str_eq, Result, ok, err, ◌≡◌, ◌≢◌, refl, ap, sym,
  ◌∙◌, arith, ◌⊎◌, inl, inr, ◌>>◌,
}
use gtfs_rt_archiver.Config.{Config}
use gtfs_rt_archiver.Model.{Capture, Manifest, ExcludedCapture}
use gtfs_rt_archiver.Compact.Library.{Library, RawRead, IsSound, Entry}
use gtfs_rt_archiver.Compact.Inputs.{
  Progress, parquet_writer_options, write_with_codec, write_parquet, write_trip_updates_with_codec,
  write_trip_update_parquet,
}
use gtfs_rt_archiver.Compact.Run.{
  CompactError, all_excluded, exclusion_summary, Written, if_valid, written_nested,
  written_flattened, write_kind, write_artifact, some_included, with_artifact,
}
use gtfs_rt_archiver.Compact.Partition.{readable_in, exclusions_in}
use gtfs_rt_archiver.Compact.Validated.{
  write_parquet-validates, write_trip_update_parquet-validates,
}
use gtfs_rt_archiver.Compact.Artifacts.{IsArtifact, write_artifact-IsWritten}

module _ (l : Library) (sound : IsSound l) (cfg : Config) (raw : String → RawRead) where
  Succeeds : Result CompactError Written → Type 0
  Succeeds r = (w : Written) × (r ≡ ok w)

  written_nested-Succeeds :
      (captures : List Capture) (m : Manifest) (written : l.nested.File × Progress l.nested.Writer)
      → write_parquet l cfg raw captures m ≡ some written
      → Succeeds (written_nested l cfg raw (some written))
  unfolding written_nested if_valid Succeeds
  written_nested-Succeeds captures m (file, done) e =
      rw (write_parquet-validates l raw cfg captures m file done sound.nested e, if_valid) (_, refl)

  written_flattened-Succeeds :
      (captures : List Capture) (m : Manifest)
      (written : l.flattened.File × Progress l.flattened.Writer)
      → write_trip_update_parquet l cfg raw captures m ≡ some written
      → Succeeds (written_flattened l cfg raw (some written))
  unfolding written_flattened if_valid Succeeds
  written_flattened-Succeeds captures m (file, done) e =
      rw
        (
          write_trip_update_parquet-validates l raw cfg captures m file done sound.flattened e,
          if_valid,
        )
        (_, refl)

  module _ (codec : String) (known : parquet_writer_options cfg ≡ some codec) where
    write_kind-Succeeds :
        (trip_update : Bool) (captures : List Capture) (m : Manifest)
        → Succeeds (write_kind l cfg raw trip_update captures m)
    unfolding write_kind write_parquet write_with_codec write_trip_update_parquet
        write_trip_updates_with_codec Succeeds
    write_kind-Succeeds true captures m =
        rw (known, write_trip_updates_with_codec)
          (written_flattened-Succeeds captures m _ (rw (known, write_trip_updates_with_codec) refl))
    write_kind-Succeeds false captures m =
        rw (known, write_with_codec)
          (written_nested-Succeeds captures m _ (rw (known, write_with_codec) refl))

    write_artifact-Succeeds :
        (captures : List Capture) (m : Manifest)
        → (w : Written) × (write_artifact l cfg raw captures m ≡ ok w)
    unfolding write_artifact Succeeds
    write_artifact-Succeeds captures m =
        write_kind-Succeeds (str_eq m.expected_kind "trip_update") captures m

    -- What becomes of a day.
    abbrev pub Outcome :
        List Capture → Manifest → Result CompactError (Manifest × List (String × Entry)) → Type 0
    Outcome captures m r =
        ((written : Manifest × List (String × Entry)) × (r ≡ ok written)
          × IsArtifact l sound cfg raw captures m written
          × ((captures ≡ []) ⊎ (readable_in l raw captures ≢ [])))
        ⊎ ((r ≡ err (all_excluded (exclusion_summary (exclusions_in l raw captures))))
            × (captures ≢ [])
            × (readable_in l raw captures ≡ []))

    included-Outcome :
        (c : Capture) (cs included : List Capture) (excluded : List ExcludedCapture) (m : Manifest)
        (written : Manifest × List (String × Entry))
        → included ≡ readable_in l raw (c ∷ cs)
        → excluded ≡ exclusions_in l raw (c ∷ cs)
        → (included ≢ [] → IsArtifact l sound cfg raw (c ∷ cs) m written)
        → Outcome (c ∷ cs) m (some_included included excluded >> ok written)
    unfolding some_included
    included-Outcome c cs [] excluded m written i x artifact = inr (
      ap (λ es. err (all_excluded (exclusion_summary es))) x,
      (λ e. absurd (ground arith)),
      sym i,
    )
    included-Outcome c cs (d ∷ ds) excluded m written i x artifact = inl (
      written,
      refl,
      artifact (λ e. absurd (ground arith)),
      inr (λ e. let k = i ∙ e in absurd (ground (arith, k))),
    )

    -- Where the Parquet library reads back what the columns of the rows written keep, SHA-256 is
    -- given in hexadecimal, and the configuration names a codec that the writer knows: a day
    -- without captures gets its manifest and no artifact; a day with a capture that can be read
    -- and verified gets its manifest and one artifact, which includes exactly those captures and
    -- which the manifest describes, since nothing is refused when it is validated; a day that has
    -- captures, none of which can be read and verified, ends in the error that counts the reasons,
    -- and in no other.
    pub with_artifact-Outcome :
        (captures : List Capture) (m : Manifest)
        → Outcome captures m (with_artifact l cfg raw captures m)
    unfolding with_artifact
    with_artifact-Outcome [] m = inl (_, refl, inl (refl, refl, refl), inl refl)
    with_artifact-Outcome (c ∷ cs) m =
        let (w, e) = write_artifact-Succeeds (c ∷ cs) m in
        let is_written = write_artifact-IsWritten l sound cfg raw (c ∷ cs) m w e in
        let ((i, x, _), _) = is_written in
        rw e (
          included-Outcome c cs w.included w.excluded m _ i x
            (λ nonempty. inr (w, is_written, nonempty, refl, refl)))
