-- ===== src/Compact/Rows.antt =====
-- internal/compact/compact.go, writeParquet: the rows of the artifact are those of the included captures, in
-- their order, however they are grouped.
use mathlib.Core.List.{append_assoc, append-nil, map-append}
use mathlib.Core.Option.{some-injective}
use gtfs_rt_archiver.Base.{
  ℕ, List, [], ◌∷◌, ◌++◌, map, Option, none, some, String, ok, ◌≡◌, ap, sym, subst, ◌∙◌, arith,
  if_intro, leb, inl, inr, Result-cases,
}
use gtfs_rt_archiver.Config.{Config}
use gtfs_rt_archiver.Model.{Capture, Manifest}
use gtfs_rt_archiver.Compact.Library.{Library, Parquet, RawRead, Row, IsFaithful, stored_row}
use gtfs_rt_archiver.Compact.Inputs.{
  Progress, started, exclude, include, read_verified_capture, close_full_group, row_of, write_row,
  write_capture, write_captures, write_with_codec, write_parquet, max_rows_per_row_group,
  manifest_key_value_metadata, parquet_writer_options,
}
use gtfs_rt_archiver.Compact.Partition.{
  Tally, content, content_of, started-Tally, exclude-Tally, include-Tally,
}

-- Whether the group is closed or not.
pub close_full_group_lem {κ} :
    (l : Library) {R : Type 0} (p : Parquet R) (limit : ℕ) (P : Progress p.Writer → Type κ)
    (w : Progress p.Writer)
    → P w
    → P (record w { writer = p.flush w.writer; group = 0 })
    → P (close_full_group l p limit w)
unfolding close_full_group
close_full_group_lem l p limit P w h k =
    if_intro P (leb limit w.group) (record w { writer = p.flush w.writer; group = 0 }) w k h

module _ (l : Library) (raw : String → RawRead) where
  -- The row that a capture has, as the columns keep it.
  abbrev pub row_for : Capture → Row l.Projected
  row_for c = stored_row l.stored_projected (row_of l c (content l raw c))

  module _ (faithful : IsFaithful (Row l.Projected) (stored_row l.stored_projected) l.nested) where
    Kept : Progress l.nested.Writer → List Capture → Type 0
    Kept w captures = Tally l raw w captures × (faithful.written w.writer ≡ map row_for w.included)

    write_row-Kept :
        (target : ℕ) (w : Progress l.nested.Writer) (c : Capture) (body : List ℕ)
        (captures : List Capture)
        → read_verified_capture l raw c ≡ ok body
        → Kept w captures
        → Kept (write_row l target w c body) (captures ++ c ∷ [])
    unfolding write_row include Kept
    write_row-Kept target w c body captures e (t, k) =
        close_full_group_lem l l.nested target
          (λ w'.
            Tally l raw w' (captures ++ c ∷ [])
            × (faithful.written w'.writer ≡ map row_for w'.included))
          _ (tally, rows) (tally, faithful.flush-written _ ∙ rows)
      where
        tally : Tally l raw (include w c) (captures ++ c ∷ [])
        tally = include-Tally l raw w c body captures e t

        rows :
            faithful.written (l.nested.write (include w c).writer (row_of l c body ∷ []))
            ≡ map row_for (include w c).included
        rows =
            faithful.write-written _ _
            ∙ ap (λ rs. rs ++ stored_row l.stored_projected (row_of l c body) ∷ []) k
            ∙ sym (
                map-append row_for w.included (c ∷ [])
                ∙ ap
                    (λ b.
                      map row_for w.included ++ stored_row l.stored_projected (row_of l c b) ∷ [])
                    (ap content_of e))

    write_capture-Kept :
        (target : ℕ) (w : Progress l.nested.Writer) (c : Capture) (captures : List Capture)
        → Kept w captures
        → Kept (write_capture l target w c (read_verified_capture l raw c)) (captures ++ c ∷ [])
    unfolding write_capture Kept exclude
    write_capture-Kept target w c captures k = elim (Result-cases (read_verified_capture l raw c)) [
      | inl (body, e) ↦ rw (e, write_capture) (write_row-Kept target w c body captures e k)
      | inr (failure, e) ↦
          rw (e, write_capture) (exclude-Tally l raw w c failure captures e k.0, k.1)
    ]

    write_captures-Kept :
        (target : ℕ) (cs : List Capture) (w : Progress l.nested.Writer) (captures : List Capture)
        → Kept w captures
        → Kept (write_captures l raw target cs w) (captures ++ cs)
    unfolding write_captures
    write_captures-Kept target [] w captures k = rw (append-nil captures) k
    write_captures-Kept target (c ∷ cs) w captures k = rw (← append_assoc captures (c ∷ []) cs) (
        write_captures-Kept target cs _ (captures ++ c ∷ [])
          (write_capture-Kept target w c captures k))

    -- The file that `write_parquet` closes, and its tally.
    abbrev pub IsNested : List Capture → l.nested.File × Progress l.nested.Writer → Type 0
    IsNested captures written =
        Tally l raw written.1 captures × (l.nested.read written.0 ≡ map row_for written.1.included)

    closed-IsNested :
        (captures : List Capture) (w : Progress l.nested.Writer)
        → Kept w captures
        → IsNested captures (l.nested.close w.writer, w)
    unfolding Kept
    closed-IsNested captures w k = (k.0, faithful.read-close w.writer ∙ k.1)

    write_with_codec-IsNested :
        (cfg : Config) (captures : List Capture) (m : Manifest) (codec : Option String)
        (written : l.nested.File × Progress l.nested.Writer)
        → write_with_codec l cfg raw captures m codec ≡ some written
        → IsNested captures written
    unfolding write_with_codec Kept
    write_with_codec-IsNested cfg captures m none written e = absurd (ground arith)
    write_with_codec-IsNested cfg captures m (some codec) written e =
        let opened =
          l.nested.open_file codec max_rows_per_row_group (manifest_key_value_metadata m) in
        let kept =
          write_captures-Kept cfg.parquet.target_row_group_bytes captures (started opened) []
            (started-Tally l raw opened, faithful.open-written _ _ _) in
        subst (IsNested captures) (some-injective _ _ e) (
          closed-IsNested captures
            (write_captures l raw cfg.parquet.target_row_group_bytes captures (started opened))
            kept)

    -- Where the library reads back what the columns of the rows written keep, the artifact of a
    -- day reads back as one row for each capture whose payload is there with the recorded hash,
    -- with its three instants truncated to the microsecond and its projection as its columns keep
    -- it, in their order and however they were grouped; every other capture is excluded with the
    -- reason of its failure, and the entities are those that the included captures count.
    pub write_parquet-IsNested :
        (cfg : Config) (captures : List Capture) (m : Manifest)
        (written : l.nested.File × Progress l.nested.Writer)
        → write_parquet l cfg raw captures m ≡ some written
        → IsNested captures written
    unfolding write_parquet
    write_parquet-IsNested cfg captures m written e =
        write_with_codec-IsNested cfg captures m (parquet_writer_options cfg) written e
