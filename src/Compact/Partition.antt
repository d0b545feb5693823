-- ===== src/Compact/Partition.antt =====
-- internal/compact/compact.go: the write loops split the captures of a day into those that they
-- include and those that they exclude, with a reason.
use mathlib.Core.List.{map-append}
use gtfs_rt_archiver.Base.{
  ℕ, ◌+◌, List, [], ◌∷◌, ◌++◌, map, Bool, true, false, not, String, Result, ok, err, ◌≡◌, refl, ap,
  ◌∙◌, arith, where_rows, where_rows-last, where_rows-last_dropped,
}
use gtfs_rt_archiver.Model.{Capture, ExcludedCapture}
use gtfs_rt_archiver.Compact.Library.{Library, RawRead}
use gtfs_rt_archiver.Compact.Inputs.{
  ReadFailure, exclusion_reason, Progress, started, exclude, include, read_verified_capture,
}
use gtfs_rt_archiver.Compact.Validate.{expected_entities}

expected_entities-append :
    (cs ds : List Capture)
    → expected_entities (cs ++ ds) ≡ expected_entities cs + expected_entities ds
unfolding expected_entities
expected_entities-append [] ds = omega arith
expected_entities-append (c ∷ cs) ds = omega (arith, expected_entities-append cs ds)

-- The payload of a capture is there and has the recorded hash.
abbrev pub is_ok : Result ReadFailure (List ℕ) → Bool
is_ok (ok body) = true
is_ok (err failure) = false

abbrev pub content_of : Result ReadFailure (List ℕ) → List ℕ
content_of (ok body) = body
content_of (err failure) = []

abbrev pub reason_of : Result ReadFailure (List ℕ) → String
reason_of (ok body) = ""
reason_of (err failure) = exclusion_reason failure

module _ (l : Library) (raw : String → RawRead) where
  abbrev pub is_readable : Capture → Bool
  is_readable c = is_ok (read_verified_capture l raw c)

  abbrev pub content : Capture → List ℕ
  content c = content_of (read_verified_capture l raw c)

  abbrev pub exclusion : Capture → ExcludedCapture
  exclusion c = record { id = c.id; reason = reason_of (read_verified_capture l raw c) }

  abbrev pub readable_in : List Capture → List Capture
  readable_in cs = where_rows is_readable cs

  abbrev pub exclusions_in : List Capture → List ExcludedCapture
  exclusions_in cs = map exclusion (where_rows (λ c. not (is_readable c)) cs)

  -- What a loop that has gone through the captures has kept of them.
  abbrev pub IsPartition : List Capture → List ExcludedCapture → ℕ → List Capture → Type 0
  IsPartition included excluded entities captures =
      (included ≡ readable_in captures)
      × (excluded ≡ exclusions_in captures)
      × (entities ≡ expected_entities included)

  abbrev pub Tally : {W : Type 0} → Progress W → List Capture → Type 0
  Tally p captures = IsPartition p.included p.excluded p.entity_total captures

  readable-last :
      (c : Capture) (cs : List Capture)
      → is_readable c ≡ true
      → (readable_in (cs ++ c ∷ []) ≡ readable_in cs ++ c ∷ [])
        × (exclusions_in (cs ++ c ∷ []) ≡ exclusions_in cs)
  readable-last c cs e = (
    where_rows-last is_readable cs c e,
    ap (map exclusion) (where_rows-last_dropped (λ d. not (is_readable d)) cs c (ap not e)),
  )

  unreadable-last :
      (c : Capture) (cs : List Capture)
      → is_readable c ≡ false
      → (readable_in (cs ++ c ∷ []) ≡ readable_in cs)
        × (exclusions_in (cs ++ c ∷ []) ≡ exclusions_in cs ++ exclusion c ∷ [])
  unreadable-last c cs e = (
    where_rows-last_dropped is_readable cs c e,
    ap (map exclusion) (where_rows-last (λ d. not (is_readable d)) cs c (ap not e))
        ∙ map-append exclusion (where_rows (λ d. not (is_readable d)) cs) (c ∷ []),
  )

  pub exclude-Tally :
      {W : Type 0} (p : Progress W) (c : Capture) (failure : ReadFailure) (captures : List Capture)
      → read_verified_capture l raw c ≡ err failure
      → Tally p captures
      → Tally (exclude p c failure) (captures ++ c ∷ [])
  unfolding exclude
  exclude-Tally p c failure captures e (i, x, n) =
      let step = unreadable-last c captures (rw e refl) in
      rw (step.0, step.1, e)
        (i, ap (λ t. t ++ record { id = c.id; reason = exclusion_reason failure } ∷ []) x, n)

  pub include-Tally :
      {W : Type 0} (p : Progress W) (c : Capture) (body : List ℕ) (captures : List Capture)
      → read_verified_capture l raw c ≡ ok body
      → Tally p captures
      → Tally (include p c) (captures ++ c ∷ [])
  unfolding include expected_entities
  include-Tally p c body captures e (i, x, n) =
      let step = readable-last c captures (rw e refl) in
      rw (step.0, step.1)
        (
          ap (λ t. t ++ c ∷ []) i,
          x,
          ground (arith, expected_entities-append p.included (c ∷ []), n),
        )

  pub started-Tally : {W : Type 0} (w : W) → Tally (started w) []
  unfolding where_rows expected_entities
  started-Tally w = (refl, refl, refl)
