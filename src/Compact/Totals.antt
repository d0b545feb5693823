-- ===== src/Compact/Totals.antt =====
-- internal/compact/compact.go, the loop over the captures: what a manifest counts, and what it leaves as it
-- was.
use mathlib.Core.List.{append_assoc, append-nil}
use gtfs_rt_archiver.Base.{
  suc, eq_iff, count_rows, if◌then◌else◌, not, ◌&&◌, ℕ, ◌+◌, List, [], ◌∷◌, ◌++◌, map, Bool, true,
  false, Option, none, some, String, ◌≡◌, refl, ap, sym, ◌∙◌, arith, Bool-cases, inl, inr, str_eq,
}
use gtfs_rt_archiver.Model.{Capture, Manifest, ManifestDestination, ExcludedCapture, Artifact}
use gtfs_rt_archiver.State.Days.{count_up}
use gtfs_rt_archiver.Compact.Accounts.{
  count_flags, with_feed_timestamp, is_valid, with_validity, with_snapshot, with_times,
  input_capture, account, account_all,
}

-- What the loop does not change.
pub record Identity : Type 0 where
  pub manifest_version : ℕ
  pub dataset_status : String
  pub source_id : String
  pub stream_id : String
  pub expected_kind : String
  pub archive_date : String
  pub format_version : ℕ
  pub schema_version : ℕ
  pub revision : ℕ
  pub captured_responses : ℕ
  pub entity_total : ℕ
  pub stop_time_update_total : Option ℕ
  pub files : List Artifact
  pub excluded_captures : List ExcludedCapture
  pub required_destinations : List String
  pub destinations : List ManifestDestination
  pub created_at : ℕ

abbrev pub identity : Manifest → Identity
identity m = record {
  manifest_version = m.manifest_version;
  dataset_status = m.dataset_status;
  source_id = m.source_id;
  stream_id = m.stream_id;
  expected_kind = m.expected_kind;
  archive_date = m.archive_date;
  format_version = m.format_version;
  schema_version = m.schema_version;
  revision = m.revision;
  captured_responses = m.captured_responses;
  entity_total = m.entity_total;
  stop_time_update_total = m.stop_time_update_total;
  files = m.files;
  excluded_captures = m.excluded_captures;
  required_destinations = m.required_destinations;
  destinations = m.destinations;
  created_at = m.created_at;
}

-- What a map of counts has under a key.
abbrev pub count_of : String → List (String × ℕ) → ℕ
count_of key [] = 0
count_of key ((k, n) ∷ rest) = (if str_eq k key then n else 0) + count_of key rest

abbrev one_if : Bool → ℕ
one_if b = if b then 1 else 0

count_of-count_up :
    (key k : String) (counts : List (String × ℕ))
    → count_of key (count_up k counts) ≡ count_of key counts + one_if (str_eq k key)
unfolding count_up
count_of-count_up key k [] = omega arith
count_of-count_up key k ((j, n) ∷ rest) = elim (Bool-cases (str_eq j k)) [
  | inl e ↦ rw e (rw (← (eq_iff j k).0 e) (grown (str_eq j key)))
  | inr e ↦ rw e (omega (arith, count_of-count_up key k rest))
]
  where
    grown :
        (b : Bool)
        → (if b then suc n else 0) + count_of key rest
          ≡ (if b then n else 0) + count_of key rest + one_if b
    grown true = omega arith
    grown false = omega arith

-- How often a flag stands among the flags of the captures.
abbrev pub flag_occurrences : String → List Capture → ℕ
flag_occurrences flag [] = 0
flag_occurrences flag (c ∷ cs) =
    count_rows (λ f. str_eq f flag) c.validation_flags + flag_occurrences flag cs

count_of-count_flags :
    (key : String) (flags : List String) (counts : List (String × ℕ))
    → count_of key (count_flags flags counts)
      ≡ count_of key counts + count_rows (λ f. str_eq f key) flags
unfolding count_flags count_rows
count_of-count_flags key [] counts = omega arith
count_of-count_flags key (f ∷ fs) counts =
    count_of-count_flags key fs (count_up f counts)
    ∙ added (str_eq f key) (count_of-count_up key f counts)
  where
    added :
        (b : Bool)
        → count_of key (count_up f counts) ≡ count_of key counts + one_if b
        → count_of key (count_up f counts) + count_rows (λ g. str_eq g key) fs
          ≡ count_of key counts
            + (if b
                then suc (count_rows (λ g. str_eq g key) fs)
                else count_rows (λ g. str_eq g key) fs)
    added true e = omega (arith, e)
    added false e = omega (arith, e)

-- A valid snapshot has the parse status `valid` and was transported in full.
abbrev pub is_snapshot : Capture → Bool
is_snapshot c = str_eq c.parse_status "valid" && c.transport_complete

-- The snapshots grow by a number, the invalid payloads by another, and the rest that is counted stays.
Gains : ℕ → ℕ → Manifest → Manifest → Type 0
Gains v i m n =
    (identity n ≡ identity m)
    × (n.input_captures ≡ m.input_captures)
    × (n.parse_status_counts ≡ m.parse_status_counts)
    × (n.validation_flag_counts ≡ m.validation_flag_counts)
    × (n.valid_snapshots ≡ m.valid_snapshots + v)
    × (n.invalid_payloads ≡ m.invalid_payloads + i)

with_feed_timestamp-Gains : (m : Manifest) (o : Option ℕ) → Gains 0 0 m (with_feed_timestamp m o)
unfolding with_feed_timestamp Gains
with_feed_timestamp-Gains m none = (refl, refl, refl, refl, omega arith, omega arith)
with_feed_timestamp-Gains m (some v) = (refl, refl, refl, refl, omega arith, omega arith)

with_validity-Gains :
    (valid : Bool) (m : Manifest) (c : Capture)
    → Gains (one_if valid) (one_if (not valid)) m (with_validity valid m c)
unfolding with_validity Gains
with_validity-Gains true m c =
    let counted = record m { valid_snapshots = m.valid_snapshots + 1 } in
    let (same, inputs, statuses, flags, v, i) =
      with_feed_timestamp-Gains counted c.feed_timestamp in
    (same, inputs, statuses, flags, omega (arith, v), omega (arith, i))
with_validity-Gains false m c = (refl, refl, refl, refl, omega arith, omega arith)

-- One turn of the loop.
abbrev CountsOne : Manifest → Capture → Manifest → Type 0
CountsOne m c n =
    (identity n ≡ identity m)
    × (n.input_captures ≡ m.input_captures ++ input_capture c ∷ [])
    × (n.valid_snapshots ≡ m.valid_snapshots + one_if (is_snapshot c))
    × (n.invalid_payloads ≡ m.invalid_payloads + one_if (not (is_snapshot c)))
    × ((status : String)
        → count_of status n.parse_status_counts
          ≡ count_of status m.parse_status_counts + one_if (str_eq c.parse_status status))
    × ((flag : String)
        → count_of flag n.validation_flag_counts
          ≡ count_of flag m.validation_flag_counts
            + count_rows (λ f. str_eq f flag) c.validation_flags)

account-CountsOne : (m : Manifest) (c : Capture) → CountsOne m c (account m c)
unfolding account with_snapshot with_times Gains is_valid
account-CountsOne m c =
    let listed = record m {
      input_captures = m.input_captures ++ input_capture c ∷ [];
      parse_status_counts = count_up c.parse_status m.parse_status_counts;
    } in
    let (same, inputs, statuses, flags, v, i) = with_validity-Gains (is_snapshot c) listed c in
    (
      same,
      inputs,
      v,
      i,
      (λ status.
          ap (count_of status) statuses
          ∙ count_of-count_up status c.parse_status m.parse_status_counts),
      (λ flag.
          count_of-count_flags flag c.validation_flags _
          ∙ ap (λ fs. count_of flag fs + count_rows (λ f. str_eq f flag) c.validation_flags) flags),
    )

-- What the loop makes of a manifest.
abbrev pub Counts : Manifest → List Capture → Manifest → Type 0
Counts m cs n =
    (identity n ≡ identity m)
    × (n.input_captures ≡ m.input_captures ++ map input_capture cs)
    × (n.valid_snapshots ≡ m.valid_snapshots + count_rows is_snapshot cs)
    × (n.invalid_payloads ≡ m.invalid_payloads + count_rows (λ c. not (is_snapshot c)) cs)
    × ((status : String)
        → count_of status n.parse_status_counts
          ≡ count_of status m.parse_status_counts
            + count_rows (λ c. str_eq c.parse_status status) cs)
    × ((flag : String)
        → count_of flag n.validation_flag_counts
          ≡ count_of flag m.validation_flag_counts + flag_occurrences flag cs)

count_rows-cons :
    (p : Capture → Bool) (c : Capture) (cs : List Capture) (k m n : ℕ)
    → k ≡ m + one_if (p c)
    → n ≡ k + count_rows p cs
    → n ≡ m + count_rows p (c ∷ cs)
unfolding count_rows
count_rows-cons p c cs k m n first rest = by (p c) first
  where
    by :
        (b : Bool)
        → k ≡ m + one_if b
        → n ≡ m + (if b then suc (count_rows p cs) else count_rows p cs)
    by true e = omega (arith, e, rest)
    by false e = omega (arith, e, rest)

-- The loop over the captures keeps the identity of the manifest and lists every capture with its
-- hash and its size, in order. Its count of valid snapshots grows by the captures with the parse
-- status valid and a complete transport, that of invalid payloads by the others, the count of each
-- parse status by the captures that have it, and the count of each validation flag by its
-- occurrences in their flags.
pub account_all-Counts : (cs : List Capture) (m : Manifest) → Counts m cs (account_all cs m)
unfolding account_all
account_all-Counts [] m =
    unfold count_rows in
    (
      refl,
      sym (append-nil _),
      omega arith,
      omega arith,
      (λ status. omega arith),
      (λ flag. omega arith),
    )
account_all-Counts (c ∷ cs) m =
    let (same, inputs, v, i, statuses, flags) = account-CountsOne m c in
    let (same', inputs', v', i', statuses', flags') = account_all-Counts cs (account m c) in
    (
      same' ∙ same,
      inputs'
          ∙ ap (λ is. is ++ map input_capture cs) inputs
          ∙ append_assoc m.input_captures (input_capture c ∷ []) (map input_capture cs),
      count_rows-cons is_snapshot c cs _ _ _ v v',
      count_rows-cons (λ d. not (is_snapshot d)) c cs _ _ _ i i',
      (λ status.
          count_rows-cons (λ d. str_eq d.parse_status status) c cs _ _ _ (statuses status)
            (statuses' status)),
      (λ flag. omega (arith, flags flag, flags' flag)),
    )
