-- ===== src/Rawstore/Tests.antt =====
-- A capture that is committed, and one whose id is from NewID.
use gtfs_rt_archiver.Base.{
  ℕ, List, [], ◌∷◌, Bool, true, false, Option, none, some, String, str_eq, ok, ◌≡◌, ◌≢◌, refl,
  subst, sym, ap, ◌∙◌, ◌++◌, ◌⊎◌, inl, inr, any, if◌then◌else◌, arith, codes,
}
use mathlib.Core.Option.{some-injective}
use gtfs_rt_archiver.Clock.Digits.{digits}
use gtfs_rt_archiver.Clock.Calendar.{
  year_of, month_of, period_of, years_from, year_days, month_days, is_leap,
}
use gtfs_rt_archiver.Upload.Publish.{same_bytes}
use gtfs_rt_archiver.Model.{Capture, new_id, compact_day, compact_clock}
use gtfs_rt_archiver.Compact.Library.{Entry, regular, other}
use gtfs_rt_archiver.Compact.Tests.{store}
use gtfs_rt_archiver.State.Tables.{schema_v1}
use gtfs_rt_archiver.State.Tests.{capture}
use gtfs_rt_archiver.Rawstore.{
  Zone, contains_any, raw_path_of, sidecar_path_of, capture_directory, base_of,
}
use gtfs_rt_archiver.Rawstore.Commit.{
  Disk, Staged, FileStep, with_paths, prepare_commit, staged_path, check_commit, is_free, run_steps,
  commit_steps, sidecar_name,
}
use gtfs_rt_archiver.Rawstore.Finish.{finish_entry, is_recoverable}
use gtfs_rt_archiver.Rawstore.Names.{sidecar_path-apart}
use gtfs_rt_archiver.Rawstore.Recovery.{IsReady, IsTakenUp}
use gtfs_rt_archiver.Rawstore.Atomic.{commit-IsTakenUp}
use gtfs_rt_archiver.Rawstore.Walk.{Found, file, reconcile}
use gtfs_rt_archiver.Rawstore.Refusal.{IsOfCentury}
use gtfs_rt_archiver.Rawstore.Registered.{Registers, reconcile-Registers}
use gtfs_rt_archiver.Rawstore.Unregistered.{OnDisk, reconcile-refuses}

abbrev hash : String
hash = "abcdefabcdefabcdefabcdefabcdefabcdefabcdefabcdefabcdefabcdefabcd"

abbrev sha : List ℕ → String
sha content = hash

abbrev zones : String → Option Zone
zones name = some (λ t. ("2026-08-12", "21"))

abbrev safe : String → Bool
safe path = true

abbrev payload : List ℕ
payload = 1 ∷ 2 ∷ []

abbrev begun : Capture
begun = record capture {
  id = "capture_1";
  source_id = "source";
  stream_id = "stream";
  archive_date = "2026-08-12";
}

abbrev upload : Staged
upload = record {
  path = some ".capture-1.tmp";
  size = 2;
  sha256 = hash;
  too_large = false;
  read_failed = false;
}

abbrev done : Capture
done = with_paths upload "21" begun

-- A capture whose id is from NewID.
abbrev new_capture : Capture
new_capture = record begun { id = "20260812T210102.000000003Z_abc" }

abbrev kept : Capture
kept = with_paths upload "21" new_capture

-- A sidecar is the id between braces, and two of them can be read.
abbrev encode : Capture → List ℕ
encode c = b'{' ∷ codes c.id ++ b'}' ∷ []

abbrev read_json : List ℕ → Option Capture
read_json content =
    if same_bytes content (encode kept)
    then some kept
    else (if same_bytes content (encode done) then some done else none)

abbrev disk : Disk
disk = record {
  staging = λ p. if str_eq p ".capture-1.tmp" then some (regular payload) else none;
  tree = λ p. none;
}

abbrev steps : List FileStep
steps = commit_steps ".capture-1.tmp" encode (b'{' ∷ []) kept

prepared :
    prepare_commit safe encode upload new_capture (λ t. ("2026-08-12", "21")) (b'{' ∷ []) disk
    ≡ ok (kept, steps)
unfolding prepare_commit staged_path check_commit is_free contains_any any
prepared = refl

apart : kept.sidecar_path ≢ kept.raw_path
unfolding with_paths sidecar_path_of raw_path_of
apart =
    sidecar_path-apart (capture_directory "source" "stream" "2026-08-12" "21")
      (base_of new_capture.id hash)

ready : IsReady sha safe zones encode read_json ".capture-1.tmp" payload (b'{' ∷ []) kept disk
unfolding sidecar_name with_paths same_bytes
ready = record {
  is_staged = refl;
  is_new = refl;
  no_payload = refl;
  no_sidecar = refl;
  is_hash = refl;
  decodes = refl;
  is_torn = refl;
  apart = apart;
}

-- The commit is cut off where the payload is there and the sidecar is not.
commit-IsTakenUp_example :
    IsTakenUp
      (is_recoverable safe zones (sidecar_name kept.id) kept)
      disk
      (run_steps 5 steps disk)
      (run_steps 4 steps disk)
      4
      kept
      payload
      (encode kept)
      (finish_entry sha safe zones read_json (run_steps 4 steps disk) (sidecar_name kept.id))
commit-IsTakenUp_example =
    commit-IsTakenUp sha safe zones encode read_json upload new_capture kept
      (λ t. ("2026-08-12", "21")) ".capture-1.tmp" payload (b'{' ∷ []) disk steps 4 prepared refl
      ready

-- The payload and a sidecar of `c` are in their place, and another copy of the sidecar is staged.
abbrev left : Capture → Disk
left c = record {
  staging = λ p. if str_eq p (sidecar_name c.id) then some (regular (encode c)) else none;
  tree = λ p.
      if str_eq p c.raw_path
      then some (regular payload)
      else (if str_eq p c.sidecar_path then some (regular (encode c)) else none);
}

abbrev founds : Capture → List Found
founds c = file c.raw_path ∷ file c.sidecar_path ∷ []

kept-IsOfCentury : IsOfCentury kept.id
unfolding new_id compact_day compact_clock digits year_of month_of period_of years_from year_days
    month_days is_leap with_paths
kept-IsOfCentury = record {
  now = 1786568462_000_000_003;
  random = codes "abc";
  is_new = refl;
  after = omega arith;
  before = omega arith;
}

abbrev content_of : Option Entry → List ℕ
content_of (some (regular content)) = content
content_of (some other) = []
content_of none = []

-- Only the payload and the sidecar are on the disk.
content_of_left :
    (content : List ℕ) → OnDisk (left kept) content → (payload ≡ content) ⊎ (encode kept ≡ content)
content_of_left content (inl (name, there)) = by _ there
  where
    by :
        (b : Bool)
        → Path
            (Option Entry)
            (if b then some (regular (encode kept)) else none)
            (some (regular content))
        → (payload ≡ content) ⊎ (encode kept ≡ content)
    by true e = inr (ap content_of e)
    by false e = absurd (ground arith)
content_of_left content (inr (path, there)) = by _ _ there
  where
    by :
        (b b' : Bool)
        → Path
            (Option Entry)
            (if b
              then some (regular payload)
              else (if b' then some (regular (encode kept)) else none))
            (some (regular content))
        → (payload ≡ content) ⊎ (encode kept ≡ content)
    by true b' e = inl (ap content_of e)
    by false true e = inr (ap content_of e)
    by false false e = absurd (ground arith)

read_payload : read_json payload ≡ none
unfolding same_bytes
read_payload = refl

read_sidecar : read_json (encode kept) ≡ some kept
unfolding same_bytes with_paths
read_sidecar = refl

of_century :
    (content : List ℕ) (c : Capture)
    → OnDisk (left kept) content
    → read_json content ≡ some c
    → IsOfCentury c.id
of_century content c there e = by (content_of_left content there)
  where
    by : (payload ≡ content) ⊎ (encode kept ≡ content) → IsOfCentury c.id
    by (inl same) =
        let nothing = sym read_payload ∙ ap read_json same ∙ e in absurd (ground (arith, nothing))
    by (inr same) =
        subst (λ x. IsOfCentury x.id)
          (some-injective _ _ (sym read_sidecar ∙ ap read_json same ∙ e)) kept-IsOfCentury

-- The sidecar is there, and its staged copy too.
reconcile-refuses_example :
    ((reconcile sha safe zones read_json
        (sidecar_name kept.id ∷ [])
        (founds kept)
        store
        (left kept)).0
      ≡ left kept)
    × ((reconcile sha safe zones read_json
          (sidecar_name kept.id ∷ [])
          (founds kept)
          store
          (left kept)).1.store
        ≡ store)
    × ((reconcile sha safe zones read_json
          (sidecar_name kept.id ∷ [])
          (founds kept)
          store
          (left kept)).1.registered
        ≡ 0)
reconcile-refuses_example =
    reconcile-refuses sha safe zones read_json (left kept) of_century (sidecar_name kept.id ∷ [])
      (founds kept) store

reconcile-Registers_example :
    Registers sha safe zones read_json
      (reconcile sha safe zones read_json
        (sidecar_name done.id ∷ [])
        (founds done)
        schema_v1
        (left done)).0
      schema_v1
      (reconcile sha safe zones read_json
        (sidecar_name done.id ∷ [])
        (founds done)
        schema_v1
        (left done)).1
reconcile-Registers_example =
    reconcile-Registers sha safe zones read_json (sidecar_name done.id ∷ []) (founds done) schema_v1
      (left done)
