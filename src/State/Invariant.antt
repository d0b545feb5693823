-- ===== src/State/Invariant.antt =====
-- What holds of the state database between two operations.
use gtfs_rt_archiver.Base.{
  ℕ, ◌≤◌, ◌≡◌, Bool, true, false, All, any, List, All-mono, any-update_rows-false, update_rows,
}
use gtfs_rt_archiver.Model.{Compaction, Upload}
use gtfs_rt_archiver.State.Tables.{Store, is_some}
use gtfs_rt_archiver.State.Uploads.{gates}

-- A published compaction has no required upload that is neither verified nor retired.
abbrev pub IsGated : List Upload → Compaction → Type 0
IsGated uploads c = is_some c.published_at ≡ true → any (gates c.id) uploads ≡ false

pub record IsConsistent (s : Store) : Type 0 where
  pub compaction_ids : All (λ c. c.id ≤ s.compaction_seq) s.compactions
  pub upload_owners : All (λ u. u.compaction_id ≤ s.compaction_seq) s.uploads
  pub gated : All (IsGated s.uploads) s.compactions

-- What an update must not do to the rows that it changes: make one a gate.
abbrev pub KeepsGates : (Upload → Bool) → (Upload → Upload) → Upload → Type 0
KeepsGates p f u = (id : ℕ) → p u ≡ true → gates id (f u) ≡ true → gates id u ≡ true

pub update-IsGated :
    (p : Upload → Bool) (f : Upload → Upload) (uploads : List Upload)
    → All (KeepsGates p f) uploads
    → (cs : List Compaction) → All (IsGated uploads) cs
    → All (IsGated (update_rows p f uploads)) cs
update-IsGated p f uploads keep cs h =
    All-mono (IsGated uploads) (IsGated (update_rows p f uploads))
      (λ c g published.
        any-update_rows-false (gates c.id) p f uploads
          (All-mono (KeepsGates p f) _ (λ u k. k c.id) uploads keep) (g published))
      cs h
