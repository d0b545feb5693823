-- ===== src/Compact/Sound.antt =====
-- internal/compact/compact.go, Compact: VerifyDirectory accepts the revision that is committed.
use mathlib.Core.Option.{some-injective}
use gtfs_rt_archiver.Base.{
  Option, some, String, Result, ok, err, ◌≡◌, refl, sym, ◌∙◌, subst, arith, length,
}
use gtfs_rt_archiver.Config.{Config}
use gtfs_rt_archiver.State.Tables.{Store, StateError}
use gtfs_rt_archiver.Compact.Library.{Library, IsSound, Directory}
use gtfs_rt_archiver.Compact.Verify.{verify_directory, verify_at, verify_in}
use gtfs_rt_archiver.Compact.Run.{
  Request, Environment, CompactError, Revision, prepare, record_revision, commit, compact,
}
use gtfs_rt_archiver.Compact.Accepted.{Describes}
use gtfs_rt_archiver.Compact.Ready.{HasIds}
use gtfs_rt_archiver.Compact.Revision.{
  IsRevision, prepare-IsRevision, publish_locally-Describes, new_compaction-Describes,
}

-- A revision that VerifyDirectory accepts, wherever its directory is the one at its manifest's path.
abbrev pub IsVerified : Library → Revision → Type 0
IsVerified l r =
    (disk : String → Option Directory)
    → disk r.compaction.manifest_path ≡ some r.directory
    → verify_directory l.sha256 disk r.compaction ≡ ok tt

pub IsRevision-IsVerified :
    (l : Library) (cfg : Config) (r : Revision) → IsRevision l cfg r → IsVerified l r
unfolding verify_directory verify_at verify_in
IsRevision-IsVerified l cfg r h disk e =
    rw (e, verify_at, h.manifest, verify_in)
      (h.accepts r.compaction (
        subst (Describes r.manifest r.path (length r.captures)) (sym h.compaction) (
          publish_locally-Describes cfg.allow_local_only_cleanup r.manifest.required_destinations
            r.manifest.created_at r.manifest r.path (length r.captures) _
            (new_compaction-Describes r.manifest r.path (length r.captures)))))

module _ (l : Library) (sound : IsSound l) (cfg : Config)
    (destination_ids : HasIds (λ d. d.id) cfg.destinations) where
  commit-IsRevision :
      (env : Environment) (s : Store) (o : Result CompactError Revision) (r : Revision)
      → ((r' : Revision) → o ≡ ok r' → IsRevision l cfg r')
      → (commit env s o).committed ≡ some r
      → IsRevision l cfg r
  unfolding commit
  commit-IsRevision env s (err e) r h k = absurd (ground arith)
  commit-IsRevision env s (ok r') r h k =
      subst (IsRevision l cfg) (some-injective r' r (sym (recorded _) ∙ k)) (h r' refl)
    where
      recorded :
          (saved : Result StateError Store) → (record_revision s r' saved).committed ≡ some r'
      recorded (err e) = unfold record_revision in refl
      recorded (ok s') = unfold record_revision in refl

  pub compact-IsRevision :
      (env : Environment) (s : Store) (req : Request) (r : Revision)
      → HasIds (λ c. c.id) s.captures
      → (compact l cfg env s req).committed ≡ some r
      → IsRevision l cfg r
  unfolding compact
  compact-IsRevision env s req r ids h =
      commit-IsRevision env s (prepare l cfg env s req) r
        (λ r' e. prepare-IsRevision l sound cfg destination_ids env s req r' ids e) h

  -- Where the Parquet library reads back what the columns of the rows written keep, instants to
  -- the microsecond, and SHA-256 is given in hexadecimal, no two destinations and no two captures
  -- have one id and none has an empty one: whatever revision Compact commits, with its row
  -- recorded or not, VerifyDirectory accepts it, on any disk that has the committed directory at
  -- the path of the manifest.
  pub compact-IsVerified :
      (env : Environment) (s : Store) (req : Request) (r : Revision)
      → HasIds (λ c. c.id) s.captures
      → (compact l cfg env s req).committed ≡ some r
      → IsVerified l r
  unfolding compact
  compact-IsVerified env s req r ids h =
      IsRevision-IsVerified l cfg r (compact-IsRevision env s req r ids h)
