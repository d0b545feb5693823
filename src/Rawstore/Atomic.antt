-- ===== src/Rawstore/Atomic.antt =====
-- internal/rawstore/store.go, Commit and finishInterruptedCommits: what becomes of a commit that was
-- cut off.
use gtfs_rt_archiver.Base.{
  ℕ, List, Bool, true, false, Option, none, some, String, ok, ◌≡◌, sym, ap, ap₂, ◌∙◌, arith,
  >>=-eq-ok, ok-injective,
}
use mathlib.Core.Option.{some-injective}
use gtfs_rt_archiver.Model.{Capture}
use gtfs_rt_archiver.Rawstore.{Zone}
use gtfs_rt_archiver.Rawstore.Commit.{
  Disk, Staged, FileStep, run_steps, sidecar_name, commit_steps, prepare_commit, staged_path,
  check_commit,
}
use gtfs_rt_archiver.Rawstore.Finish.{finish_entry, is_recoverable}
use gtfs_rt_archiver.Rawstore.Recovery.{IsReady, IsTakenUp, finish-IsTakenUp}

staged_path-from :
    (too_large : Bool) (o : Option String) (from path : String)
    → o ≡ some from
    → staged_path too_large o ≡ ok path
    → path ≡ from
unfolding staged_path
staged_path-from too_large none from path at_path e = absurd (ground arith)
staged_path-from true (some p) from path at_path e = absurd (ground arith)
staged_path-from false (some p) from path at_path e =
    sym (ok-injective e) ∙ some-injective _ _ at_path

prepare_commit-steps :
    (is_safe : String → Bool) (encode : Capture → List ℕ) (staged : Staged) (c done : Capture)
    (zone : Zone) (partial : List ℕ) (d : Disk) (steps : List FileStep) (from : String)
    → prepare_commit is_safe encode staged c zone partial d ≡ ok (done, steps)
    → staged.path ≡ some from
    → steps ≡ commit_steps from encode partial done
unfolding prepare_commit
prepare_commit-steps is_safe encode staged c done zone partial d steps from e at_path =
    let (path, got, e₁) = >>=-eq-ok (staged_path staged.too_large staged.path) _ e in
    let (_, checked, e₂) =
      >>=-eq-ok (check_commit is_safe staged c (zone c.scheduled_at).1 d) _ e₁ in
    let same = ok-injective e₂ in
    sym (ap (λ r. r.1) same)
    ∙ ap₂ (λ p w. commit_steps p encode partial w)
        (staged_path-from staged.too_large staged.path from path at_path got) (ap (λ r. r.0) same)

-- A commit that was prepared, cut off after any number of its file operations and taken up by the
-- next start, for a capture whose sidecar reads back as it was written while a begun one does not,
-- whose paths are free and differ and whose staged payload has its hash. Where the sidecar is
-- accepted the commit is atomic: written in full, the storage tree ends as the whole commit leaves
-- it, with the payload and the sidecar at their paths, and otherwise it is as it was before; a
-- sidecar that was cut off is the only corrupt entry. Where the sidecar is refused nothing is
-- finished: the disk stays as the crash left it, and a sidecar that is staged, begun or whole,
-- counts as one corrupt entry.
pub commit-IsTakenUp :
    (sha256 : List ℕ → String) (is_safe : String → Bool) (zones : String → Option Zone)
    (encode : Capture → List ℕ) (decode : List ℕ → Option Capture) (staged : Staged)
    (c done : Capture) (zone : Zone) (from : String) (body partial : List ℕ) (d : Disk)
    (steps : List FileStep) (n : ℕ)
    → prepare_commit is_safe encode staged c zone partial d ≡ ok (done, steps)
    → staged.path ≡ some from
    → IsReady sha256 is_safe zones encode decode from body partial done d
    → IsTakenUp
        (is_recoverable is_safe zones (sidecar_name done.id) done)
        d
        (run_steps 5 steps d)
        (run_steps n steps d)
        n
        done
        body
        (encode done)
        (finish_entry sha256 is_safe zones decode (run_steps n steps d) (sidecar_name done.id))
commit-IsTakenUp sha256 is_safe zones encode decode staged c done zone from body partial d steps n e
      at_path ready =
    rw (prepare_commit-steps is_safe encode staged c done zone partial d steps from e at_path)
      (finish-IsTakenUp sha256 is_safe zones encode decode from body partial done d ready n)
