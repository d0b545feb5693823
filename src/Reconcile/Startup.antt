-- ===== src/Reconcile/Startup.antt =====
-- internal/reconcile/reconcile.go, All: first the captures, then the revisions.
use gtfs_rt_archiver.Base.{ℕ, ◌+◌, Bool, List, Option, none, some, String, All}
use gtfs_rt_archiver.Clock.{Time}
use gtfs_rt_archiver.Config.{Config}
use gtfs_rt_archiver.Model.{Capture}
use gtfs_rt_archiver.State.Tables.{Store, StateError}
use gtfs_rt_archiver.State.History.{Reach}
use gtfs_rt_archiver.Compact.Library.{Directory}
use gtfs_rt_archiver.Rawstore.{Zone}
use gtfs_rt_archiver.Rawstore.Commit.{Disk}
use gtfs_rt_archiver.Rawstore.Walk.{Found, Walked, reconcile}
use gtfs_rt_archiver.Rawstore.Gate.{reconcile-Reach}
use gtfs_rt_archiver.Reconcile.{Visited, adopt_revisions}
use gtfs_rt_archiver.Reconcile.Gate.{Reads, adopt_revisions-Reach}

-- Result, the database and the raw store. `error` is that of the walk that it ended.
pub record Started : Type 0 where
  pub disk : Disk
  pub store : Store
  pub registered : ℕ
  pub adopted : ℕ
  pub corrupt : ℕ
  pub error : Option StateError

module _ (sha256 : List ℕ → String) (revisions : String → Option Directory) (cfg : Config)
    (now : Time) where
  unfoldable pub adopt_after : Disk → Walked → Option StateError → List Visited → Started
  adopt_after d w (some e) vs = record {
    disk = d;
    store = w.store;
    registered = w.registered;
    adopted = 0;
    corrupt = w.corrupt;
    error = some e;
  }
  adopt_after d w none vs =
      let r = adopt_revisions sha256 revisions cfg now w.store vs in
      record {
        disk = d;
        store = r.store;
        registered = w.registered;
        adopted = r.adopted;
        corrupt = w.corrupt + r.corrupt;
        error = r.error;
      }

  adopt_after-Reach :
      (d : Disk) (w : Walked) (error : Option StateError) (vs : List Visited)
      → All (Reads revisions) vs
      → Reach w.store
      → Reach (adopt_after d w error vs).store
  unfolding adopt_after
  adopt_after-Reach d w (some e) vs reads h = h
  adopt_after-Reach d w none vs reads h =
      adopt_revisions-Reach sha256 revisions cfg now w.store vs reads h

  module _ (is_safe : String → Bool) (zones : String → Option Zone)
      (decode : List ℕ → Option Capture) where
    -- `names` and `founds` are what the two walks of the raw store see, `vs` what that of the
    -- revisions visits.
    unfoldable pub reconcile_all : List String → List Found → List Visited → Store → Disk → Started
    reconcile_all names founds vs s d =
        let (finished, w) = reconcile sha256 is_safe zones decode names founds s d in
        adopt_after finished w w.error vs

    -- A start leaves a reachable database, for every walk that reads its manifests from the disk.
    pub reconcile_all-Reach :
        (names : List String) (founds : List Found) (vs : List Visited) (s : Store) (d : Disk)
        → All (Reads revisions) vs
        → Reach s
        → Reach (reconcile_all names founds vs s d).store
    unfolding reconcile_all
    reconcile_all-Reach names founds vs s d reads h =
        adopt_after-Reach _ _ _ vs reads
          (reconcile-Reach sha256 is_safe zones decode names founds s d h)
