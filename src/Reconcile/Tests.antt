-- ===== src/Reconcile/Tests.antt =====
-- Reconciliation of the revision that the tests of compaction commit, with a database that has its
-- capture and no row for it.
use gtfs_rt_archiver.Base.{[], ◌∷◌, ◌*◌, map, false, some, none, ◌≡◌, refl, any}
use mathlib.Core.List.{Perm}
use gtfs_rt_archiver.Clock.{second, Time}
use gtfs_rt_archiver.State.Compactions.{has_compaction, adopt_compaction}
use gtfs_rt_archiver.State.History.{Reach}
use gtfs_rt_archiver.State.Tables.{schema_v1}
use gtfs_rt_archiver.State.Tests.{captured, captured-Reach}
use gtfs_rt_archiver.Compact.Accounts.{
  manifest_destinations, required_destination_ids, destination_map,
}
use gtfs_rt_archiver.Compact.Tests.{
  library, library-IsSound, cfg, env, store, store-HasIds, request, made, made-committed,
  made_complete, made-IsRevision, disk,
}
use gtfs_rt_archiver.Reconcile.{
  Reconciled, manifest_in, link, elsewhere, visit, adopted_or, destinations_of, destinations_from,
  adopt_revisions,
}
use gtfs_rt_archiver.Reconcile.Gate.{adopt_revisions-Reach}
use gtfs_rt_archiver.Reconcile.Adoption.{uncounted, visit-adopts}
use gtfs_rt_archiver.Reconcile.Destinations.{destinations_from-Perm}

abbrev later : Time
later = 1_800_000_000 * second

abbrev begun : Reconciled
begun = record { store = store; adopted = 0; corrupt = 0; error = none }

unknown :
    has_compaction begun.store made.manifest.source_id made.manifest.stream_id
      made.manifest.archive_date made.manifest.revision
    ≡ false
unfolding has_compaction any schema_v1
unknown = refl

visit-adopts_example :
    visit library.sha256 disk cfg later begun (manifest_in made.path (some made.manifest))
    ≡ adopted_or begun (
        adopt_compaction begun.store
          (uncounted made.compaction)
          made.manifest.input_captures
          (map (λ e. e.id) made.manifest.excluded_captures)
          (destinations_of made.manifest)
          later)
visit-adopts_example =
    visit-adopts library cfg env store request made disk later begun library-IsSound
      ((refl, tt), (tt, tt)) store-HasIds made-committed refl made_complete unknown

adopt_revisions-Reach_example :
    Reach
      (adopt_revisions library.sha256 disk cfg later captured
        (link ∷ elsewhere ∷ manifest_in made.path (some made.manifest) ∷ [])).store
adopt_revisions-Reach_example =
    adopt_revisions-Reach library.sha256 disk cfg later captured
      (link ∷ elsewhere ∷ manifest_in made.path (some made.manifest) ∷ [])
      (tt, (tt, ((made.directory, refl, made-IsRevision.manifest), tt))) captured-Reach

destinations_from-Perm_example :
    Perm
      (destinations_from
        (manifest_destinations cfg.destinations)
        (required_destination_ids cfg.destinations))
      (destination_map cfg.destinations [])
destinations_from-Perm_example = destinations_from-Perm cfg.destinations (tt, tt)
