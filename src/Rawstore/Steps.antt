-- ===== src/Rawstore/Steps.antt =====
-- internal/rawstore/store.go, Commit: the disk after each of its file operations.
use gtfs_rt_archiver.Base.{
  ℕ, zero, suc, List, [], ◌∷◌, none, some, String, ◌≡◌, ◌≢◌, refl, sym, ap, ◌∙◌, arith,
}
use gtfs_rt_archiver.Model.{Capture}
use gtfs_rt_archiver.Compact.Library.{regular}
use gtfs_rt_archiver.Rawstore.Commit.{
  Disk, FileStep, name_payload, create_sidecar, write_sidecar, publish_staged, set, move_entry,
  perform, run_steps, payload_name, sidecar_name, commit_steps, rename_staged, create_staged,
  move_staged,
}
use gtfs_rt_archiver.Rawstore.Names.{
  set-same, set-other, sidecar_name-apart, run_steps-some, run_steps-nil,
}

module _ (encode : Capture → List ℕ) (from : String) (body partial : List ℕ) (c : Capture)
    (d : Disk) (is_staged : d.staging from ≡ some (regular body))
    (is_new : d.staging (sidecar_name c.id) ≡ none) where
  abbrev pub named : Disk
  named = record d {
    staging = set (set d.staging from none) (payload_name c.id) (some (regular body));
  }

  abbrev pub created : Disk
  created = record named {
    staging = set named.staging (sidecar_name c.id) (some (regular partial));
  }

  abbrev pub written : Disk
  written = record created {
    staging = set created.staging (sidecar_name c.id) (some (regular (encode c)));
  }

  abbrev pub payload_there : Disk
  payload_there = move_entry (payload_name c.id) c.raw_path (regular body) written

  abbrev pub complete : Disk
  complete = move_entry (sidecar_name c.id) c.sidecar_path (regular (encode c)) payload_there

  not_from : sidecar_name c.id ≢ from
  not_from e = absurd (ground (arith, is_staged, is_new, ap d.staging e))

  perform-named : perform (name_payload from (payload_name c.id)) d ≡ some named
  unfolding perform rename_staged
  perform-named = rw is_staged refl

  pub named-new : named.staging (sidecar_name c.id) ≡ none
  named-new =
      set-other _ (payload_name c.id) (sidecar_name c.id) _ (sidecar_name-apart c.id)
      ∙ set-other d.staging from (sidecar_name c.id) none not_from
      ∙ is_new

  perform-created : perform (create_sidecar (sidecar_name c.id) partial) named ≡ some created
  unfolding perform create_staged
  perform-created = rw named-new refl

  perform-written : perform (write_sidecar (sidecar_name c.id) (encode c)) created ≡ some written
  unfolding perform
  perform-written = refl

  pub payload-written : written.staging (payload_name c.id) ≡ some (regular body)
  payload-written =
      set-other _ (sidecar_name c.id) (payload_name c.id) _ (λ e. sidecar_name-apart c.id (sym e))
      ∙ set-other _ (sidecar_name c.id) (payload_name c.id) _ (λ e. sidecar_name-apart c.id (sym e))
      ∙ set-same _ (payload_name c.id) _

  perform-payload_there :
      perform (publish_staged (payload_name c.id) c.raw_path) written ≡ some payload_there
  unfolding perform move_staged
  perform-payload_there = rw payload-written refl

  pub sidecar-there : payload_there.staging (sidecar_name c.id) ≡ some (regular (encode c))
  unfolding move_entry
  sidecar-there =
      set-other written.staging (payload_name c.id) (sidecar_name c.id) none
        (sidecar_name-apart c.id)
      ∙ set-same _ (sidecar_name c.id) _

  perform-complete :
      perform (publish_staged (sidecar_name c.id) c.sidecar_path) payload_there ≡ some complete
  unfolding perform move_staged
  perform-complete = rw sidecar-there refl

  abbrev pub steps : List FileStep
  steps = commit_steps from encode partial c

  abbrev pub last_steps : List FileStep
  last_steps = publish_staged (sidecar_name c.id) c.sidecar_path ∷ []

  abbrev pub publish_steps : List FileStep
  publish_steps = publish_staged (payload_name c.id) c.raw_path ∷ last_steps

  abbrev pub write_steps : List FileStep
  write_steps = write_sidecar (sidecar_name c.id) (encode c) ∷ publish_steps

  abbrev pub create_steps : List FileStep
  create_steps = create_sidecar (sidecar_name c.id) partial ∷ write_steps

  after_named : (n : ℕ) → run_steps (suc n) steps d ≡ run_steps n create_steps named
  unfolding commit_steps
  after_named n = run_steps-some n _ _ d named perform-named

  after_created : (n : ℕ) → run_steps (suc (suc n)) steps d ≡ run_steps n write_steps created
  unfolding commit_steps
  after_created n = after_named (suc n) ∙ run_steps-some n _ _ named created perform-created

  after_written :
      (n : ℕ) → run_steps (suc (suc (suc n))) steps d ≡ run_steps n publish_steps written
  unfolding commit_steps
  after_written n = after_created (suc n) ∙ run_steps-some n _ _ created written perform-written

  after_payload :
      (n : ℕ) → run_steps (suc (suc (suc (suc n)))) steps d ≡ run_steps n last_steps payload_there
  unfolding commit_steps
  after_payload n =
      after_written (suc n) ∙ run_steps-some n _ _ written payload_there perform-payload_there

  after_complete : (n : ℕ) → run_steps (suc (suc (suc (suc (suc n))))) steps d ≡ complete
  unfolding commit_steps
  after_complete n =
      after_payload (suc n)
      ∙ run_steps-some n _ _ payload_there complete perform-complete
      ∙ run_steps-nil n complete

  -- The disk after so many steps.
  abbrev pub reached : ℕ → Disk
  reached zero = d
  reached (suc zero) = named
  reached (suc (suc zero)) = created
  reached (suc (suc (suc zero))) = written
  reached (suc (suc (suc (suc zero)))) = payload_there
  reached (suc (suc (suc (suc (suc n))))) = complete

  pub run_steps-reached : (n : ℕ) → run_steps n steps d ≡ reached n
  unfolding run_steps
  run_steps-reached zero = refl
  run_steps-reached (suc zero) = after_named 0
  run_steps-reached (suc (suc zero)) = after_created 0
  run_steps-reached (suc (suc (suc zero))) = after_written 0
  run_steps-reached (suc (suc (suc (suc zero)))) = after_payload 0
  run_steps-reached (suc (suc (suc (suc (suc n))))) = after_complete n
