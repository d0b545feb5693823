-- ===== src/Rawstore/Recovery.antt =====
-- internal/rawstore/store.go: what the next start makes of a commit that was cut off.
use gtfs_rt_archiver.Base.{
  ◌&&◌, false, Bool-cases, ◌⊎◌, inl, inr, ℕ, zero, suc, List, Bool, true, Option, none, some,
  String, ◌≡◌, ◌≢◌, refl, sym, ap, ◌∙◌, arith, eq_refl, codes, codes-append, if◌then◌else◌, ltb,
  ◌==◌,
}
use gtfs_rt_archiver.Model.{Capture}
use gtfs_rt_archiver.Compact.Library.{regular}
use gtfs_rt_archiver.Rawstore.{Zone}
use gtfs_rt_archiver.Rawstore.Commit.{
  Disk, FileStep, move_entry, run_steps, sidecar_name, commit_steps,
}
use gtfs_rt_archiver.Rawstore.Finish.{
  has_suffix, has_hash, is_recoverable, finish_valid, finish_pair, finish_payload, publish_both,
  publish_sidecar, finish_decoded, finish_named, finish_entry,
}
use gtfs_rt_archiver.Rawstore.Steps
use gtfs_rt_archiver.Rawstore.Names.{set-same, set-other, has_suffix-append}

-- All or nothing of the whole commit, and the count of corrupt entries.
abbrev pub IsAtomic :
    (d whole : Disk) (n : ℕ) (c : Capture) (body sidecar : List ℕ) (end : Disk × ℕ) → Type 0
IsAtomic d whole n c body sidecar end =
    (end.0.tree ≡ (if ltb n 3 then d.tree else whole.tree))
    × (end.1 ≡ (if n == 2 then 1 else 0))
    × (whole.tree c.raw_path ≡ some (regular body))
    × (whole.tree c.sidecar_path ≡ some (regular sidecar))

-- Nothing is finished; a sidecar that was begun and is staged still is one corrupt entry.
abbrev pub IsLeft : (there : Disk) (n : ℕ) (end : Disk × ℕ) → Type 0
IsLeft there n end = (end.0 ≡ there) × (end.1 ≡ (if ltb 1 n && ltb n 5 then 1 else 0))

left_at :
    (there : Disk) {corrupt : ℕ} {end : Disk × ℕ}
    → end ≡ (there, corrupt)
    → (end.0 ≡ there) × (end.1 ≡ corrupt)
left_at there e = (ap (λ p. p.0) e, ap (λ p. p.1) e)

-- By whether the sidecar is accepted.
abbrev pub IsTakenUp :
    (accepted : Bool) (d whole there : Disk) (n : ℕ) (c : Capture) (body sidecar : List ℕ)
    (end : Disk × ℕ)
    → Type 0
IsTakenUp accepted d whole there n c body sidecar end =
    ((accepted ≡ true) × IsAtomic d whole n c body sidecar end)
    ⊎ ((accepted ≡ false) × IsLeft there n end)

module _ (sha256 : List ℕ → String) (is_safe : String → Bool) (zones : String → Option Zone)
    (encode : Capture → List ℕ) (decode : List ℕ → Option Capture) where
  -- A disk on which Commit has a staged payload to begin with.
  pub record IsReady (from : String) (body partial : List ℕ) (c : Capture) (d : Disk) : Type 0 where
    pub is_staged : d.staging from ≡ some (regular body)
    pub is_new : d.staging (sidecar_name c.id) ≡ none
    pub no_payload : d.tree c.raw_path ≡ none
    pub no_sidecar : d.tree c.sidecar_path ≡ none
    pub is_hash : sha256 body ≡ c.body_sha256
    pub decodes : decode (encode c) ≡ some c
    pub is_torn : decode partial ≡ none
    pub apart : c.sidecar_path ≢ c.raw_path

  module _ (from : String) (body partial : List ℕ) (c : Capture) (d : Disk)
      (ready : IsReady from body partial c d) where
    abbrev named : Disk
    named = Steps.named encode from body partial c d ready.is_staged ready.is_new

    abbrev created : Disk
    created = Steps.created encode from body partial c d ready.is_staged ready.is_new

    abbrev written : Disk
    written = Steps.written encode from body partial c d ready.is_staged ready.is_new

    abbrev payload_there : Disk
    payload_there = Steps.payload_there encode from body partial c d ready.is_staged ready.is_new

    abbrev complete : Disk
    complete = Steps.complete encode from body partial c d ready.is_staged ready.is_new

    abbrev pub steps : List FileStep
    steps = commit_steps from encode partial c

    abbrev pub finished : Disk → Disk × ℕ
    finished x = finish_entry sha256 is_safe zones decode x (sidecar_name c.id)

    ends_right : has_suffix (codes ".json.tmp") (codes (sidecar_name c.id)) ≡ true
    unfolding sidecar_name
    ends_right =
        ap (has_suffix (codes ".json.tmp")) (codes-append c.id ".json.tmp")
        ∙ has_suffix-append (codes c.id) (codes ".json.tmp")

    finish-new : (x : Disk) → x.staging (sidecar_name c.id) ≡ none → finished x ≡ (x, 0)
    unfolding finish_entry finish_named
    finish-new x e = rw (ends_right, e) refl

    finish-staged :
        (x : Disk) (content : List ℕ)
        → x.staging (sidecar_name c.id) ≡ some (regular content)
        → finished x
          ≡ finish_decoded sha256 is_safe zones decode
              (sidecar_name c.id)
              (regular content)
              x
              (decode content)
    unfolding finish_entry finish_named
    finish-staged x content e = rw (ends_right, e) refl

    finish-torn : finished created ≡ (created, 1)
    unfolding finish_decoded
    finish-torn =
        finish-staged created partial (set-same _ (sidecar_name c.id) _) ∙ rw ready.is_torn refl

    finish-decoded :
        (x : Disk)
        → is_recoverable is_safe zones (sidecar_name c.id) c ≡ true
        → x.staging (sidecar_name c.id) ≡ some (regular (encode c))
        → x.tree c.sidecar_path ≡ none
        → finished x
          ≡ finish_payload sha256 (sidecar_name c.id) (regular (encode c)) x c (x.tree c.raw_path)
    unfolding finish_decoded finish_valid finish_pair
    finish-decoded x accepted e h =
        finish-staged x (encode c) e ∙ rw (ready.decodes, accepted, h) refl

    -- Where the sidecar is not accepted, nothing is done.
    finish-refused :
        (x : Disk)
        → is_recoverable is_safe zones (sidecar_name c.id) c ≡ false
        → x.staging (sidecar_name c.id) ≡ some (regular (encode c))
        → finished x ≡ (x, 1)
    unfolding finish_decoded finish_valid
    finish-refused x refused e = finish-staged x (encode c) e ∙ rw (ready.decodes, refused) refl

    hashed : has_hash sha256 c (some (regular body)) ≡ true
    unfolding has_hash
    hashed = rw (ready.is_hash, eq_refl c.body_sha256) refl

    finish-written :
        is_recoverable is_safe zones (sidecar_name c.id) c ≡ true → finished written ≡ (complete, 0)
    unfolding finish_payload publish_both
    finish-written accepted =
        finish-decoded written accepted (set-same _ (sidecar_name c.id) _) ready.no_sidecar
        ∙ rw
            (
              ready.no_payload,
              (Steps.payload-written encode from body partial c d ready.is_staged ready.is_new),
              hashed,
            )
            refl

    no_sidecar-there : payload_there.tree c.sidecar_path ≡ none
    unfolding move_entry
    no_sidecar-there = set-other d.tree c.raw_path c.sidecar_path _ ready.apart ∙ ready.no_sidecar

    payload-there : payload_there.tree c.raw_path ≡ some (regular body)
    unfolding move_entry
    payload-there = set-same d.tree c.raw_path _

    finish-payload_there :
        is_recoverable is_safe zones (sidecar_name c.id) c ≡ true
        → finished payload_there ≡ (complete, 0)
    unfolding finish_payload publish_sidecar
    finish-payload_there accepted =
        finish-decoded payload_there accepted
          (Steps.sidecar-there encode from body partial c d ready.is_staged ready.is_new)
          no_sidecar-there
        ∙ rw (payload-there, hashed) refl

    complete-new : complete.staging (sidecar_name c.id) ≡ none
    unfolding move_entry
    complete-new = set-same _ (sidecar_name c.id) none

    -- What a start makes of a commit that did so many steps.
    abbrev recovered : ℕ → Disk × ℕ
    recovered zero = (d, 0)
    recovered (suc zero) = (named, 0)
    recovered (suc (suc zero)) = (created, 1)
    recovered (suc (suc (suc n))) = (complete, 0)

    -- The disk after so many steps.
    run_steps-reached :
        (n : ℕ)
        → run_steps n steps d
          ≡ Steps.reached encode from body partial c d ready.is_staged ready.is_new n
    run_steps-reached =
        Steps.run_steps-reached encode from body partial c d ready.is_staged ready.is_new

    finish-reached :
        is_recoverable is_safe zones (sidecar_name c.id) c ≡ true
        → (n : ℕ)
        → finished (Steps.reached encode from body partial c d ready.is_staged ready.is_new n)
          ≡ recovered n
    finish-reached accepted zero = finish-new d ready.is_new
    finish-reached accepted (suc zero) =
        finish-new named (Steps.named-new encode from body partial c d ready.is_staged ready.is_new)
    finish-reached accepted (suc (suc zero)) = finish-torn
    finish-reached accepted (suc (suc (suc zero))) = finish-written accepted
    finish-reached accepted (suc (suc (suc (suc zero)))) = finish-payload_there accepted
    finish-reached accepted (suc (suc (suc (suc (suc n))))) = finish-new complete complete-new

    -- What it is where the sidecar is not accepted.
    finish-IsLeft :
        is_recoverable is_safe zones (sidecar_name c.id) c ≡ false
        → (n : ℕ)
        → IsLeft
            (Steps.reached encode from body partial c d ready.is_staged ready.is_new n)
            n
            (finished (Steps.reached encode from body partial c d ready.is_staged ready.is_new n))
    finish-IsLeft refused zero = left_at d (finish-new d ready.is_new)
    finish-IsLeft refused (suc zero) = left_at named (
        finish-new named
          (Steps.named-new encode from body partial c d ready.is_staged ready.is_new))
    finish-IsLeft refused (suc (suc zero)) = left_at created finish-torn
    finish-IsLeft refused (suc (suc (suc zero))) =
        left_at written (finish-refused written refused (set-same _ (sidecar_name c.id) _))
    finish-IsLeft refused (suc (suc (suc (suc zero)))) = left_at payload_there (
        finish-refused payload_there refused
          (Steps.sidecar-there encode from body partial c d ready.is_staged ready.is_new))
    finish-IsLeft refused (suc (suc (suc (suc (suc n))))) =
        let at_end = finish-new complete complete-new in
        (ap (λ p. p.0) at_end, ap (λ p. p.1) at_end ∙ ground arith)

    complete-payload : complete.tree c.raw_path ≡ some (regular body)
    unfolding move_entry
    complete-payload =
        set-other payload_there.tree c.sidecar_path c.raw_path _ (λ e. ready.apart (sym e))
        ∙ payload-there

    complete-sidecar : complete.tree c.sidecar_path ≡ some (regular (encode c))
    unfolding move_entry
    complete-sidecar = set-same payload_there.tree c.sidecar_path _

    recovered-IsAtomic : (n : ℕ) → IsAtomic d complete n c body (encode c) (recovered n)
    recovered-IsAtomic zero = (refl, refl, complete-payload, complete-sidecar)
    recovered-IsAtomic (suc zero) = (refl, refl, complete-payload, complete-sidecar)
    recovered-IsAtomic (suc (suc zero)) = (refl, refl, complete-payload, complete-sidecar)
    recovered-IsAtomic (suc (suc (suc n))) =
        (ground arith, ground arith, complete-payload, complete-sidecar)

    pub finish-IsTakenUp :
        (n : ℕ)
        → IsTakenUp
            (is_recoverable is_safe zones (sidecar_name c.id) c)
            d
            (run_steps 5 steps d)
            (run_steps n steps d)
            n
            c
            body
            (encode c)
            (finished (run_steps n steps d))
    finish-IsTakenUp n =
        rw (run_steps-reached n, run_steps-reached 5)
          (elim (Bool-cases (is_recoverable is_safe zones (sidecar_name c.id) c)) [
            | inl accepted ↦ inl (accepted, rw (finish-reached accepted n) (recovered-IsAtomic n))
            | inr refused ↦ inr (refused, finish-IsLeft refused n)
          ])
