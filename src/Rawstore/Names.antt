-- ===== src/Rawstore/Names.antt =====
-- internal/rawstore/store.go: the names of a capture's files are apart, and what a write does to them.
use Prim.Native.String.{◌++◌ as str_append}
use gtfs_rt_archiver.Base.{
  ℕ, zero, suc, List, [], ◌∷◌, ◌++◌, true, false, Option, some, String, str_eq, ◌≡◌, ◌≢◌, refl, sym,
  ap, ◌∙◌, arith, eq_iff, eq_refl, codes, codes-append, Bool-cases, inl, inr,
}
use gtfs_rt_archiver.Compact.Library.{Entry}
use gtfs_rt_archiver.Compact.Verify.{join_path}
use gtfs_rt_archiver.Upload.Publish.{same_bytes}
use gtfs_rt_archiver.Rawstore.Finish.{has_suffix}
use gtfs_rt_archiver.Rawstore.Commit.{
  Disk, FileStep, perform, run_steps, set, payload_name, sidecar_name,
}

pub set-same : (files : String → Option Entry) (p : String) (e : Option Entry) → set files p e p ≡ e
unfolding set
set-same files p e = rw (eq_refl p) refl

str_eq-apart : (p q : String) → p ≢ q → str_eq p q ≡ false
str_eq-apart p q n = elim (Bool-cases (str_eq p q)) [
  | inl e ↦ absurd (n ((eq_iff p q).0 e))
  | inr e ↦ e
]

pub set-other :
    (files : String → Option Entry) (p q : String) (e : Option Entry)
    → q ≢ p
    → set files p e q ≡ files q
unfolding set
set-other files p q e n = rw (str_eq-apart q p n) refl

after_prefix : (xs ys zs : List ℕ) → xs ++ ys ≡ xs ++ zs → ys ≡ zs
after_prefix [] ys zs e = e
after_prefix (x ∷ xs) ys zs e = after_prefix xs ys zs (ground arith)

codes-suffix :
    (a b c : String) → codes (str_append a b) ≡ codes (str_append a c) → codes b ≡ codes c
codes-suffix a b c e =
    after_prefix (codes a) (codes b) (codes c) (sym (codes-append a b) ∙ e ∙ codes-append a c)

pub sidecar_name-apart : (id : String) → sidecar_name id ≢ payload_name id
unfolding sidecar_name payload_name
sidecar_name-apart id e =
    absurd (ground (arith, codes-suffix id ".json.tmp" ".pb.tmp" (ap codes e)))

pub sidecar_path-apart :
    (directory base : String)
    → join_path directory (str_append base ".json") ≢ join_path directory (str_append base ".pb")
unfolding join_path
sidecar_path-apart directory base e =
    let after_slash = codes-suffix "/" (str_append base ".json") (str_append base ".pb") (
      codes-suffix directory (str_append "/" (str_append base ".json"))
        (str_append "/" (str_append base ".pb")) (ap codes e)) in
    absurd (ground (arith, codes-suffix base ".json" ".pb" after_slash))

same_bytes_refl : (xs : List ℕ) → same_bytes xs xs ≡ true
unfolding same_bytes
same_bytes_refl [] = refl
same_bytes_refl (x ∷ xs) = ground (arith, same_bytes_refl xs)

pub has_suffix-append : (xs suffix : List ℕ) → has_suffix suffix (xs ++ suffix) ≡ true
unfolding has_suffix same_bytes
has_suffix-append [] [] = refl
has_suffix-append [] (c ∷ cs) = rw (same_bytes_refl (c ∷ cs)) refl
has_suffix-append (x ∷ xs) suffix = ground (arith, has_suffix-append xs suffix)

pub run_steps-some :
    (n : ℕ) (s : FileStep) (steps : List FileStep) (d d' : Disk)
    → perform s d ≡ some d'
    → run_steps (suc n) (s ∷ steps) d ≡ run_steps n steps d'
unfolding run_steps
run_steps-some n s steps d d' e = rw (e, run_steps) refl

pub run_steps-nil : (n : ℕ) (d : Disk) → run_steps n [] d ≡ d
unfolding run_steps
run_steps-nil zero d = refl
run_steps-nil (suc n) d = refl
