-- ===== src/Compact/Names.antt =====
-- internal/compact/compact.go: the name of an artifact is a basename, since a hash in hexadecimal has no
-- slash.
use Prim.Native.String.{◌++◌ as str_append}
use mathlib.Core.List.{append-nil}
use gtfs_rt_archiver.Base.{
  ℕ, List, [], ◌∷◌, ◌++◌, Bool, true, not, String, ◌≡◌, refl, ap, ◌∙◌, arith, ◌==◌, codes,
  codes-append, all,
}
use gtfs_rt_archiver.Upload.Publish.{base_name, is_hex, reverse, reverse_onto, trim_left, to_slash}
use gtfs_rt_archiver.Compact.Verify.{artifact_name}

all-append :
    (p : ℕ → Bool) (xs ys : List ℕ) → all p xs ≡ true → all p ys ≡ true → all p (xs ++ ys) ≡ true
unfolding all
all-append p [] ys h k = k
all-append p (x ∷ xs) ys h k = ground (arith, all-append p xs ys)

-- A byte of a file name.
is_plain : ℕ → Bool
is_plain c = not (c == b'/')

hex-IsPlain : (cs : List ℕ) → all is_hex cs ≡ true → all is_plain cs ≡ true
unfolding all is_hex is_plain
hex-IsPlain [] h = refl
hex-IsPlain (c ∷ cs) h = ground (arith, hex-IsPlain cs)

to_slash-plain : (cs : List ℕ) → all is_plain cs ≡ true → to_slash cs ≡ cs
unfolding to_slash all is_plain
to_slash-plain [] h = refl
to_slash-plain (c ∷ cs) h = ground (arith, to_slash-plain cs)

trim_left-plain : (cs : List ℕ) → all is_plain cs ≡ true → trim_left cs ≡ cs
unfolding trim_left all is_plain
trim_left-plain [] h = refl
trim_left-plain (c ∷ cs) h = ground arith

reverse_onto-plain :
    (cs acc : List ℕ)
    → all is_plain cs ≡ true
    → all is_plain acc ≡ true
    → all is_plain (reverse_onto acc cs) ≡ true
unfolding reverse_onto all
reverse_onto-plain [] acc h k = k
reverse_onto-plain (c ∷ cs) acc h k = reverse_onto-plain cs (c ∷ acc) (ground arith) (ground arith)

reverse_onto_twice :
    (cs acc ys : List ℕ) → reverse_onto ys (reverse_onto acc cs) ≡ reverse_onto (cs ++ ys) acc
unfolding reverse_onto
reverse_onto_twice [] acc ys = refl
reverse_onto_twice (c ∷ cs) acc ys = reverse_onto_twice cs (c ∷ acc) ys

reverse_twice : (cs : List ℕ) → reverse (reverse cs) ≡ cs
unfolding reverse
reverse_twice cs = reverse_onto_twice cs [] [] ∙ unfold reverse_onto in append-nil cs

reverse-plain : (cs : List ℕ) → all is_plain cs ≡ true → all is_plain (reverse cs) ≡ true
unfolding reverse all
reverse-plain cs h = reverse_onto-plain cs [] h refl

base_name-plain : (c : ℕ) (cs : List ℕ) → all is_plain (c ∷ cs) ≡ true → base_name (c ∷ cs) ≡ c ∷ cs
unfolding base_name
base_name-plain c cs h =
    let back = reverse-plain (c ∷ cs) h in
    rw
      (
        trim_left-plain (reverse (c ∷ cs)) back,
        to_slash-plain (reverse (c ∷ cs)) back,
        reverse_twice (c ∷ cs),
      )
      refl

artifact_name-codes :
    (hash : String) → codes (artifact_name hash) ≡ codes "data-" ++ (codes hash ++ codes ".parquet")
unfolding artifact_name
artifact_name-codes hash =
    codes-append "data-" (str_append hash ".parquet")
    ∙ ap (λ cs. codes "data-" ++ cs) (codes-append hash ".parquet")

pub base_name-artifact :
    (hash : String)
    → all is_hex (codes hash) ≡ true
    → base_name (codes (artifact_name hash)) ≡ codes (artifact_name hash)
unfolding is_plain all
base_name-artifact hash h = rw (artifact_name-codes hash) (
    base_name-plain b'd' _ (
      all-append is_plain (codes "data-") (codes hash ++ codes ".parquet") refl
        (all-append is_plain (codes hash) (codes ".parquet") (hex-IsPlain (codes hash) h) refl)))
