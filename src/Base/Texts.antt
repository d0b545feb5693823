-- ===== src/Base/Texts.antt =====
-- Texts that SQLite compares: the bytes of a TEXT column and its BINARY collation.
use Prim.Native.Char.{code}
use Prim.Native.Nat.{ℕ, ◌<◌, compare, Ordering}
use Prim.Native.String.{String, ◌++◌ as str_append}
use text.Mathlib.TextLemmas.{nil-append, cons-append}
use mathlib.Core.Path.{◌≡◌, refl, ap, ◌∙◌}
use mathlib.Core.List.{List, [], ◌∷◌, ◌++◌}
use native.Mathlib.Omega.{arith}
use gtfs_rt_archiver.Base.Lists.{length}

-- The code points of a text: its bytes, if it is ASCII.
abbrev pub codes : String → List ℕ
codes String.[] = []
codes (String.◌∷◌ c s) = code c ∷ codes s

pub codes-append : (a b : String) → codes (str_append a b) ≡ codes a ++ codes b
codes-append String.[] b = ap codes (nil-append b)
codes-append (String.◌∷◌ c a) b =
    ap codes (cons-append c a b) ∙ ap (λ cs. code c ∷ cs) (codes-append a b)

-- memcmp over the common length, then the shorter text first.
unfoldable pub text_compare : List ℕ → List ℕ → Ordering
text_compare [] [] = Ordering.eq
text_compare [] (y ∷ ys) = Ordering.lt
text_compare (x ∷ xs) [] = Ordering.gt
text_compare (x ∷ xs) (y ∷ ys) =
    let rest = text_compare xs ys in
    elim (compare x y) [
      | Ordering.lt ↦ Ordering.lt
      | Ordering.eq ↦ rest
      | Ordering.gt ↦ Ordering.gt
    ]

pub text_compare-head :
    (x y : ℕ) (xs ys : List ℕ) → x < y → text_compare (x ∷ xs) (y ∷ ys) ≡ Ordering.lt
unfolding text_compare
text_compare-head x y xs ys h = ground arith

pub text_compare-cons :
    (x : ℕ) (xs ys : List ℕ) → text_compare (x ∷ xs) (x ∷ ys) ≡ text_compare xs ys
unfolding text_compare
text_compare-cons x xs ys = ground arith

pub text_compare-prefix : (p xs ys : List ℕ) → text_compare (p ++ xs) (p ++ ys) ≡ text_compare xs ys
text_compare-prefix [] xs ys = refl
text_compare-prefix (x ∷ p) xs ys =
    rw (text_compare-cons x (p ++ xs) (p ++ ys)) (text_compare-prefix p xs ys)

-- What follows texts of one length does not matter once they differ.
pub text_compare-append :
    (xs ys us vs : List ℕ)
    → length xs ≡ length ys
    → text_compare xs ys ≡ Ordering.lt
    → text_compare (xs ++ us) (ys ++ vs) ≡ Ordering.lt
unfolding text_compare
text_compare-append [] [] us vs e h = ground arith
text_compare-append [] (y ∷ ys) us vs e h = absurd (omega arith)
text_compare-append (x ∷ xs) [] us vs e h = ground arith
text_compare-append (x ∷ xs) (y ∷ ys) us vs e h = ground (arith, text_compare-append xs ys us vs)
