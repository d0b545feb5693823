-- ===== src/Base/Lists.antt =====
-- Lists measured by native numbers, rows selected by a Boolean test, and predicates on all rows.
use Prim.Native.Nat.{ℕ, suc, ◌+◌, ◌≤◌}
use mathlib.Core.Path.{◌≡◌, refl, ap}
use mathlib.Core.Logic.{◌⊎◌, inl, inr}
use mathlib.Core.Bool.{Bool, true, false, ◌&&◌, ◌||◌}
use mathlib.Core.Option.{Option, none, some}
use mathlib.Core.List.{List, [], ◌∷◌, ◌++◌, map}
use native.Mathlib.Omega.{arith}
use gtfs_rt_archiver.Base.Tests.{if◌then◌else◌}

module _ {ℓ} {A : Type ℓ} where
  abbrev pub length : List A → ℕ
  length [] = 0
  length (x ∷ xs) = suc (length xs)

  -- `WHERE`: the rows that pass the test, in their order.
  unfoldable pub where_rows : (A → Bool) → List A → List A
  where_rows p [] = []
  where_rows p (x ∷ xs) = if p x then x ∷ where_rows p xs else where_rows p xs

  unfoldable pub any : (A → Bool) → List A → Bool
  any p [] = false
  any p (x ∷ xs) = p x || any p xs

  unfoldable pub all : (A → Bool) → List A → Bool
  all p [] = true
  all p (x ∷ xs) = p x && all p xs

  -- `COUNT(*) WHERE`.
  unfoldable pub count_rows : (A → Bool) → List A → ℕ
  count_rows p [] = 0
  count_rows p (x ∷ xs) = if p x then suc (count_rows p xs) else count_rows p xs

  unfoldable pub find_row : (A → Bool) → List A → Option A
  find_row p [] = none
  find_row p (x ∷ xs) = if p x then some x else find_row p xs

  -- `UPDATE … WHERE`: the rows that pass the test are replaced.
  unfoldable pub update_rows : (A → Bool) → (A → A) → List A → List A
  update_rows p f [] = []
  update_rows p f (x ∷ xs) = (if p x then f x else x) ∷ update_rows p f xs

  pub length-append : (xs ys : List A) → length (xs ++ ys) ≡ length xs + length ys
  length-append [] ys = omega arith
  length-append (x ∷ xs) ys = omega (arith, length-append xs ys)

  pub length-update_rows :
      (p : A → Bool) (f : A → A) (xs : List A) → length (update_rows p f xs) ≡ length xs
  unfolding update_rows
  length-update_rows p f [] = refl
  length-update_rows p f (x ∷ xs) = ap suc (length-update_rows p f xs)

  pub count_rows-zero-iff-any :
      (p : A → Bool) (xs : List A) → count_rows p xs ≡ 0 → any p xs ≡ false
  unfolding count_rows any
  count_rows-zero-iff-any p [] h = refl
  count_rows-zero-iff-any p (x ∷ xs) h = ground (arith, count_rows-zero-iff-any p xs)

  pub count_rows-le-length : (p : A → Bool) (xs : List A) → count_rows p xs ≤ length xs
  unfolding count_rows
  count_rows-le-length p [] = omega arith
  count_rows-le-length p (x ∷ xs) = ground (arith, count_rows-le-length p xs)

  pub length-where_rows : (p : A → Bool) (xs : List A) → length (where_rows p xs) ≡ count_rows p xs
  unfolding where_rows count_rows
  length-where_rows p [] = refl
  length-where_rows p (x ∷ xs) = ground (arith, length-where_rows p xs)

-- A predicate of every row.
abbrev pub All {ℓ κ} : {Row : Type ℓ} (P : Row → Type κ) (rows : List Row) → Type κ
All P [] = Unit
All P (row ∷ rows) = P row × All P rows

pub length-map {ℓ κ} :
    {A : Type ℓ} {B : Type κ} (f : A → B) (xs : List A) → length (map f xs) ≡ length xs
length-map f [] = refl
length-map f (x ∷ xs) = ap suc (length-map f xs)

module _ {ℓ κ} {A : Type ℓ} (P : A → Type κ) where
  pub All-append : (xs ys : List A) → All P xs → All P ys → All P (xs ++ ys)
  All-append [] ys hx hy = hy
  All-append (x ∷ xs) ys hx hy = (hx.0, All-append xs ys hx.1 hy)

  pub All-where_rows : (p : A → Bool) (xs : List A) → All P xs → All P (where_rows p xs)
  unfolding where_rows
  All-where_rows p [] h = h
  All-where_rows p (x ∷ xs) h =
      elim (p x) as (λ b. All P (if b then x ∷ where_rows p xs else where_rows p xs)) [
        | true ↦ (h.0, All-where_rows p xs h.1)
        | false ↦ All-where_rows p xs h.1
      ]

pub List-cases {ℓ} :
    {A : Type ℓ} (xs : List A) → (xs ≡ []) ⊎ ((y : A) × (ys : List A) × (xs ≡ y ∷ ys))
List-cases [] = inl refl
List-cases (x ∷ xs) = inr (x, xs, refl)
