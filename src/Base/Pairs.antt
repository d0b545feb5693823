-- ===== src/Base/Pairs.antt =====
-- Lists whose rows stand in a relation, each with every later one: sorted lists, distinct keys; and
-- what filtering and insertion sort keep of them.
use mathlib.Core.Path.{◌≡◌, refl, sym, ap, ◌∙◌}
use mathlib.Core.Bool.{Bool, true, false}
use mathlib.Core.Logic.{inl, inr}
use mathlib.Core.List.{List, [], ◌∷◌, map}
use native.Mathlib.Omega.{arith}
use gtfs_rt_archiver.Base.Tests.{Bool-cases, if◌then◌else◌}
use gtfs_rt_archiver.Base.Lists.{All, All-where_rows, where_rows}
use gtfs_rt_archiver.Base.Rows.{All-mono}
use gtfs_rt_archiver.Base.Sort.{insert, sort}

abbrev pub Pairwise {ℓ κ} : {A : Type ℓ} (R : A → A → Type κ) (rows : List A) → Type κ
Pairwise R [] = Unit
Pairwise R (a ∷ rows) = All (R a) rows × Pairwise R rows

pub where_rows-Pairwise {ℓ κ} :
    {A : Type ℓ} (R : A → A → Type κ) (p : A → Bool) (xs : List A)
    → Pairwise R xs
    → Pairwise R (where_rows p xs)
unfolding where_rows
where_rows-Pairwise R p [] h = tt
where_rows-Pairwise R p (x ∷ xs) h = elim (Bool-cases (p x)) [
  | inl e ↦ rw e (All-where_rows (R x) p xs h.0, where_rows-Pairwise R p xs h.1)
  | inr e ↦ rw e (where_rows-Pairwise R p xs h.1)
]

module _ {ℓ} {A : Type ℓ} (le : A → A → Bool) where
  pub insert-All {κ} :
      (P : A → Type κ) (x : A) (xs : List A) → P x → All P xs → All P (insert le x xs)
  unfolding insert
  insert-All P x [] p h = (p, tt)
  insert-All P x (y ∷ ys) p h = elim (Bool-cases (le x y)) [
    | inl e ↦ rw e (p, h)
    | inr e ↦ rw e (h.0, insert-All P x ys p h.1)
  ]

  pub sort-All {κ} : (P : A → Type κ) (xs : List A) → All P xs → All P (sort le xs)
  unfolding sort
  sort-All P [] h = tt
  sort-All P (x ∷ xs) h = insert-All P x (sort le xs) h.0 (sort-All P xs h.1)

  module _ {κ} (R : A → A → Type κ) (symmetric : (a b : A) → R a b → R b a) where
    insert-Pairwise :
        (x : A) (xs : List A) → All (R x) xs → Pairwise R xs → Pairwise R (insert le x xs)
    unfolding insert
    insert-Pairwise x [] a h = (tt, tt)
    insert-Pairwise x (y ∷ ys) a h = elim (Bool-cases (le x y)) [
      | inl e ↦ rw e (a, h)
      | inr e ↦ rw e (insert-All (R y) x ys (symmetric x y a.0) h.0, insert-Pairwise x ys a.1 h.1)
    ]

    -- A symmetric relation between all rows does not depend on their order.
    pub sort-Pairwise : (xs : List A) → Pairwise R xs → Pairwise R (sort le xs)
    unfolding sort
    sort-Pairwise [] h = tt
    sort-Pairwise (x ∷ xs) h =
        insert-Pairwise x (sort le xs) (sort-All (R x) xs h.0) (sort-Pairwise xs h.1)

  -- Each row is at most every later one.
  abbrev pub IsSorted : List A → Type 0
  IsSorted = Pairwise (λ a b. le a b ≡ true)

  module _ (le_trans : (a b c : A) → le a b ≡ true → le b c ≡ true → le a c ≡ true)
      (le_total : (a b : A) → le a b ≡ false → le b a ≡ true) where
    insert-IsSorted : (x : A) (xs : List A) → IsSorted xs → IsSorted (insert le x xs)
    unfolding insert
    insert-IsSorted x [] h = (tt, tt)
    insert-IsSorted x (y ∷ ys) h = elim (Bool-cases (le x y)) [
      | inl e ↦ rw e ((e, All-mono _ _ (λ z k. le_trans x y z e k) ys h.0), h)
      | inr e ↦
          rw e (insert-All (λ z. le y z ≡ true) x ys (le_total x y e) h.0, insert-IsSorted x ys h.1)
    ]

    pub sort-IsSorted : (xs : List A) → IsSorted (sort le xs)
    unfolding sort
    sort-IsSorted [] = tt
    sort-IsSorted (x ∷ xs) = insert-IsSorted x (sort le xs) (sort-IsSorted xs)

    insert-least : (x : A) (xs : List A) → All (λ y. le x y ≡ true) xs → insert le x xs ≡ x ∷ xs
    unfolding insert
    insert-least x [] h = refl
    insert-least x (y ∷ ys) h = rw h.0 refl

    -- Sorting what is sorted changes nothing.
    pub sort-sorted : (xs : List A) → IsSorted xs → sort le xs ≡ xs
    unfolding sort
    sort-sorted [] h = refl
    sort-sorted (x ∷ xs) h = rw (sort-sorted xs h.1) (insert-least x xs h.0)

    where_rows-insert :
        (p : A → Bool) (x : A) (xs : List A)
        → IsSorted xs
        → where_rows p (insert le x xs)
          ≡ (if p x then insert le x (where_rows p xs) else where_rows p xs)
    unfolding where_rows insert
    where_rows-insert p x [] h = refl
    where_rows-insert p x (y ∷ ys) h = elim (Bool-cases (le x y)) [
      | inl e ↦
          let below : All (λ z. le x z ≡ true) (y ∷ ys) =
            (e, All-mono _ _ (λ z k. le_trans x y z e k) ys h.0) in
          let least = insert-least x (where_rows p (y ∷ ys)) (All-where_rows _ p (y ∷ ys) below) in
          rw e (kept (p x) (where_rows p (y ∷ ys)) least)
      | inr e ↦ rw e (ground (arith, where_rows-insert p x ys h.1, e))
    ]
      where
        kept :
            (b : Bool) (rows : List A)
            → insert le x rows ≡ x ∷ rows
            → (if b then x ∷ rows else rows) ≡ (if b then insert le x rows else rows)
        kept true rows k = sym k
        kept false rows k = refl

    -- Filtering what was sorted sorts what was filtered.
    pub where_rows-sort :
        (p : A → Bool) (xs : List A) → where_rows p (sort le xs) ≡ sort le (where_rows p xs)
    unfolding where_rows sort
    where_rows-sort p [] = refl
    where_rows-sort p (x ∷ xs) =
        ground (arith, where_rows-insert p x (sort le xs) (sort-IsSorted xs), where_rows-sort p xs)

module _ {ℓ κ} {A : Type ℓ} {B : Type κ} (key : A → B) (le : B → B → Bool) where
  map-insert :
      (x : A) (xs : List A)
      → map key (insert (λ a b. le (key a) (key b)) x xs) ≡ insert le (key x) (map key xs)
  unfolding insert
  map-insert x [] = refl
  map-insert x (y ∷ ys) = ground (arith, map-insert x ys)

  -- Sorting by a key sorts the keys.
  pub map-sort :
      (xs : List A) → map key (sort (λ a b. le (key a) (key b)) xs) ≡ sort le (map key xs)
  unfolding sort
  map-sort [] = refl
  map-sort (x ∷ xs) =
      map-insert x (sort (λ a b. le (key a) (key b)) xs) ∙ ap (insert le (key x)) (map-sort xs)
