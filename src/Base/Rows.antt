-- ===== src/Base/Rows.antt =====
-- What holds of the rows of a table after a statement, from what held of each row before.
use mathlib.Core.Path.{◌≡◌, refl}
use mathlib.Core.Bool.{Bool, true, false, ◌||◌}
use mathlib.Core.Logic.{inl, inr}
use mathlib.Core.List.{List, [], ◌∷◌, ◌++◌, map, Memᴰ}
use mathlib.Core.Option.{some}
use native.Mathlib.Omega.{arith}
use gtfs_rt_archiver.Base.Tests.{Bool-cases}
use gtfs_rt_archiver.Base.Lists.{All, any, update_rows, where_rows, find_row}

module _ {ℓ} {A : Type ℓ} (g : A → Bool) where
  pub any-append : (xs ys : List A) → any g (xs ++ ys) ≡ (any g xs || any g ys)
  unfolding any
  any-append [] ys = refl
  any-append (x ∷ xs) ys = ground (arith, any-append xs ys)

  pub any-append-false :
      (xs ys : List A) → any g xs ≡ false → any g ys ≡ false → any g (xs ++ ys) ≡ false
  any-append-false xs ys h k = ground (arith, any-append xs ys)

  -- No row passes after an update, if none did and an updated row passes only where it did before.
  pub any-update_rows-false :
      (p : A → Bool) (f : A → A) (xs : List A)
      → All (λ x. p x ≡ true → g (f x) ≡ true → g x ≡ true) xs
      → any g xs ≡ false
      → any g (update_rows p f xs) ≡ false
  unfolding any update_rows
  any-update_rows-false p f [] k h = refl
  any-update_rows-false p f (x ∷ xs) k h =
      let keep = k.0 in ground (arith, keep, any-update_rows-false p f xs k.1)

  pub any-false-All : (xs : List A) → any g xs ≡ false → All (λ x. g x ≡ false) xs
  unfolding any
  any-false-All [] h = tt
  any-false-All (x ∷ xs) h = (ground arith, any-false-All xs (ground arith))

  pub All-any-false : (xs : List A) → All (λ x. g x ≡ false) xs → any g xs ≡ false
  unfolding any
  All-any-false [] h = refl
  All-any-false (x ∷ xs) h = ground (arith, All-any-false xs h.1)

  pub find_row-eq-some : (xs : List A) (a : A) → find_row g xs ≡ some a → g a ≡ true
  unfolding find_row
  find_row-eq-some [] a h = absurd (ground arith)
  find_row-eq-some (x ∷ xs) a h = ground (arith, find_row-eq-some xs a)

module _ {ℓ κ μ} {A : Type ℓ} (P : A → Type κ) (Q : A → Type μ) where
  pub All-mono : ((x : A) → P x → Q x) → (xs : List A) → All P xs → All Q xs
  All-mono k [] h = tt
  All-mono k (x ∷ xs) h = (k x h.0, All-mono k xs h.1)

  pub All-update_rows :
      (p : A → Bool) (f : A → A)
      → ((x : A) → P x → p x ≡ true → Q (f x))
      → ((x : A) → P x → p x ≡ false → Q x)
      → (xs : List A) → All P xs
      → All Q (update_rows p f xs)
  unfolding update_rows
  All-update_rows p f hit miss [] h = tt
  All-update_rows p f hit miss (x ∷ xs) h = elim (Bool-cases (p x)) [
    | inl e ↦ rw e (hit x h.0 e, All-update_rows p f hit miss xs h.1)
    | inr e ↦ rw e (miss x h.0 e, All-update_rows p f hit miss xs h.1)
  ]

pub All-intro {ℓ κ} : {A : Type ℓ} (P : A → Type κ) → ((x : A) → P x) → (xs : List A) → All P xs
All-intro P k [] = tt
All-intro P k (x ∷ xs) = (k x, All-intro P k xs)

-- What a query returns, from what holds of the rows that its test lets through.
pub All-map-where_rows {ℓ κ μ ν} :
    {A : Type ℓ} {B : Type κ} (Q : A → Type ν) (P : B → Type μ) (p : A → Bool) (f : A → B)
    → ((x : A) → Q x → p x ≡ true → P (f x))
    → (xs : List A) → All Q xs
    → All P (map f (where_rows p xs))
unfolding where_rows
All-map-where_rows Q P p f k [] h = tt
All-map-where_rows Q P p f k (x ∷ xs) h = elim (Bool-cases (p x)) [
  | inl e ↦ rw e (k x h.0 e, All-map-where_rows Q P p f k xs h.1)
  | inr e ↦ rw e (All-map-where_rows Q P p f k xs h.1)
]

pub All-where_rows_test {ℓ κ} :
    {A : Type ℓ} (P : A → Type κ) (p : A → Bool)
    → ((x : A) → p x ≡ true → P x)
    → (xs : List A) → All P (where_rows p xs)
unfolding where_rows
All-where_rows_test P p k [] = tt
All-where_rows_test P p k (x ∷ xs) = elim (Bool-cases (p x)) [
  | inl e ↦ rw e (k x e, All-where_rows_test P p k xs)
  | inr e ↦ rw e (All-where_rows_test P p k xs)
]

pub any-mem {ℓ} :
    {A : Type ℓ} (p : A → Bool) (x : A) {xs : List A} → Memᴰ x xs → p x ≡ true → any p xs ≡ true
unfolding any
any-mem p x (Memᴰ.head e) h = rw (← e, h)
any-mem p x (Memᴰ.tail m) h = ground (arith, any-mem p x m h)

pub where_rows-mem {ℓ} :
    {A : Type ℓ} (p : A → Bool) (x : A) {xs : List A}
    → Memᴰ x xs
    → p x ≡ true
    → Memᴰ x (where_rows p xs)
unfolding where_rows
where_rows-mem p x (Memᴰ.head e) h = rw (← e, h) (Memᴰ.head refl)
where_rows-mem p x (Memᴰ.tail {x = y} m) h = elim (Bool-cases (p y)) [
  | inl k ↦ rw k (Memᴰ.tail (where_rows-mem p x m h))
  | inr k ↦ rw k (where_rows-mem p x m h)
]

-- The test of a row that comes last.
pub where_rows-last {ℓ} :
    {A : Type ℓ} (p : A → Bool) (xs : List A) (x : A)
    → p x ≡ true
    → where_rows p (xs ++ x ∷ []) ≡ where_rows p xs ++ x ∷ []
unfolding where_rows
where_rows-last p [] x h = rw h refl
where_rows-last p (y ∷ ys) x h = ground (arith, where_rows-last p ys x h)

pub where_rows-last_dropped {ℓ} :
    {A : Type ℓ} (p : A → Bool) (xs : List A) (x : A)
    → p x ≡ false
    → where_rows p (xs ++ x ∷ []) ≡ where_rows p xs
unfolding where_rows
where_rows-last_dropped p [] x h = rw h refl
where_rows-last_dropped p (y ∷ ys) x h = ground (arith, where_rows-last_dropped p ys x h)
