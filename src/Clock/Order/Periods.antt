-- ===== src/Clock/Order/Periods.antt =====
-- Years and months as periods of days: later days fall in later periods, or later in one period.
use gtfs_rt_archiver.Base.{
  ℕ, zero, suc, ◌+◌, ◌-◌, ◌<◌, ◌≤◌, ◌≡◌, refl, ap, List, [], ◌∷◌, ◌⊎◌, inl, inr, length, arith,
  Bool-cases, All, ltb, ltb→lt,
}
use gtfs_rt_archiver.Clock.Calendar.{
  is_leap, period_of, years_from, year_days, month_days, year_of, month_of,
}

total : List ℕ → ℕ
total [] = 0
total (x ∷ xs) = x + total xs

period_of-later : (lens : List ℕ) (n d : ℕ) → n ≤ (period_of lens n d).0
unfolding period_of
period_of-later [] n d = omega arith
period_of-later (l ∷ lens) n d = ground (arith, period_of-later lens (suc n) (d - l))

-- Of two days the earlier is in an earlier period, or earlier in the same period.
abbrev pub Earlier : ℕ × ℕ → ℕ × ℕ → Type 0
Earlier p q = (p.0 < q.0) ⊎ ((p.0 ≡ q.0) × (p.1 < q.1))

period_of_mono :
    (lens : List ℕ) (n a b : ℕ) → a < b → Earlier (period_of lens n a) (period_of lens n b)
unfolding period_of
period_of_mono [] n a b h = inr (refl, h)
period_of_mono (l ∷ lens) n a b h =
    ground
      (arith, period_of_mono lens (suc n) (a - l) (b - l), period_of-later lens (suc n) (b - l))

period_of-bound :
    (lens : List ℕ) (n d : ℕ) → d < total lens → (period_of lens n d).0 < n + length lens
unfolding period_of total
period_of-bound [] n d h = absurd (omega arith)
period_of-bound (l ∷ lens) n d h = ground (arith, period_of-bound lens (suc n) (d - l))

length-years_from : (k y : ℕ) → length (years_from k y) ≡ k
unfolding years_from
length-years_from zero y = refl
length-years_from (suc k) y = ap suc (length-years_from k (suc y))

-- The day found is a day of its year.
years_from-bound :
    (k y d : ℕ)
    → d < total (years_from k y)
    → (period_of (years_from k y) y d).1 < year_days (period_of (years_from k y) y d).0
unfolding period_of total years_from
years_from-bound zero y d h = absurd (omega arith)
years_from-bound (suc k) y d h = elim (Bool-cases (ltb d (year_days y))) [
  | inl e ↦ rw e (ltb→lt d (year_days y) e)
  | inr e ↦ rw e (years_from-bound k (suc y) (d - year_days y) (ground arith))
]

-- So is the day of a month, where no month has more than `m` days.
period_of-day :
    (m : ℕ) (lens : List ℕ) (n d : ℕ)
    → All (λ l. l ≤ m) lens
    → d < total lens
    → (period_of lens n d).1 < m
unfolding period_of total
period_of-day m [] n d a h = absurd (omega arith)
period_of-day m (l ∷ lens) n d a h = elim (Bool-cases (ltb d l)) [
  | inl e ↦ rw e (omega (arith, ltb→lt d l e, a))
  | inr e ↦ rw e (period_of-day m lens (suc n) (d - l) a.1 (ground arith))
]

total-years : total (years_from 8030 1970) ≡ 2_932_897
unfolding total years_from year_days is_leap
total-years = refl

total-months : (y : ℕ) → total (month_days y) ≡ year_days y
unfolding total month_days year_days
total-months y = ground arith

months-short : (y : ℕ) → All (λ l. l ≤ 31) (month_days y)
unfolding month_days
months-short y = ground arith

length-month_days : (y : ℕ) → length (month_days y) ≡ 12
unfolding month_days
length-month_days y = refl

pub year_of_mono : (a b : ℕ) → a < b → Earlier (year_of a) (year_of b)
unfolding year_of
year_of_mono a b h = period_of_mono (years_from 8030 1970) 1970 a b h

pub year_of-bound :
    (d : ℕ) → d < 2_932_897 → ((year_of d).0 < 10000) × ((year_of d).1 < year_days (year_of d).0)
unfolding year_of
year_of-bound d h = (
  omega (
    arith,
    length-years_from 8030 1970,
    period_of-bound (years_from 8030 1970) 1970 d (rw total-years h),
  ),
  years_from-bound 8030 1970 d (rw total-years h),
)

pub month_of_mono : (y a b : ℕ) → a < b → Earlier (month_of y a) (month_of y b)
unfolding month_of
month_of_mono y a b h = period_of_mono (month_days y) 1 a b h

pub month_of-bound : (y d : ℕ) → d < year_days y → ((month_of y d).0 < 13) × ((month_of y d).1 < 31)
unfolding month_of
month_of-bound y d h = (
  omega (arith, length-month_days y, period_of-bound (month_days y) 1 d (rw (total-months y) h)),
  period_of-day 31 (month_days y) 1 d (months-short y) (rw (total-months y) h),
)
