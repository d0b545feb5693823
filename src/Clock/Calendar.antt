-- ===== src/Clock/Calendar.antt =====
-- Go's layout "2006-01-02T15:04:05" in UTC, for the years from 1970 to 9999.
use gtfs_rt_archiver.Base.{
  ℕ, zero, suc, ◌-◌, ◌/◌, ◌%◌, List, [], ◌∷◌, ◌++◌, Bool, ◌==◌, ltb, if◌then◌else◌, ◌&&◌, ◌||◌, not,
}
use gtfs_rt_archiver.Clock.Digits.{digits}

unfoldable pub is_leap : ℕ → Bool
is_leap y = y % 4 == 0 && (not (y % 100 == 0) || y % 400 == 0)

unfoldable pub year_days : ℕ → ℕ
year_days y = if is_leap y then 366 else 365

-- The months of a year, by their lengths.
unfoldable pub month_days : ℕ → List ℕ
month_days y =
    31 ∷ (if is_leap y then 29 else 28) ∷ 31 ∷ 30 ∷ 31 ∷ 30 ∷ 31 ∷ 31 ∷ 30 ∷ 31 ∷ 30 ∷ 31 ∷ []

-- The period that a day falls in, counted from `n`, and its day in that period.
unfoldable pub period_of : List ℕ → ℕ → ℕ → ℕ × ℕ
period_of [] n d = (n, d)
period_of (len ∷ lens) n d =
    let rest = period_of lens (suc n) (d - len) in if ltb d len then (n, d) else rest

-- The lengths of the years from `y` on.
unfoldable pub years_from : ℕ → ℕ → List ℕ
years_from zero y = []
years_from (suc k) y = year_days y ∷ years_from k (suc y)

-- 8030 years reach the end of 9999.
unfoldable pub year_of : ℕ → ℕ × ℕ
year_of days = period_of (years_from 8030 1970) 1970 days

unfoldable pub month_of : ℕ → ℕ → ℕ × ℕ
month_of y d = period_of (month_days y) 1 d

unfoldable pub day_text : ℕ × ℕ → List ℕ
day_text (y, d) =
    let (m, k) = month_of y d in digits 4 y ++ (b'-' ∷ digits 2 m ++ (b'-' ∷ digits 2 (suc k)))

unfoldable pub clock_text : ℕ → List ℕ
clock_text s =
    b'T' ∷ digits 2 (s / 3600) ++ (b':' ∷ digits 2 (s % 3600 / 60) ++ (b':' ∷ digits 2 (s % 60)))

unfoldable pub date_text : ℕ → List ℕ
date_text s = day_text (year_of (s / 86400)) ++ clock_text (s % 86400)
