-- ===== src/Clock/Order.antt =====
-- The order of encoded times under SQLite's BINARY collation.
mod Periods
use native.Mathlib.Nat.{mod-lt}
use gtfs_rt_archiver.Base.{
  ℕ, zero, suc, List-cases, ◌+◌, ◌*◌, ◌/◌, ◌%◌, ◌<◌, ◌≤◌, ◌^◌, ◌≡◌, refl, List, [], ◌∷◌, ◌++◌, ◌⊎◌,
  inl, inr, length, length-append, arith, codes, Ordering, text_compare, text_compare-append,
  text_compare-prefix, text_compare-cons, text_compare-head,
}
use gtfs_rt_archiver.Clock.Digits.{
  digits, length-digits, digits-lt, split_lt, pow_pos, div_mod_zero,
}
use gtfs_rt_archiver.Clock.Calendar.{year_of, day_text, clock_text, date_text, month_of, year_days}
use gtfs_rt_archiver.Clock.{encode_time, second, fraction, trim_zeros, Time}
use Periods.{Earlier, year_of_mono, year_of-bound, month_of_mono, month_of-bound}

-- A separator and the rest, after a field of fixed width: the first field that differs decides.
module _ (w sep : ℕ) where
  field_lt :
      (a b : ℕ) (us vs : List ℕ)
      → b < 10 ^ w
      → (a < b) ⊎ ((a ≡ b) × (text_compare us vs ≡ Ordering.lt))
      → text_compare (digits w a ++ (sep ∷ us)) (digits w b ++ (sep ∷ vs)) ≡ Ordering.lt
  field_lt a b us vs k (inl h) =
      text_compare-append (digits w a) (digits w b) (sep ∷ us) (sep ∷ vs)
        (rw (length-digits w a, length-digits w b)) (digits-lt w a b h k)
  field_lt a b us vs k (inr (e, h)) =
      rw (e, text_compare-prefix (digits w b) (sep ∷ us) (sep ∷ vs), text_compare-cons sep us vs) h

abbrev last_day : ℕ
last_day = 2_932_897

length-day_text : (p : ℕ × ℕ) → length (day_text p) ≡ 10
unfolding day_text digits
length-day_text (y, d) = refl

-- The same year: the month and its day decide.
month_lt :
    (y c d : ℕ)
    → c < d
    → d < year_days y
    → text_compare (day_text (y, c)) (day_text (y, d)) ≡ Ordering.lt
unfolding day_text
month_lt y c d h k =
    rw (text_compare-prefix (digits 4 y) (b'-' ∷ _) (b'-' ∷ _), text_compare-cons b'-' _ _)
      (elim (month_of_mono y c d h) [
        | inl m ↦ field_lt 2 b'-' _ _ _ _ (omega (arith, month_of-bound y d k)) (inl m)
        | inr (m, e) ↦
            field_lt 2 b'-' _ _ _ _ (omega (arith, month_of-bound y d k))
              (inr (m, digits-lt 2 _ _ (omega arith) (omega (arith, month_of-bound y d k))))
      ])

day_lt :
    (p q : ℕ × ℕ)
    → Earlier p q
    → q.0 < 10000
    → q.1 < year_days q.0
    → text_compare (day_text p) (day_text q) ≡ Ordering.lt
day_lt (y, c) (z, d) (inl e) k l = unfold day_text in field_lt 4 b'-' y z _ _ k (inl e)
day_lt (y, c) (z, d) (inr (e, h)) k l = rw e (month_lt z c d h l)

clock_text-lt :
    (a b : ℕ) → a < b → b < 86400 → text_compare (clock_text a) (clock_text b) ≡ Ordering.lt
unfolding clock_text
clock_text-lt a b h k = rw (text_compare-cons b'T' _ _) (elim (split_lt 3600 a b (omega arith) h) [
  | inl e ↦ field_lt 2 b':' _ _ _ _ (omega arith) (inl e)
  | inr (e, l) ↦ field_lt 2 b':' _ _ _ _ (omega arith) (inr (e, minutes l))
])
  where
    minutes :
        a % 3600 < b % 3600
        → text_compare
            (digits 2 (a % 3600 / 60) ++ (b':' ∷ digits 2 (a % 60)))
            (digits 2 (b % 3600 / 60) ++ (b':' ∷ digits 2 (b % 60)))
          ≡ Ordering.lt
    minutes l = elim (split_lt 60 (a % 3600) (b % 3600) (omega arith) l) [
      | inl e ↦ field_lt 2 b':' _ _ _ _ (omega arith) (inl e)
      | inr (e, m) ↦
          field_lt 2 b':' _ _ _ _ (omega arith)
            (inr (e, digits-lt 2 (a % 60) (b % 60) (omega arith) (omega arith)))
    ]

length-date_text : (s : ℕ) → length (date_text s) ≡ 19
unfolding date_text clock_text digits
length-date_text s = omega (
  arith,
  length-append (day_text (year_of (s / 86400))) (clock_text (s % 86400)),
  length-day_text (year_of (s / 86400)),
)

-- 10000-01-01T00:00:00Z, in seconds.
abbrev pub year_10000 : ℕ
year_10000 = 253_402_300_800

date_text-lt :
    (a b : ℕ) → a < b → b < year_10000 → text_compare (date_text a) (date_text b) ≡ Ordering.lt
unfolding date_text
date_text-lt a b h k = elim (split_lt 86400 a b (omega arith) h) [
  | inl e ↦
      text_compare-append (day_text (year_of (a / 86400))) (day_text (year_of (b / 86400))) _ _
        (rw (length-day_text (year_of (a / 86400)), length-day_text (year_of (b / 86400))))
        (day_lt _ _ (year_of_mono _ _ e) (year_of-bound (b / 86400) (omega arith)).0
          (year_of-bound (b / 86400) (omega arith)).1)
  | inr (e, l) ↦
      rw (e, text_compare-prefix (day_text (year_of (b / 86400))) _ _)
        (clock_text-lt (a % 86400) (b % 86400) l (omega arith))
]

-- Two instants in different seconds before the year 10000 are encoded as texts in their order.
pub encode_time-lt :
    (a b : Time)
    → a / second < b / second
    → b / second < year_10000
    → text_compare (encode_time a) (encode_time b) ≡ Ordering.lt
unfolding encode_time
encode_time-lt a b h k =
    text_compare-append (date_text (a / second)) (date_text (b / second)) _ _
      (rw (length-date_text (a / second), length-date_text (b / second)))
      (date_text-lt (a / second) (b / second) h k)

trim_zeros-cons :
    (d : ℕ) (ds : List ℕ) → trim_zeros (d ∷ ds) ≡ [] → (d ≡ b'0') × (trim_zeros ds ≡ [])
unfolding trim_zeros
trim_zeros-cons d ds e = ground arith

-- No digit but 0 is dropped.
trim_zeros-nil : (w n : ℕ) → n < 10 ^ w → trim_zeros (digits w n) ≡ [] → n ≡ 0
unfolding digits
trim_zeros-nil zero n h e = omega arith
trim_zeros-nil (suc w) n h e =
    let (d, ds) = trim_zeros-cons (48 + n / 10 ^ w) (digits w (n % 10 ^ w)) e in
    let low : n % 10 ^ w ≡ 0 = trim_zeros-nil w (n % 10 ^ w) (mod-lt n (pow_pos w)) ds in
    div_mod_zero (10 ^ w) n (omega arith) low

-- An instant with a fraction is written with a point where the whole second has its Z.
fraction-pos : (n : ℕ) → 0 < n → n < second → (ds : List ℕ) × (fraction n ≡ b'.' ∷ ds)
unfolding fraction
fraction-pos n h k = elim (List-cases (trim_zeros (digits 9 n))) [
  | inl e ↦ absurd (omega (arith, trim_zeros-nil 9 n k e))
  | inr (d, ds, e) ↦ (d ∷ ds, rw (fraction, e))
]

fraction-zero : fraction 0 ≡ []
unfolding fraction trim_zeros digits
fraction-zero = refl

-- An instant with a fraction of a second is encoded as a text before that of the whole second that
-- it follows.
pub encode_time-inverts :
    (s n : ℕ)
    → 0 < n
    → n < second
    → text_compare (encode_time (s * second + n)) (encode_time (s * second)) ≡ Ordering.lt
unfolding encode_time
encode_time-inverts s n h k =
    let quotient : (s * second + n) / second ≡ s = omega arith in
    let remainder : (s * second + n) % second ≡ n = omega arith in
    let whole : s * second / second ≡ s = omega arith in
    let none_left : s * second % second ≡ 0 = omega arith in
    rw (quotient, remainder, whole, none_left, text_compare-prefix (date_text s) _ _)
      (rw ((fraction-pos n h k).1, fraction-zero) (text_compare-head b'.' b'Z' _ _ (omega arith)))
