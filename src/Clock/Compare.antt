-- ===== src/Clock/Compare.antt =====
-- SQLite's BINARY collation is a total order, and what it says of two encoded times.
use gtfs_rt_archiver.Base.{
  ◌/◌, ◌<◌, ◌≤◌, ◌≡◌, refl, [], ◌∷◌, inl, inr, true, false, arith, text_compare, Ordering,
  Bool-cases, leb, leb→le,
}
use gtfs_rt_archiver.Clock.{Time, Stamp, stamp_le, stamp_lt, encode_time, second}
use gtfs_rt_archiver.Clock.Order.{encode_time-lt, year_10000}

pub stamp_le_trans :
    (a b c : Stamp) → stamp_le a b ≡ true → stamp_le b c ≡ true → stamp_le a c ≡ true
unfolding stamp_le text_compare
stamp_le_trans [] [] [] h k = refl
stamp_le_trans [] [] (z ∷ c) h k = refl
stamp_le_trans [] (y ∷ b) [] h k = refl
stamp_le_trans [] (y ∷ b) (z ∷ c) h k = refl
stamp_le_trans (x ∷ a) [] c h k = absurd (ground arith)
stamp_le_trans (x ∷ a) (y ∷ b) [] h k = absurd (ground arith)
stamp_le_trans (x ∷ a) (y ∷ b) (z ∷ c) h k = ground (arith, stamp_le_trans a b c)

pub stamp_le_total : (a b : Stamp) → stamp_le a b ≡ false → stamp_le b a ≡ true
unfolding stamp_le text_compare
stamp_le_total [] [] h = absurd (ground arith)
stamp_le_total [] (y ∷ b) h = absurd (ground arith)
stamp_le_total (x ∷ a) [] h = refl
stamp_le_total (x ∷ a) (y ∷ b) h = ground (arith, stamp_le_total a b)

pub stamp_lt-le : (a b : Stamp) → stamp_lt a b ≡ true → stamp_le b a ≡ false
unfolding stamp_le stamp_lt text_compare
stamp_lt-le [] [] h = absurd (ground arith)
stamp_lt-le [] (y ∷ b) h = refl
stamp_lt-le (x ∷ a) [] h = absurd (ground arith)
stamp_lt-le (x ∷ a) (y ∷ b) h = ground (arith, stamp_lt-le a b)

pub stamp_lt_asymm : (a b : Stamp) → stamp_lt a b ≡ true → stamp_lt b a ≡ false
unfolding stamp_lt text_compare
stamp_lt_asymm [] [] h = absurd (ground arith)
stamp_lt_asymm [] (y ∷ b) h = refl
stamp_lt_asymm (x ∷ a) [] h = absurd (ground arith)
stamp_lt_asymm (x ∷ a) (y ∷ b) h = ground (arith, stamp_lt_asymm a b)

pub compare-stamp_lt : (a b : Stamp) → text_compare a b ≡ Ordering.lt → stamp_lt a b ≡ true
unfolding stamp_lt
compare-stamp_lt a b h = ground arith

pub compare-stamp_le : (a b : Stamp) → text_compare a b ≡ Ordering.lt → stamp_le a b ≡ true
unfolding stamp_le
compare-stamp_le a b h = ground arith

-- A time that compares at most equal is not in a later second.
pub stamp_le-second :
    (a b : Time)
    → a / second < year_10000
    → stamp_le (encode_time a) (encode_time b) ≡ true
    → a / second ≤ b / second
stamp_le-second a b k h = elim (Bool-cases (leb (a / second) (b / second))) [
  | inl e ↦ leb→le _ _ e
  | inr e ↦
      let earlier = encode_time-lt b a (ground arith) k in
      let refuted = stamp_lt-le _ _ (compare-stamp_lt _ _ earlier) in cc (h, refuted)
]
