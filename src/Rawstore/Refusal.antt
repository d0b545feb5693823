-- ===== src/Rawstore/Refusal.antt =====
-- internal/rawstore/store.go, validateCapturePaths, and internal/model/model.go, NewID: the raw string
-- literal `/\\\x00` has the characters x and 0, and every id of this century has a 0.
use gtfs_rt_archiver.Base.{
  ℕ, suc, ◌+◌, ◌/◌, ◌%◌, ◌<◌, ◌≤◌, List, ◌∷◌, ◌++◌, true, false, Option, String, err, ◌≡◌, refl, ap,
  ap₂, arith, codes, any,
}
use gtfs_rt_archiver.Clock.{Time, second}
use gtfs_rt_archiver.Clock.Digits.{digits}
use gtfs_rt_archiver.Clock.Calendar.{year_of, month_of}
use gtfs_rt_archiver.Model.{Capture, new_id, compact_day}
use gtfs_rt_archiver.Rawstore.{
  Zone, contains_any, forbidden, has_identity, validate_capture_paths, invalid_identity,
}

-- An id that NewID gives in a year from 2000 to 2099.
pub record IsOfCentury (id : String) : Type 0 where
  pub now : Time
  pub random : List ℕ
  pub is_new : codes id ≡ new_id now random
  pub after : 2000 ≤ (year_of (now / second / 86400)).0
  pub before : (year_of (now / second / 86400)).0 < 2100

digits-century :
    (y : ℕ) → 2000 ≤ y → y < 2100 → digits 4 y ≡ b'2' ∷ b'0' ∷ digits 2 (y % 1000 % 100)
unfolding digits
digits-century y h k = ap₂ (λ a b. a ∷ b ∷ digits 2 (y % 1000 % 100)) first second_digit
  where
    first : 48 + y / 1000 ≡ b'2'
    first = omega arith

    second_digit : 48 + y % 1000 / 100 ≡ b'0'
    second_digit = omega arith

compact_day-century :
    (q : ℕ × ℕ) → 2000 ≤ q.0 → q.0 < 2100 → (rest : List ℕ) × (compact_day q ≡ b'2' ∷ b'0' ∷ rest)
unfolding compact_day
compact_day-century q h k =
    let tail = digits 2 (month_of q.0 q.1).0 ++ digits 2 (suc (month_of q.0 q.1).1) in
    (digits 2 (q.0 % 1000 % 100) ++ tail, ap (λ ds. ds ++ tail) (digits-century q.0 h k))

-- The id of a capture of this century has a character that is refused.
refused :
    (id : String) (more : List ℕ)
    → IsOfCentury id
    → contains_any (codes id ++ more) forbidden ≡ true
unfolding new_id contains_any any
refused id more century =
    let (rest, e) =
      compact_day-century (year_of (century.now / second / 86400)) century.after century.before in
    rw (century.is_new, e) refl

has_identity-refuses : (c : Capture) → IsOfCentury c.id → has_identity c ≡ false
unfolding has_identity
has_identity-refuses c century =
    rw (refused c.id (codes c.source_id ++ codes c.stream_id) century) (ground arith)

pub validate_capture_paths-refuses :
    (zones : String → Option Zone) (c : Capture)
    → IsOfCentury c.id
    → validate_capture_paths zones c ≡ err invalid_identity
unfolding validate_capture_paths
validate_capture_paths-refuses zones c century = rw (has_identity-refuses c century) refl
