-- ===== src/Clock.antt =====
-- internal/state/store.go, encodeTime: how the state database writes an instant.
--
-- A `Time` counts nanoseconds from 1970-01-01T00:00:00Z. `date_text` is what Go's layout
-- "2006-01-02T15:04:05" prints of it in UTC, and `encode_time` adds what time.RFC3339Nano adds:
-- the fraction without its trailing zeros, no fraction at all where it is 0, and the letter Z.
pub mod Digits
pub mod Calendar
pub mod Order
pub mod Compare
pub mod Tests
use gtfs_rt_archiver.Base.{
  ℕ, zero, suc, ◌+◌, ◌-◌, ◌*◌, ◌/◌, ◌%◌, ◌^◌, List, [], ◌∷◌, ◌++◌, Bool, true, false, ◌==◌, ltb,
  if◌then◌else◌, Option, none, some, Ordering, text_compare,
}
use Digits.{digits}
use Calendar.{date_text}

abbrev pub Time : Type 0
Time = ℕ

-- A TEXT column that holds an encoded time, as bytes.
abbrev pub Stamp : Type 0
Stamp = List ℕ

abbrev pub second : ℕ
second = 1_000_000_000

-- Digits after the point, with the zeros at the end dropped.
unfoldable pub trim_zeros : List ℕ → List ℕ
trim_zeros [] = []
trim_zeros (d ∷ ds) =
    let rest = trim_zeros ds in
    elim rest [ [] ↦ (if d == b'0' then [] else d ∷ []) | x ∷ xs ↦ d ∷ x ∷ xs ]

-- `.999999999` of the layout.
unfoldable pub fraction : ℕ → List ℕ
fraction n = elim (trim_zeros (digits 9 n)) [ [] ↦ [] | x ∷ xs ↦ b'.' ∷ x ∷ xs ]

unfoldable pub encode_time : Time → Stamp
encode_time t = date_text (t / second) ++ (fraction (t % second) ++ b'Z' ∷ [])

unfoldable pub encode_time_ptr : Option Time → Option Stamp
encode_time_ptr none = none
encode_time_ptr (some t) = some (encode_time t)

-- `<=` and `<` between two TEXT values.
unfoldable pub stamp_le : Stamp → Stamp → Bool
stamp_le a b = elim (text_compare a b) [ Ordering.gt ↦ false | _ ↦ true ]

unfoldable pub stamp_lt : Stamp → Stamp → Bool
stamp_lt a b = elim (text_compare a b) [ Ordering.lt ↦ true | _ ↦ false ]
