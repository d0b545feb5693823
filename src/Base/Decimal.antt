-- ===== src/Base/Decimal.antt =====
-- fmt's %d of a number: its decimal digits as a text.
use Prim.Native.Nat.{ℕ, zero, suc, ◌/◌, ◌%◌}
use Prim.Native.String.{String, ◌++◌ as str_append}
use mathlib.Core.Path.{◌≡◌, refl}
use mathlib.Core.Bool.{true, false}
use mathlib.Core.List.{List, [], ◌∷◌}
use gtfs_rt_archiver.Base.Tests.{◌==◌}

abbrev pub digit_texts : List String
digit_texts = "0" ∷ "1" ∷ "2" ∷ "3" ∷ "4" ∷ "5" ∷ "6" ∷ "7" ∷ "8" ∷ "9" ∷ []

unfoldable pub text_at : ℕ → List String → String
text_at n [] = ""
text_at zero (t ∷ ts) = t
text_at (suc n) (t ∷ ts) = text_at n ts

unfoldable pub digit_text : ℕ → String
digit_text d = text_at d digit_texts

-- The digits of a number before those that are there already. Each digit takes one unit of fuel, and
-- a number has fewer digits than its value and one.
unfoldable pub decimal_onto : ℕ → ℕ → String → String
decimal_onto zero n after = after
decimal_onto (suc fuel) n after = elim (n / 10 == 0) [
  | true ↦ str_append (digit_text (n % 10)) after
  | false ↦ decimal_onto fuel (n / 10) (str_append (digit_text (n % 10)) after)
]

unfoldable pub decimal : ℕ → String
decimal n = decimal_onto (suc n) n ""

decimal_shown : decimal 1203 ≡ "1203"
unfolding decimal decimal_onto digit_text text_at
decimal_shown = refl
