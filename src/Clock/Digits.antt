-- ===== src/Clock/Digits.antt =====
-- Decimal digits of a fixed width, first digit first, as ASCII codes.
use native.Mathlib.Nat.{pow-suc, mod-lt, div-add-mod}
use gtfs_rt_archiver.Base.{
  ℕ, zero, suc, ◌+◌, ◌*◌, ◌/◌, ◌%◌, ◌^◌, ◌<◌, ◌≡◌, refl, List, [], ◌∷◌, length, arith, ap,
  text_compare, Ordering, ◌⊎◌,
}

unfoldable pub digits : ℕ → ℕ → List ℕ
digits zero n = []
digits (suc w) n = (48 + n / 10 ^ w) ∷ digits w (n % 10 ^ w)

pub length-digits : (w n : ℕ) → length (digits w n) ≡ w
unfolding digits
length-digits zero n = refl
length-digits (suc w) n = ap suc (length-digits w (n % 10 ^ w))

pub pow_pos : (w : ℕ) → 0 < 10 ^ w
pow_pos zero = omega arith
pow_pos (suc w) = omega (arith, pow_pos w, pow-suc 10 w)

pub split_lt : (p a b : ℕ) → 0 < p → a < b → (a / p < b / p) ⊎ ((a / p ≡ b / p) × (a % p < b % p))
split_lt p a b hp h = grind arith

pub div_mod_zero : (p n : ℕ) → n / p ≡ 0 → n % p ≡ 0 → n ≡ 0
div_mod_zero p n h k = omega (arith, div-add-mod n p, ap (λ (q : ℕ). p * q) h)

-- Of two numbers the smaller has the text that comes first.
pub digits-lt :
    (w a b : ℕ) → a < b → b < 10 ^ w → text_compare (digits w a) (digits w b) ≡ Ordering.lt
unfolding digits text_compare
digits-lt zero a b h k = absurd (omega arith)
digits-lt (suc w) a b h k = ground (
  arith,
  split_lt (10 ^ w) a b (pow_pos w) h,
  mod-lt b (pow_pos w),
  digits-lt w (a % 10 ^ w) (b % 10 ^ w),
)
