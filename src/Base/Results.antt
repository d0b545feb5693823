-- ===== src/Base/Results.antt =====
-- What fallible code returns: a value, or an error of the component's own type.
use mathlib.Core.Path.{◌≡◌, refl, ap}
use mathlib.Core.Bool.{Bool, true, false}
use mathlib.Core.Logic.{◌⊎◌, inl, inr}
use native.Mathlib.Omega.{arith}

pub data Result {ℓ} (E : Type 0) (A : Type ℓ) : Type ℓ where
  ok : A → Result E A
  err : E → Result E A

-- `if !test { return failure }`.
abbrev pub guard : {E : Type 0} → Bool → E → Result E (Unit {0})
guard false failure = err failure
guard true failure = ok tt

-- The two ways in which a guard goes.
pub guard-eq-ok :
    {E : Type 0} (test : Bool) (failure : E) → guard test failure ≡ ok tt → test ≡ true
guard-eq-ok test failure e = ground arith

-- The next statement, unless this one has returned an error.
infixl 5 ◌>>=◌
abbrev pub ◌>>=◌ {ℓ κ} :
    {E : Type 0} {A : Type ℓ} {B : Type κ} → Result E A → (A → Result E B) → Result E B
err failure >>= next = err failure
ok x >>= next = next x

-- What a sequence that succeeds went through.
pub >>=-eq-ok {ℓ κ} :
    {E : Type 0} {A : Type ℓ} {B : Type κ} (first : Result E A) (next : A → Result E B) {y : B}
    → (first >>= next) ≡ ok y
    → (x : A) × (first ≡ ok x) × (next x ≡ ok y)
>>=-eq-ok (err failure) next e = absurd (ground arith)
>>=-eq-ok (ok x) next e = (x, refl, e)

-- A statement for its error alone.
infixl 5 ◌>>◌
abbrev pub ◌>>◌ {ℓ} : {E : Type 0} {B : Type ℓ} → Result E (Unit {0}) → Result E B → Result E B
first >> rest = first >>= λ _. rest

value_or {ℓ} : {E : Type 0} {A : Type ℓ} → A → Result E A → A
value_or other (ok x) = x
value_or other (err failure) = other

pub ok-injective {ℓ} : {E : Type 0} {A : Type ℓ} {x y : A} → Path (Result E A) (ok x) (ok y) → x ≡ y
unfolding value_or
ok-injective {x = x} e = ap (value_or x) e

pub Result-cases {ℓ} :
    {E : Type 0} {A : Type ℓ} (m : Result E A)
    → ((x : A) × (m ≡ ok x)) ⊎ ((failure : E) × (m ≡ err failure))
Result-cases (ok x) = inl (x, refl)
Result-cases (err failure) = inr (failure, refl)

-- What a passed test goes on to.
pub guard-then {ℓ} :
    {E : Type 0} {B : Type ℓ} (test : Bool) (failure : E) (rest : Result E B) {y : B}
    → (guard test failure >> rest) ≡ ok y
    → (test ≡ true) × (rest ≡ ok y)
guard-then true failure rest e = (refl, e)
guard-then false failure rest e = absurd (ground arith)
