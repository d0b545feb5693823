-- ===== src/Gtfsrt/Flags.antt =====
-- internal/gtfsrt/decode.go, unique: the flags of a body, sorted, each once.
use gtfs_rt_archiver.Base.Sort.{insert, sort}
use gtfs_rt_archiver.Base.Pairs.{IsSorted, sort-IsSorted}
use gtfs_rt_archiver.Base.{
  ℕ, zero, suc, Result, ok, err, Option, none, some, ◌++◌, List, [], ◌∷◌, Bool, true, false, ◌||◌,
  String, str_eq, eq_iff, codes, any, All, ◌≡◌, refl, arith, Bool-cases, inl, inr,
}
use gtfs_rt_archiver.Clock.{Time}
use gtfs_rt_archiver.Clock.Compare.{stamp_le_trans, stamp_le_total}
use gtfs_rt_archiver.Gtfsrt.{
  Header, Message, entity_flags, timestamp_flags, incrementality_flags, with_version, decode_header,
  decode_message, decode, text_le, dedupe_after, dedupe, unique,
}

module _ (p : String → Bool) where
  any-insert : (v : String) (vs : List String) → any p (insert text_le v vs) ≡ (p v || any p vs)
  unfolding insert any
  any-insert v [] = refl
  any-insert v (w ∷ ws) = ground (arith, any-insert v ws)

  any-sort : (vs : List String) → any p (sort text_le vs) ≡ any p vs
  unfolding sort any
  any-sort [] = refl
  any-sort (v ∷ vs) = ground (arith, any-insert v (sort text_le vs), any-sort vs)

  any-dedupe_after :
      (last : String) (vs : List String)
      → (p last || any p (dedupe_after last vs)) ≡ (p last || any p vs)
  unfolding dedupe_after any
  any-dedupe_after last [] = refl
  any-dedupe_after last (v ∷ vs) = elim (Bool-cases (str_eq last v)) [
    | inl e ↦ rw e (rw (← (eq_iff last v).0 e) (ground (arith, any-dedupe_after last vs)))
    | inr e ↦ rw e (ground (arith, any-dedupe_after v vs))
  ]

  any-dedupe : (vs : List String) → any p (dedupe vs) ≡ any p vs
  unfolding dedupe any
  any-dedupe [] = refl
  any-dedupe (v ∷ vs) = any-dedupe_after v vs

  -- A flag is among the unique values exactly when it is among the values.
  any-unique : (vs : List String) → any p (unique vs) ≡ any p vs
  unfolding unique
  any-unique vs = rw (any-dedupe (sort text_le vs), any-sort vs)

-- The values after one, each at least the one before it and different from it.
abbrev pub Follows : String → List String → Type 0
Follows last [] = Unit
Follows last (v ∷ vs) = (text_le last v ≡ true) × (str_eq last v ≡ false) × Follows v vs

abbrev pub IsAscending : List String → Type 0
IsAscending [] = Unit
IsAscending (v ∷ vs) = Follows v vs

pub text_le_trans : (a b c : String) → text_le a b ≡ true → text_le b c ≡ true → text_le a c ≡ true
unfolding text_le
text_le_trans a b c h k = stamp_le_trans (codes a) (codes b) (codes c) h k

pub text_le_total : (a b : String) → text_le a b ≡ false → text_le b a ≡ true
unfolding text_le
text_le_total a b h = stamp_le_total (codes a) (codes b) h

dedupe_after-Follows :
    (last : String) (vs : List String)
    → All (λ v. text_le last v ≡ true) vs
    → IsSorted text_le vs
    → Follows last (dedupe_after last vs)
unfolding dedupe_after
dedupe_after-Follows last [] b h = tt
dedupe_after-Follows last (v ∷ vs) b h = elim (Bool-cases (str_eq last v)) [
  | inl e ↦ rw e (dedupe_after-Follows last vs b.1 h.1)
  | inr e ↦ rw e (b.0, e, dedupe_after-Follows v vs h.0 h.1)
]

dedupe-IsAscending : (vs : List String) → IsSorted text_le vs → IsAscending (dedupe vs)
unfolding dedupe
dedupe-IsAscending [] h = tt
dedupe-IsAscending (v ∷ vs) h = dedupe_after-Follows v vs h.0 h.1

-- The flags that `unique` returns ascend as texts, each different from the one before it, and a
-- flag is among them exactly when it is among the values given.
pub unique-IsAscending :
    (vs : List String)
    → IsAscending (unique vs)
      × ((flag : String) → any (λ v. str_eq v flag) (unique vs) ≡ any (λ v. str_eq v flag) vs)
unique-IsAscending vs = (ascending, λ flag. any-unique (λ v. str_eq v flag) vs)
  where
    ascending : IsAscending (unique vs)
    ascending =
        unfold unique in
        dedupe-IsAscending (sort text_le vs) (sort-IsSorted text_le text_le_trans text_le_total vs)

decode_header-IsAscending :
    (h : Option Header) (m : Message) (expected : String) (observed : Time)
    → IsAscending (decode_header h m expected observed).flags
unfolding decode_header
decode_header-IsAscending none m expected observed =
    (unique-IsAscending (entity_flags expected m.entities)).0
decode_header-IsAscending (some h) m expected observed =
    (unique-IsAscending (
      incrementality_flags h.incrementality
      ++ (timestamp_flags h.timestamp observed ++ entity_flags expected m.entities))).0

-- The flags of every decoded body ascend as texts, each different from the one before it.
pub decode-IsAscending :
    (size : ℕ) (unmarshalled : Result String Message) (expected : String) (observed : Time)
    → IsAscending (decode size unmarshalled expected observed).flags
unfolding decode decode_message
decode-IsAscending zero unmarshalled expected observed = tt
decode-IsAscending (suc size) (err e) expected observed = tt
decode-IsAscending (suc size) (ok m) expected observed =
    decode_header-IsAscending (with_version m.header) m expected observed
