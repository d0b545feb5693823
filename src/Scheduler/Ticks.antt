-- ===== src/Scheduler/Ticks.antt =====
-- The next tick is the first instant after now that has the stream's phase.
use native.Mathlib.Nat.{mod-lt, div-add-mod', mod-add-mod, mod-eq_of_lt, mod_self}
use gtfs_rt_archiver.Base.Int.{
  ℤ, pos, negsuc, ◌+ℤ◌, ◌-ℤ◌, ◌*ℤ◌, ltb_ℤ, ◌≤ℤ◌, pos_part, neg_part, int_laws, +ℤ_parts, -ℤ_parts,
  eq_of_parts,
}
use gtfs_rt_archiver.Base.{
  ℕ, zero, suc, ◌+◌, ◌-◌, ◌*◌, ◌/◌, ◌%◌, ◌^◌, ◌<◌, ◌≤◌, ◌≡◌, some, arith, inl, inr, Bool-cases,
  true, false, ap, sym, ◌∙◌, ◌⊎◌, ◌==◌, ==_iff,
}
use gtfs_rt_archiver.Scheduler.{int64, rem, floor_mod, next_tick, effective_lateness}

-- The range of int64.
abbrev pub InRange : ℤ → Type 0
InRange z = (pos_part z < 2 ^ 63) × (neg_part z ≤ 2 ^ 63)

pub int64_exact : (z : ℤ) → InRange z → int64 z ≡ z
unfolding int64
int64_exact (pos n) h = ground arith
int64_exact (negsuc n) h = ground arith

-- The remainder of the next number.
mod_suc :
    (n d : ℕ)
    → 0 < d
    → ((n % d + 1 ≡ d) × ((n + 1) % d ≡ 0)) ⊎ ((n % d + 1 < d) × ((n + 1) % d ≡ n % d + 1))
mod_suc n d h = elim (Bool-cases (n % d + 1 == d)) [
  | inl e ↦ inl ((==_iff _ _).0 e, sym (mod-add-mod n d 1) ∙ rw ((==_iff _ _).0 e) (mod_self d))
  | inr e ↦
      let small : n % d + 1 < d = ground (arith, mod-lt n h) in
      inr (small, sym (mod-add-mod n d 1) ∙ mod-eq_of_lt small)
]

-- Euclid's remainder of an integer, and its quotient.
abbrev pub residue : ℤ → ℕ → ℕ
residue (pos n) d = n % d
residue (negsuc n) d = d - 1 - n % d

abbrev pub quotient : ℤ → ℕ → ℤ
quotient (pos n) d = pos (n / d)
quotient (negsuc n) d = negsuc (n / d)

floor_mod-residue : (value : ℤ) (d : ℕ) → 0 < d → floor_mod value d ≡ pos (residue value d)
unfolding floor_mod rem ◌-ℤ◌ ◌+ℤ◌
floor_mod-residue (pos n) d h = ground arith
floor_mod-residue (negsuc n) d h = ground (arith, mod_suc n d h, mod-lt n h)

quotient-residue :
    (value : ℤ) (d : ℕ) → 0 < d → value ≡ quotient value d *ℤ pos d +ℤ pos (residue value d)
unfolding ◌*ℤ◌ ◌+ℤ◌
quotient-residue (pos n) d h = ground (arith, div-add-mod' n d)
quotient-residue (negsuc n) d h = ground (arith, div-add-mod' n d, mod-lt n h)

residue-lt : (value : ℤ) (d : ℕ) → 0 < d → residue value d < d
residue-lt (pos n) d h = mod-lt n h
residue-lt (negsuc n) d h = omega arith

times-pos_part : (q : ℤ) (d : ℕ) → pos_part (q *ℤ pos d) ≡ pos_part q * d
unfolding ◌*ℤ◌
times-pos_part (pos n) d = ground arith
times-pos_part (negsuc n) d = ground arith

times-neg_part : (q : ℤ) (d : ℕ) → neg_part (q *ℤ pos d) ≡ neg_part q * d
unfolding ◌*ℤ◌
times-neg_part (pos n) d = ground arith
times-neg_part (negsuc n) d = ground arith

abbrev next_of : ℤ → ℤ
next_of (pos n) = pos (n + 1)
next_of (negsuc zero) = pos 0
next_of (negsuc (suc n)) = negsuc n

next_of-times :
    (q : ℤ) (d : ℕ)
    → pos_part (next_of q) * d + neg_part q * d ≡ pos_part q * d + d + neg_part (next_of q) * d
next_of-times (pos n) d = omega arith
next_of-times (negsuc zero) d = omega arith
next_of-times (negsuc (suc n)) d = omega arith

-- Of the first tick after now: from the difference of now and the phase.
on_phase :
    (n q : ℤ) (d p r : ℕ)
    → n -ℤ pos p ≡ q *ℤ pos d +ℤ pos r
    → n -ℤ pos r +ℤ pos d ≡ pos p +ℤ next_of q *ℤ pos d
on_phase n q d p r e = eq_of_parts _ _ (
    omega (
      int_laws,
      next_of-times q d,
      times-pos_part q d,
      times-neg_part q d,
      times-pos_part (next_of q) d,
      times-neg_part (next_of q) d,
      ap pos_part e,
      ap neg_part e,
    ))

-- Instants and intervals whose sums do not leave int64: 2^62 ns are 146 years.
pub record IsUsual (n : ℤ) (interval : ℕ) : Type 0 where
  pub after_epoch : pos_part n < 2 ^ 62
  pub before_epoch : neg_part n ≤ 2 ^ 62
  pub positive : 0 < interval
  pub short : interval < 2 ^ 61

InRange-sub : (n : ℤ) (interval p : ℕ) → IsUsual n interval → p < 2 ^ 61 → InRange (n -ℤ pos p)
unfolding ◌-ℤ◌
InRange-sub (pos n) interval p u h = let a = u.after_epoch in (ground arith, ground arith)
InRange-sub (negsuc n) interval p u h = let b = u.before_epoch in (ground arith, ground arith)

InRange-add : (n : ℤ) (interval p : ℕ) → IsUsual n interval → p < 2 ^ 61 → InRange (n +ℤ pos p)
unfolding ◌+ℤ◌
InRange-add (pos n) interval p u h = let a = u.after_epoch in (ground arith, ground arith)
InRange-add (negsuc n) interval p u h = let b = u.before_epoch in (ground arith, ground arith)

add_back : (n : ℤ) (r d : ℕ) → r ≤ d → n -ℤ pos r +ℤ pos d ≡ n +ℤ pos (d - r)
add_back n r d h = eq_of_parts _ _ (omega int_laws)

not_later : (n : ℤ) (r : ℕ) → ltb_ℤ n (n -ℤ pos r) ≡ false
not_later n r = ground (arith, -ℤ_parts n (pos r))

later : (n : ℤ) (r d : ℕ) → r < d → ltb_ℤ n (n -ℤ pos r +ℤ pos d) ≡ true
later n r d h = ground (arith, -ℤ_parts n (pos r), +ℤ_parts (n -ℤ pos r) (pos d))

-- The instant that the code computes.
next_tick_value :
    (n : ℤ) (interval phase : ℕ)
    → IsUsual n interval
    → next_tick n (pos interval) phase
      ≡ some (n -ℤ pos (residue (n -ℤ pos (phase % interval)) interval) +ℤ pos interval)
unfolding next_tick
next_tick_value n interval phase u =
    let p = phase % interval in
    let p_small : p < interval = mod-lt phase u.positive in
    let r = residue (n -ℤ pos p) interval in
    let r_small : r < interval = residue-lt (n -ℤ pos p) interval u.positive in
    let short = u.short in
    let difference : int64 (n -ℤ pos p) ≡ n -ℤ pos p =
      int64_exact _ (InRange-sub n interval p u (omega arith)) in
    let rounded : floor_mod (n -ℤ pos p) interval ≡ pos r =
      floor_mod-residue _ interval u.positive in
    let base : int64 (n -ℤ pos r) ≡ n -ℤ pos r =
      int64_exact _ (InRange-sub n interval r u (omega arith)) in
    let sum : int64 (n -ℤ pos r +ℤ pos interval) ≡ n -ℤ pos r +ℤ pos interval = int64_exact _ (
      rw (add_back n r interval (omega arith))
        (InRange-add n interval (interval - r) u (omega arith))) in
    rw difference (rw rounded (rw base (rw sum (ground (arith, not_later n r, u.positive)))))

-- For now below 2^62 nanoseconds from 1970 and not more than 2^62 before it, an interval that is
-- positive and below 2^61 nanoseconds, and any phase, NextTick returns an instant that differs
-- from the phase by a multiple of the interval, later than now, and by at most one interval.
pub next_tick_lem :
    (n : ℤ) (interval phase : ℕ)
    → IsUsual n interval
    → (t : ℤ) × (k : ℤ) × (next_tick n (pos interval) phase ≡ some t)
      × (t ≡ pos (phase % interval) +ℤ k *ℤ pos interval)
      × (ltb_ℤ n t ≡ true)
      × (t ≤ℤ n +ℤ pos interval)
next_tick_lem n interval phase u =
    let p = phase % interval in
    let r = residue (n -ℤ pos p) interval in
    let r_small : r < interval = residue-lt (n -ℤ pos p) interval u.positive in
    let q = quotient (n -ℤ pos p) interval in
    (
      n -ℤ pos r +ℤ pos interval,
      next_of q,
      next_tick_value n interval phase u,
      on_phase n q interval p r (quotient-residue _ interval u.positive),
      later n r interval r_small,
      omega (int_laws, -ℤ_parts n (pos r), +ℤ_parts n (pos interval)),
    )

-- For a positive interval the lateness allowed is smaller than the interval and at most the
-- configured one, or 0 where that is negative.
pub effective_lateness_lem :
    (configured : ℤ) (interval : ℕ)
    → 0 < interval
    → (effective_lateness configured interval < interval)
      × (pos (effective_lateness configured interval) ≤ℤ pos (pos_part configured))
unfolding effective_lateness
effective_lateness_lem (pos n) interval h = (ground arith, ground arith)
effective_lateness_lem (negsuc n) interval h = (omega arith, omega arith)
