-- ===== src/Butler/Money.antt =====
-- The numbers of roster/procurement-butler: fractions that are exact, in place of the floats, and
-- sums in cents.
use mathlib.Core.Path.{subst}
use native.Mathlib.Nat.{div-lt_iff_lt-mul}
use dacs_agent_reference.Common.{
  ℕ, ◌+◌, ◌-◌, ◌*◌, ◌/◌, ◌≤◌, ◌<◌, Bool, ltb, if◌then◌else◌, ◌≡◌, arith, Bool-cases, inl, inr,
}

pub record Ratio : Type 0 where
  pub num : ℕ
  pub den : ℕ

-- A share of a whole, 0 to 1: `part` of `part + rest`.
pub record Share : Type 0 where
  pub part : ℕ
  pub rest : ℕ

-- `Math.round(num / den)`
abbrev pub round : Ratio → ℕ
round r = (2 * r.num + r.den) / (2 * r.den)

-- `roundCents`, of an amount in cents
abbrev pub round_cents : Ratio → ℕ
round_cents r = round r

abbrev pub whole : ℕ → Ratio
whole n = record { num = n; den = 1 }

abbrev pub times : Ratio → Ratio → Ratio
times a b = record { num = a.num * b.num; den = a.den * b.den }

abbrev pub plus : Ratio → Ratio → Ratio
plus a b = record { num = a.num * b.den + b.num * a.den; den = a.den * b.den }

abbrev pub is_below : Ratio → Ratio → Bool
is_below a b = ltb (a.num * b.den) (b.num * a.den)

abbrev pub larger : Ratio → Ratio → Ratio
larger a b = if is_below a b then b else a

abbrev pub smaller : Ratio → Ratio → Ratio
smaller a b = if is_below b a then b else a

-- the upper bound of `clamp01`; nothing here is below 0
abbrev pub at_most_one : Ratio → Ratio
at_most_one r = smaller r (whole 1)

-- `1 - share`
abbrev pub complement : Share → Ratio
complement s = record { num = s.rest; den = s.part + s.rest }

abbrev pub share : Share → Ratio
share s = record { num = s.part; den = s.part + s.rest }

-- `Math.round(x * 1000) / 1000`, in thousandths
abbrev pub thousandths : Ratio → ℕ
thousandths r = round (record { num = 1000 * r.num; den = r.den })

-- `roundCents(willingness + (reservation - willingness) * rate)`, with no willingness above the
-- reservation
unfoldable pub concede : Share → ℕ → ℕ → ℕ
concede rate reservation willingness = round_cents (record {
  num = willingness * (rate.part + rate.rest) + (reservation - willingness) * rate.part;
  den = rate.part + rate.rest;
})

-- An amount that is at most a whole number of cents is not rounded above it.
pub round-le : (r : Ratio) (n : ℕ) → 0 < r.den → r.num ≤ n * r.den → round r ≤ n
round-le r n d h = below_next ((div-lt_iff_lt-mul (omega arith)).1 (omega arith))
  where
    below_next : {m : ℕ} → m < n + 1 → m ≤ n
    below_next k = omega arith

part_le : (w g p q : ℕ) → w * (p + q) + g * p ≤ (w + g) * (p + q)
part_le w g p q = omega arith

-- The next position is not above the reservation.
pub concede-le :
    (rate : Share) (reservation willingness : ℕ)
    → 0 < rate.part + rate.rest
    → willingness ≤ reservation
    → concede rate reservation willingness ≤ reservation
unfolding concede
concede-le rate reservation willingness d h =
    let gap = reservation - willingness in
    let whole_gap : willingness + gap ≡ reservation = omega arith in
    round-le _ reservation d (
      subst
        (λ n. willingness * (rate.part + rate.rest) + gap * rate.part ≤ n * (rate.part + rate.rest))
        whole_gap (part_le willingness gap rate.part rate.rest))

-- A reservation, or what is below it.
pub smaller-le : (n : ℕ) (r : Ratio) → 0 < r.den → round (smaller (whole n) r) ≤ n
smaller-le n r d = elim (Bool-cases (is_below r (whole n))) [
  | inl t ↦ rw t (round-le r n d (ground arith))
  | inr f ↦ rw f (round-le (whole n) n (omega arith) (omega arith))
]
