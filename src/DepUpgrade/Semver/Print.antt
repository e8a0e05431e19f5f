-- ===== src/DepUpgrade/Semver/Print.antt =====
-- The text that `mk` of roster/dep-upgrade/semver.ts gives a version, which is read back.
use mathlib.Core.Path.{subst}
use mathlib.Core.List.{append-nil}
use dacs_agent_reference.Common.{
  ℕ, zero, suc, ◌+◌, ◌/◌, ◌%◌, ◌<◌, ◌≤◌, Bool, true, false, some, [], ◌∷◌, ◌++◌, ◌≡◌, refl, arith,
  leb, if◌then◌else◌, is_empty, All, All-map, All-append, ◌≢◌, Bool-cases, inl, inr, ap, ◌∙◌,
}
use dacs_agent_reference.DepUpgrade.Semver.{
  Text, is_space, is_digit, trim, span, number, number_from, skip, drop_spaces, trim_end, digits,
  dot_digits, suffix, full_version, parse_semver,
}

-- A decimal numeral: the digits of `n`, its last one in front of `out`, on a measure above `n`.
unfoldable pub decimal_from : ℕ → ℕ → Text → Text
decimal_from zero n out = out
decimal_from (suc fuel) n out =
    let rest = decimal_from fuel (n / 10) ((b'0' + n % 10) ∷ out) in
    if leb n 9 then (b'0' + n) ∷ out else rest

-- how a template literal shows a number
unfoldable pub decimal : ℕ → Text
decimal n = decimal_from (suc n) n []

abbrev pub version_text : ℕ → ℕ → ℕ → Text
version_text major minor patch = decimal major ++ (b'.' ∷ (decimal minor ++ (b'.' ∷ decimal patch)))

abbrev IsDigit : ℕ → Type 0
IsDigit c = (b'0' ≤ c) × (c ≤ b'9')

number-decimal_from :
    (fuel n : ℕ) (out : Text)
    → n < fuel
    → number_from 0 (decimal_from fuel n out) ≡ number_from n out
unfolding decimal_from
number-decimal_from zero n out h = absurd (omega arith)
number-decimal_from (suc fuel) n out h = elim (Bool-cases (leb n 9)) [
  | inl t ↦ rw t (ap (λ m. number_from m out) (omega arith))
  | inr f ↦
      let read : number_from (n / 10) ((b'0' + n % 10) ∷ out) ≡ number_from n out =
        ap (λ m. number_from m out) (omega arith) in
      rw f (number-decimal_from fuel (n / 10) ((b'0' + n % 10) ∷ out) (ground arith) ∙ read)
]

decimal_from-All :
    (fuel n : ℕ) (out : Text) → All IsDigit out → All IsDigit (decimal_from fuel n out)
unfolding decimal_from
decimal_from-All zero n out h = h
decimal_from-All (suc fuel) n out h =
    ground (arith, decimal_from-All fuel (n / 10) ((b'0' + n % 10) ∷ out))

decimal_from-nonempty : (fuel n c : ℕ) (out : Text) → decimal_from fuel n (c ∷ out) ≢ []
unfolding decimal_from
decimal_from-nonempty zero n c out h = cc
decimal_from-nonempty (suc fuel) n c out h =
    ground (arith, decimal_from-nonempty fuel (n / 10) (b'0' + n % 10) (c ∷ out))

-- What follows a run is not in its class.
abbrev pub Stops : (ℕ → Bool) → Text → Type 0
Stops p [] = Unit
Stops p (c ∷ s) = p c ≡ false

pub span-append :
    (ds rest : Text)
    → All IsDigit ds
    → Stops is_digit rest
    → span is_digit (ds ++ rest) ≡ (ds, rest)
span-append [] [] h k = refl
span-append [] (c ∷ s) h k = rw k refl
span-append (d ∷ ds) rest h k =
    let digit : is_digit d ≡ true = ground (arith, h.0) in
    rw (digit, span-append ds rest h.1 k) refl

decimal-All : (n : ℕ) → All IsDigit (decimal n)
unfolding decimal
decimal-All n = decimal_from-All (suc n) n [] tt

decimal-nonempty : (n : ℕ) → is_empty (decimal n) ≡ false
unfolding decimal decimal_from
decimal-nonempty n = elim (Bool-cases (leb n 9)) [
  | inl t ↦ rw t refl
  | inr f ↦ rw f (nonempty _ (decimal_from-nonempty n (n / 10) (b'0' + n % 10) []))
]
  where
    nonempty : (s : Text) → s ≢ [] → is_empty s ≡ false
    nonempty [] h = absurd (h refl)
    nonempty (c ∷ s) h = refl

number-decimal : (n : ℕ) → number (decimal n) ≡ n
unfolding decimal
number-decimal n = number-decimal_from (suc n) n [] (omega arith)

-- A numeral in front of anything that is no digit is read back.
pub digits-decimal :
    (n : ℕ) (rest : Text) → Stops is_digit rest → digits (decimal n ++ rest) ≡ some (n, rest)
unfolding digits
digits-decimal n rest k =
    rw (span-append (decimal n) rest (decimal-All n) k, decimal-nonempty n, number-decimal n) refl

digits-decimal_end : (n : ℕ) → digits (decimal n) ≡ some (n, [])
digits-decimal_end n =
    subst (λ s. digits s ≡ some (n, [])) (append-nil (decimal n)) (digits-decimal n [] tt)

-- Trimming leaves alone what has no space.
abbrev NoSpace : Text → Type 0
NoSpace s = All (λ c. is_space c ≡ false) s

trim_end-NoSpace : (s : Text) → NoSpace s → trim_end s ≡ s
trim_end-NoSpace [] h = refl
trim_end-NoSpace (c ∷ s) h = rw (h.0, trim_end-NoSpace s h.1) refl

drop_spaces-NoSpace : (s : Text) → NoSpace s → drop_spaces s ≡ s
drop_spaces-NoSpace [] h = refl
drop_spaces-NoSpace (c ∷ s) h = rw h.0 refl

trim-NoSpace : (s : Text) → NoSpace s → trim s ≡ s
trim-NoSpace s h = rw (drop_spaces-NoSpace s h, trim_end-NoSpace s h) refl

IsDigit-NoSpace : (c : ℕ) → IsDigit c → is_space c ≡ false
IsDigit-NoSpace c h = ground (arith, h)

decimal-NoSpace : (n : ℕ) → NoSpace (decimal n)
decimal-NoSpace n = All-map {P = IsDigit} IsDigit-NoSpace (decimal n) (decimal-All n)

version_text-NoSpace : (a b c : ℕ) → NoSpace (version_text a b c)
version_text-NoSpace a b c =
    All-append _ (decimal a) _ (decimal-NoSpace a)
      (refl, All-append _ (decimal b) _ (decimal-NoSpace b) (refl, decimal-NoSpace c))

-- Nothing is skipped in front of a numeral.
skip-decimal : (d n : ℕ) (rest : Text) → 58 ≤ d → skip d (decimal n ++ rest) ≡ decimal n ++ rest
skip-decimal d n rest h = starts (decimal n) (decimal-All n) (decimal-nonempty n)
  where
    starts : (s : Text) → All IsDigit s → is_empty s ≡ false → skip d (s ++ rest) ≡ s ++ rest
    starts [] a e = cc
    starts (c ∷ s) a e = ground (arith, a.0)

full_version-version_text :
    (a b c : ℕ)
    → full_version (version_text a b c)
      ≡ some (record { major = a; minor = b; patch = c; prerelease = []; raw = version_text a b c })
unfolding full_version dot_digits suffix
full_version-version_text a b c =
    let after_minor : Text = b'.' ∷ decimal c in
    let after_major : Text = b'.' ∷ (decimal b ++ after_minor) in
    let spaceless : drop_spaces (decimal a ++ after_major) ≡ decimal a ++ after_major =
      drop_spaces-NoSpace (version_text a b c) (version_text-NoSpace a b c) in
    rw
      (
        full_version,
        skip-decimal b'v' a after_major (omega arith),
        skip-decimal b'=' a after_major (omega arith),
        spaceless,
        digits-decimal a after_major refl,
        digits-decimal b after_minor refl,
        digits-decimal_end c,
      )
      refl

-- Three numbers joined by dots are read as the version with these numbers.
pub parse_semver-version_text :
    (a b c : ℕ)
    → parse_semver (version_text a b c)
      ≡ some (record { major = a; minor = b; patch = c; prerelease = []; raw = version_text a b c })
unfolding parse_semver
parse_semver-version_text a b c =
    rw (trim-NoSpace (version_text a b c) (version_text-NoSpace a b c))
      (full_version-version_text a b c)
