-- ===== src/Common/Text.antt =====
-- Texts, which the program only compares, joins and uses as keys.
use Prim.Native.String.{String}
use mathlib.Core.Path.{◌≡◌, refl}
use mathlib.Core.Logic.{◌≢◌, ◌⊎◌, inl, inr}
use mathlib.Core.Bool.{Bool, true, false}
use native.Mathlib.Omega.{arith}
use text.Mathlib.Text.{◌==◌}
use text.Mathlib.TextEquality.{eq_iff}
use dacs_agent_reference.Common.Tests.{if◌then◌else◌, Bool-cases}

abbrev pub str_eq : String → String → Bool
str_eq s t = s == t

pub str_eq_iff : (s t : String) → ((str_eq s t ≡ true) → s ≡ t) × (s ≡ t → str_eq s t ≡ true)
str_eq_iff s t = eq_iff s t

pub str_eq_refl : (s : String) → str_eq s s ≡ true
str_eq_refl s = (eq_iff s s).1 refl

-- A comparison by text, decided.
pub str-cases : (s t : String) → ((str_eq s t ≡ true) × (s ≡ t)) ⊎ ((str_eq s t ≡ false) × (s ≢ t))
str-cases s t = elim (Bool-cases (str_eq s t)) [
  | inl same ↦ inl (same, (eq_iff s t).0 same)
  | inr other ↦ inr (other, λ e. ground (arith, (eq_iff s t).1 e))
]

-- A map with text keys, as a total function; a write replaces the value of one key.
module _ {ℓ} {V : Type ℓ} where
  abbrev pub update : (String → V) → String → V → String → V
  update m k v j = if str_eq k j then v else m j
