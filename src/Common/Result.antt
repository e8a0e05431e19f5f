-- ===== src/Common/Result.antt =====
-- What a call of the source ends in: an error that it throws, or a value that it returns. `do` blocks
-- chain such calls, as statements follow each other.
use dacs_agent_reference.Common.Tests.{if◌then◌else◌}
use mathlib.Core.Bool.{Bool}
use mathlib.Core.Path.{◌≡◌, Path, refl}
use mathlib.Core.Logic.{◌⊎◌, inl, inr}
use native.Mathlib.Omega.{arith}

pub data Result (Thrown Value : Type 0) : Type 0 where
  thrown : Thrown → Result Thrown Value
  ok : Value → Result Thrown Value

infixl 5 ◌>>◌ ◌>>=◌
-- the statement that comes after one whose value is not used
abbrev pub ◌>>◌ :
    {Thrown Value : Type 0} → Result Thrown (Unit {0}) → Result Thrown Value → Result Thrown Value
thrown error >> next = thrown error
ok _ >> next = next

abbrev pub ◌>>=◌ :
    {Thrown Value Next : Type 0}
    → Result Thrown Value
    → (Value → Result Thrown Next)
    → Result Thrown Next
thrown error >>= next = thrown error
ok value >>= next = next value

-- `if (bad) throw error`
abbrev pub throw_if : {Thrown : Type 0} → Bool → Thrown → Result Thrown (Unit {0})
throw_if bad error = if bad then thrown error else ok tt

pub Result-cases :
    {Thrown Value : Type 0} (r : Result Thrown Value)
    → ((e : Thrown) × (r ≡ thrown e)) ⊎ ((v : Value) × (r ≡ ok v))
Result-cases (thrown e) = inl (e, refl)
Result-cases (ok v) = inr (v, refl)

pub ok_inj :
    {Thrown Value : Type 0} {v w : Value} → Path (Result Thrown Value) (ok v) (ok w) → v ≡ w
ok_inj h = ground arith

pub bind-ok :
    {Thrown Value Next : Type 0} (r : Result Thrown Value) (f : Value → Result Thrown Next)
    {n : Next}
    → (r >>= f) ≡ ok n
    → (v : Value) × ((r ≡ ok v) × (f v ≡ ok n))
bind-ok (thrown e) f h = absurd (ground arith)
bind-ok (ok v) f h = (v, (refl, h))
