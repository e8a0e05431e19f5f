-- ===== src/DepUpgrade/Planner/Fix.antt =====
-- The tests of roster/dep-upgrade/planner.ts that a version must pass to be proposed.
use Prim.Native.Nat.{compare, Ordering}
use mathlib.Core.Path.{Path}
use dacs_agent_reference.Common.{
  ℕ, Bool, true, false, not, List, ◌≡◌, inl, inr, refl, ap, ◌∙◌, arith, All, All-map, if◌then◌else◌,
  Option-cases, ltb,
}
use dacs_agent_reference.Common.Result.{Result, thrown, ok, bind-ok, ok_inj}
use dacs_agent_reference.DepUpgrade.Semver.{
  Text, is_greater, parse_semver, compare_semver, compare_versions, major_of,
}
use dacs_agent_reference.DepUpgrade.Semver.Ranges.{satisfies}
use dacs_agent_reference.DepUpgrade.Planner.{
  Advisory, affects, spares, clears_all, is_above, is_candidate, is_next_major,
}
use dacs_agent_reference.DepUpgrade.Planner.Chosen.{every_by-All, All-every_by}

-- No known advisory affects the version.
abbrev pub IsClear : List Advisory → Text → Type 0
IsClear known v = All (λ a. satisfies v a.vulnerable_versions ≡ ok false) known

-- It is above the current version, and clear.
abbrev pub IsFix : List Advisory → Text → Text → Type 0
IsFix known current v = (compare_versions v current ≡ ok Ordering.gt) × IsClear known v

not-true : (b : Bool) → not b ≡ true → b ≡ false
not-true true h = ground arith
not-true false h = refl

spares-clear :
    (v : Text) (a : Advisory) → spares v a ≡ ok true → satisfies v a.vulnerable_versions ≡ ok false
spares-clear v a h =
    let (b, (e, k)) = bind-ok (affects v a) _ h in e ∙ ap ok (not-true b (ok_inj k))

clears_all-IsClear :
    (known : List Advisory) (v : Text) → clears_all known v ≡ ok true → IsClear known v
unfolding clears_all
clears_all-IsClear known v h =
    All-map {P = λ a. spares v a ≡ ok true} {Q = λ a. satisfies v a.vulnerable_versions ≡ ok false}
      (spares-clear v) known (every_by-All (spares v) known h)

is_greater-gt : (o : Ordering) → is_greater o ≡ true → o ≡ Ordering.gt
is_greater-gt Ordering.lt h = ground arith
is_greater-gt Ordering.eq h = ground arith
is_greater-gt Ordering.gt h = refl

-- the guard of a test that goes on only if the first holds
guarded-true :
    (b : Bool) (r : Result Text Bool)
    → (if b then r else ok false) ≡ ok true
    → (b ≡ true) × (r ≡ ok true)
guarded-true true r h = (refl, h)
guarded-true false r h = ground arith

pub is_candidate-IsFix :
    (known : List Advisory) (current v : Text)
    → is_candidate known current v ≡ ok true
    → IsFix known current v
unfolding is_candidate
is_candidate-IsFix known current v h =
    let (above, (e, k)) = bind-ok (is_above current v) _ h in
    let (o, (f, l)) = bind-ok (compare_versions v current) _ e in
    let (up, clear) = guarded-true above (clears_all known v) k in
    (f ∙ ap ok (is_greater-gt o (ok_inj l ∙ up)), clears_all-IsClear known v clear)

compare-gt : (m n : ℕ) → ltb m n ≡ true → compare n m ≡ Ordering.gt
compare-gt m n h = ground arith

-- A greater major number makes a version greater.
major_of-above :
    (v current : Text) (m n : ℕ)
    → major_of v ≡ ok m
    → major_of current ≡ ok n
    → ltb n m ≡ true
    → compare_versions v current ≡ ok Ordering.gt
unfolding major_of compare_versions compare_semver
major_of-above v current m n e f h = elim (Option-cases (parse_semver v)) [
  | inl a ↦
      let k : Path (Result Text ℕ) (thrown v) (ok m) = rw (a, major_of) at e in
      absurd (ground arith)
  | inr (p, a) ↦ elim (Option-cases (parse_semver current)) [
    | inl b ↦
        let k : Path (Result Text ℕ) (thrown current) (ok n) = rw (b, major_of) at f in
        absurd (ground arith)
    | inr (q, b) ↦
        let i : p.major ≡ m = ok_inj (rw (a, major_of) at e) in
        let j : q.major ≡ n = ok_inj (rw (b, major_of) at f) in
        rw (a, b, compare_versions) (rw (i, j, compare_semver, compare-gt n m h) refl)
  ]
]

pub is_next_major-IsFix :
    (known : List Advisory) (current v : Text)
    → is_next_major known current v ≡ ok true
    → IsFix known current v
is_next_major-IsFix known current v h =
    let (m, (e, k)) = bind-ok (major_of v) _ h in
    let (n, (f, l)) = bind-ok (major_of current) _ k in
    let (up, clear) = guarded-true (ltb n m) (clears_all known v) l in
    (major_of-above v current m n e f up, clears_all-IsClear known v clear)

-- What is a fix passes the test.
clear-spares :
    (v : Text) (a : Advisory) → satisfies v a.vulnerable_versions ≡ ok false → spares v a ≡ ok true
clear-spares v a h = rw (spares, affects, h) refl

pub IsFix-is_candidate :
    (known : List Advisory) (current v : Text)
    → IsFix known current v
    → is_candidate known current v ≡ ok true
unfolding is_candidate clears_all
IsFix-is_candidate known current v h =
    rw (is_candidate, is_above, h.0, clears_all)
      (All-every_by (spares v) known (
        All-map {P = λ a. satisfies v a.vulnerable_versions ≡ ok false}
          {Q = λ a. spares v a ≡ ok true} (clear-spares v) known h.1))
