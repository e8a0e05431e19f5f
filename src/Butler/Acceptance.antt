-- ===== src/Butler/Acceptance.antt =====
-- `acceptDeliverable` of roster/procurement-butler/butler.ts. The words of a reason are left out; the
-- check that failed is named.
use dacs_agent_reference.Common.{
  ℕ, ◌+◌, String, Bool, true, false, not, List, [], ◌∷◌, ◌≡◌, ◌≢◌, inl, inr, refl, arith, All, Some,
  Bool-cases, every, if◌then◌else◌, str_eq, ltb, length,
}
use dacs_agent_reference.Butler.Types.{
  AcceptanceCheck, AcceptanceResult, accepted, rejected, needs_evaluator, ProcurementAgreement,
}

-- A delivered text: the hash, the search and the length are the language's.
pub record Content : Type 0 where
  pub sha256_hex : String
  pub includes : String → Bool
  pub size : ℕ

abbrev pub passes : Content → AcceptanceCheck → Bool
passes content (AcceptanceCheck.sha256 expected) = str_eq content.sha256_hex expected
passes content (AcceptanceCheck.content_includes needle) = content.includes needle
passes content (AcceptanceCheck.min_length chars) = not (ltb content.size chars)

-- the loop, `run` the number of checks before
unfoldable pub run_checks : Content → ℕ → List AcceptanceCheck → AcceptanceResult
run_checks content run [] = accepted run
run_checks content run (check ∷ checks) =
    let rest = run_checks content (run + 1) checks in
    if passes content check then rest else rejected check (run + 1)

unfoldable pub accept_checks : Content → List AcceptanceCheck → AcceptanceResult
accept_checks content [] = needs_evaluator
accept_checks content (check ∷ checks) = run_checks content 0 (check ∷ checks)

abbrev pub accept_deliverable : Content → ProcurementAgreement → AcceptanceResult
accept_deliverable content agreement = accept_checks content agreement.acceptance

-- What a verdict says of the declared checks.
abbrev pub Verdict : Content → List AcceptanceCheck → AcceptanceResult → Type 0
Verdict content checks (accepted run) =
    (checks ≢ []) × (run ≡ length checks) × All (λ c. passes content c ≡ true) checks
Verdict content checks (rejected check run) =
    (passes content check ≡ false)
    × Some (λ c. c ≡ check) checks
    × (every (passes content) checks ≡ false)
Verdict content checks needs_evaluator = checks ≡ []

-- What the loop's answer says.
abbrev Answers : Content → ℕ → List AcceptanceCheck → AcceptanceResult → Type 0
Answers content run checks (accepted n) =
    (n ≡ run + length checks) × All (λ c. passes content c ≡ true) checks
Answers content run checks (rejected check n) =
    (passes content check ≡ false)
    × Some (λ c. c ≡ check) checks
    × (every (passes content) checks ≡ false)
Answers content run checks needs_evaluator = ⊥

Answers-cons :
    (content : Content) (run : ℕ) (check : AcceptanceCheck) (checks : List AcceptanceCheck)
    (r : AcceptanceResult)
    → passes content check ≡ true
    → Answers content (run + 1) checks r
    → Answers content run (check ∷ checks) r
Answers-cons content run check checks (accepted n) t a = (omega arith, (t, a.1))
Answers-cons content run check checks (rejected c n) t a = (a.0, inr a.1, rw t a.2)
Answers-cons content run check checks needs_evaluator t a = absurd a

run_checks-Answers :
    (content : Content) (run : ℕ) (checks : List AcceptanceCheck)
    → Answers content run checks (run_checks content run checks)
unfolding run_checks
run_checks-Answers content run [] = (omega arith, tt)
run_checks-Answers content run (check ∷ checks) = elim (Bool-cases (passes content check)) [
  | inl t ↦
      rw (t, run_checks)
        (Answers-cons content run check checks _ t (run_checks-Answers content (run + 1) checks))
  | inr f ↦ rw (f, run_checks) (f, inl refl, rw f refl)
]

-- A deliverable is accepted just if its listing declares checks and all pass, every one of them
-- having been run; it is rejected for a declared check that fails; and it is left to an evaluator
-- just if no checks are declared.
pub accept_deliverable-Verdict :
    (content : Content) (agreement : ProcurementAgreement)
    → Verdict content agreement.acceptance (accept_deliverable content agreement)
unfolding accept_checks
accept_deliverable-Verdict content agreement = of_checks agreement.acceptance
  where
    of_answer :
        (check : AcceptanceCheck) (checks : List AcceptanceCheck) (r : AcceptanceResult)
        → Answers content 0 (check ∷ checks) r
        → Verdict content (check ∷ checks) r
    of_answer check checks (accepted n) a = ((λ e. cc), omega arith, a.1)
    of_answer check checks (rejected c n) a = a
    of_answer check checks needs_evaluator a = absurd a

    of_checks :
        (checks : List AcceptanceCheck) → Verdict content checks (accept_checks content checks)
    of_checks [] = refl
    of_checks (check ∷ checks) =
        of_answer check checks _ (run_checks-Answers content 0 (check ∷ checks))
