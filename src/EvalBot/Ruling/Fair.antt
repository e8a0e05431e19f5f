-- ===== src/EvalBot/Ruling/Fair.antt =====
-- What a ruling of roster/evalbot that verifies says: its verdict follows from its scores.
use mathlib.Core.Path.{subst}
use native.Mathlib.Omega.{div_any}
use native.Mathlib.Nat.{mul-le-mul_left, mul-le-mul_right}
use dacs_agent_reference.Common.{
  ℕ, ◌+◌, ◌-◌, ◌*◌, ◌/◌, ◌≤◌, ◌<◌, String, Bool, true, false, Option, none, some, List, [], ◌∷◌,
  every, leb, ◌≡◌, refl, sym, ap, ◌∙◌, inl, inr, Bool-cases, Option-cases, str_eq, str_eq_iff,
  arith,
}
use dacs_agent_reference.EvalBot.Ruling.{
  CriterionResult, Verdict, accept, reject, indeterminate, Rubric, EvaluationRuling,
  AggregationResult, Sums, add_score, sum_scores, rounded, aggregate_scores, is_undecided,
  decide_verdict, verdict_eq, aggregate_eq, score_ok, criterion_ok, is_consistent, Crypto,
  verify_ruling,
}

add_score-bounded :
    (weight : ℕ) (scored : Bool) (score : Option ℕ) (s : Sums)
    → score_ok scored score ≡ true
    → s.weighted_sum ≤ 10000 * s.scored_weight
    → (add_score weight scored score s).weighted_sum
      ≤ 10000 * (add_score weight scored score s).scored_weight
add_score-bounded weight true (some score) s h b =
    let most : score ≤ 10000 = ground arith in
    let each = mul-le-mul_right weight most in omega (arith, each)
add_score-bounded weight true none s h b = b
add_score-bounded weight false (some score) s h b = b
add_score-bounded weight false none s h b = b

sum_scores-bounded :
    (results : List CriterionResult)
    → every criterion_ok results ≡ true
    → (sum_scores results).weighted_sum ≤ 10000 * (sum_scores results).scored_weight
unfolding sum_scores criterion_ok
sum_scores-bounded [] h = omega arith
sum_scores-bounded (r ∷ rest) h =
    add_score-bounded r.weight r.scored r.score (sum_scores rest) (ground arith)
      (sum_scores-bounded rest (ground arith))

rounded-bounded : (s w : ℕ) → 0 < w → s ≤ 10000 * w → rounded s w ≤ 10000
rounded-bounded s w p h =
    let q = (2 * s + w) / (2 * w) in
    let parts = div_any (2 * s + w) (2 * w) in
    elim (Bool-cases (leb q 10000)) [
      | inl e ↦ ground arith
      | inr e ↦
          let over : 10001 ≤ q = ground arith in
          let more = mul-le-mul_left (2 * w) over in absurd (omega (arith, parts, more, p, h))
    ]

aggregate_scores-bounded :
    (results : List CriterionResult) (a : ℕ)
    → every criterion_ok results ≡ true
    → (aggregate_scores results).aggregate ≡ some a
    → a ≤ 10000
unfolding aggregate_scores
aggregate_scores-bounded results a h e =
    let s = sum_scores results in
    let parts : (0 < s.scored_weight) × (rounded s.weighted_sum s.scored_weight ≡ a) =
      ground arith in
    rw (← parts.1)
      (rounded-bounded s.weighted_sum s.scored_weight (parts.0) (sum_scores-bounded results h))

-- What an accepting ruling rests on.
pub record IsEarned (crypto : Crypto) (r : EvaluationRuling) (key : String) (rubric : Rubric)
    : Type 0 where
  pub aggregate : ℕ
  pub stated : r.unsigned.aggregate ≡ some aggregate
  pub computed : (aggregate_scores r.unsigned.per_criterion).aggregate ≡ some aggregate
  pub reaches : rubric.accept_threshold ≤ aggregate
  pub bounded : aggregate ≤ 10000
  pub judged :
      2
        * ((aggregate_scores r.unsigned.per_criterion).total_weight
            - (aggregate_scores r.unsigned.per_criterion).scored_weight)
      ≤ (aggregate_scores r.unsigned.per_criterion).total_weight
  pub signed : crypto.verifies key (crypto.ruling_hash r.unsigned) r.signature ≡ true

accepts :
    (agg : AggregationResult) (rubric : Rubric)
    → decide_verdict agg rubric ≡ accept
    → (a : ℕ) × (agg.aggregate ≡ some a)
      × (rubric.accept_threshold ≤ a)
      × (2 * (agg.total_weight - agg.scored_weight) ≤ agg.total_weight)
unfolding decide_verdict is_undecided
accepts agg rubric h = elim (Option-cases agg.aggregate) [
  | inl e ↦ ground arith
  | inr (a, e) ↦
      let reaches : rubric.accept_threshold ≤ a = ground arith in
      let judged : 2 * (agg.total_weight - agg.scored_weight) ≤ agg.total_weight = ground arith in
      (a, e, reaches, judged)
]

verdict_eq-eq : (v w : Verdict) → verdict_eq v w ≡ true → v ≡ w
verdict_eq-eq accept accept h = refl
verdict_eq-eq accept reject h = cc
verdict_eq-eq accept indeterminate h = cc
verdict_eq-eq reject accept h = cc
verdict_eq-eq reject reject h = refl
verdict_eq-eq reject indeterminate h = cc
verdict_eq-eq indeterminate accept h = cc
verdict_eq-eq indeterminate reject h = cc
verdict_eq-eq indeterminate indeterminate h = refl

aggregate_eq-eq : (a b : Option ℕ) → aggregate_eq a b ≡ true → a ≡ b
aggregate_eq-eq none none h = refl
aggregate_eq-eq none (some b) h = cc
aggregate_eq-eq (some a) none h = cc
aggregate_eq-eq (some a) (some b) h = ap some (ground arith)

module _ (crypto : Crypto) where
  -- A ruling that verifies by a key against its rubric, and accepts, states the aggregate that its
  -- scores give, which reaches the threshold and is at most 100; at least half of the weight was
  -- scored; and the signature verifies by that key for the hash of the ruling's own body.
  pub verify_ruling-IsEarned :
      (r : EvaluationRuling) (key : String) (rubric : Rubric)
      → verify_ruling crypto r key (some rubric) ≡ true
      → r.unsigned.verdict ≡ accept
      → IsEarned crypto r key rubric
  unfolding verify_ruling is_consistent
  verify_ruling-IsEarned r key rubric h v =
      let agg = aggregate_scores r.unsigned.per_criterion in
      let facts : (str_eq r.ruling_hash (crypto.ruling_hash r.unsigned) ≡ true)
          × (crypto.verifies key r.ruling_hash r.signature ≡ true)
          × (every criterion_ok r.unsigned.per_criterion ≡ true)
          × (aggregate_eq agg.aggregate r.unsigned.aggregate ≡ true)
          × (verdict_eq r.unsigned.verdict (decide_verdict agg rubric) ≡ true) =
        ground arith in
      let decided = verdict_eq-eq _ _ (facts.4) in
      let earned = accepts agg rubric (sym decided ∙ v) in
      let own = (str_eq_iff r.ruling_hash _).0 (facts.0) in
      record {
        aggregate = earned.0;
        stated = sym (aggregate_eq-eq _ _ (facts.3)) ∙ earned.1;
        computed = earned.1;
        reaches = earned.2;
        bounded = aggregate_scores-bounded _ (earned.0) (facts.2) (earned.1);
        judged = earned.3;
        signed = subst (λ k. crypto.verifies key k r.signature ≡ true) own (facts.1);
      }
