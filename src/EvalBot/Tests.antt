-- ===== src/EvalBot/Tests.antt =====
-- A ruling of roster/evalbot on two criteria, and a ledger of one entry.
use dacs_agent_reference.Common.{true, false, none, some, List, [], ◌∷◌, ◌≡◌, refl}
use dacs_agent_reference.EvalBot.Ruling.{
  CriterionResult, mechanical, subjective, accept, rubric_only, Rubric, UnsignedRuling,
  EvaluationRuling, Crypto, verify_ruling, is_consistent, aggregate_scores, sum_scores,
  criterion_ok, mode_of, decide_verdict, is_undecided,
}
use dacs_agent_reference.EvalBot.Ruling.Fair.{IsEarned, verify_ruling-IsEarned}
use dacs_agent_reference.EvalBot.Ledger.{
  LedgerEntry, ChainHash, append_ruling, verify_ledger, verify_from, entry_ok,
}
use dacs_agent_reference.EvalBot.Ledger.Chain.{append_ruling-verify_ledger, verify_ledger_unique}

abbrev crypto : Crypto
crypto = record { ruling_hash = λ r. "r"; verifies = λ key hash signature. true }

abbrev ruling : EvaluationRuling
ruling =
    let checked : CriterionResult = record {
      criterion_id = "a";
      kind = mechanical;
      weight = 300;
      scored = true;
      score = some 10000;
      reason = "";
    } in
    let unjudged : CriterionResult = record {
      criterion_id = "b";
      kind = subjective;
      weight = 100;
      scored = false;
      score = none;
      reason = "";
    } in
    let unsigned : UnsignedRuling = record {
      job_id = "job";
      evaluator_did = "did";
      evaluator_public_key = "key";
      verdict = accept;
      aggregate = some 10000;
      per_criterion = checked ∷ unjudged ∷ [];
      mode = rubric_only;
      issued_at = "now";
    } in
    record { unsigned = unsigned; ruling_hash = "r"; signature = "s" }

abbrev rubric : Rubric
rubric = record { accept_threshold = 7000; indeterminate_band = some 500 }

verify_ruling-IsEarned_example : IsEarned crypto ruling "key" rubric
unfolding verify_ruling is_consistent aggregate_scores sum_scores criterion_ok mode_of
    decide_verdict is_undecided
verify_ruling-IsEarned_example = verify_ruling-IsEarned crypto ruling "key" rubric refl refl

abbrev chain : ChainHash
chain = record { genesis = "g"; entry_hash = λ seq prev r. "e" }

append_ruling-verify_ledger_example :
    verify_ledger crypto chain (append_ruling chain (append_ruling chain [] ruling) ruling) ≡ true
unfolding verify_ledger verify_from entry_ok append_ruling verify_ruling is_consistent
    aggregate_scores sum_scores criterion_ok mode_of is_undecided
append_ruling-verify_ledger_example =
    append_ruling-verify_ledger crypto chain (append_ruling chain [] ruling) ruling refl refl

abbrev ledger : List LedgerEntry
ledger = record { seq = 1; prev_hash = "g"; entry_hash = "e"; ruling = ruling } ∷ []

verify_ledger_unique_example : ledger ≡ ledger
unfolding verify_ledger verify_from entry_ok verify_ruling is_consistent aggregate_scores sum_scores
    criterion_ok mode_of is_undecided
verify_ledger_unique_example =
    verify_ledger_unique crypto chain ledger ledger (((λ e. (refl, refl, refl)), tt), tt) refl refl
      refl refl
