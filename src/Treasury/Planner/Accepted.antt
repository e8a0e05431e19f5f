-- ===== src/Treasury/Planner/Accepted.antt =====
-- The planner and the gate of roster/treasury-ops agree: what `plan` proposes, `approve` accepts.
use mathlib.Core.Path.{subst}
use dacs_agent_reference.Common.{
  String, none, some, [], ◌≡◌, refl, arith, All, All-map, str_eq_iff, sym,
}
use dacs_agent_reference.Common.Int.{ℤ, pos, ◌≤ℤ◌, ◌<ℤ◌}
use dacs_agent_reference.Common.Result.{ok}
use dacs_agent_reference.Treasury.Types.{
  TreasuryPolicy, BalanceSnapshot, ExecutionPlan, ApprovalToken, approved, Crypto, Signer,
}
use dacs_agent_reference.Treasury.Approval.{
  GateState, check_intents, load_balances, violations, approve, compute_plan_hash,
}
use dacs_agent_reference.Treasury.Approval.Floors.{snapshot, load_balances-agrees}
use dacs_agent_reference.Treasury.Planner.{
  pay_all, plan_start, plan_states, plan, validate_policy, check_snapshots,
}
use dacs_agent_reference.Treasury.Planner.Validity.{
  validate_policy-Distinct, check_snapshots-load_balances,
}
use dacs_agent_reference.Treasury.Planner.Covers.{DistinctPlaces}
use dacs_agent_reference.Treasury.Approval.{token_for}
use dacs_agent_reference.Treasury.Planner.{plan_of}
use dacs_agent_reference.Treasury.Planner.Matches.{Matches}
use dacs_agent_reference.Treasury.Planner.Steps.{Allowed, pay_all-Matches, rebalance_from-Matches}

violations-none :
    (c : Crypto) (policy : TreasuryPolicy) (p : ExecutionPlan)
    → let w = (load_balances p.body.balances policy.accounts (λ id. none)).1 in
      let start : GateState = record { working = w; run_total = pos 0 } in
      let r = check_intents c policy p.body.run_id 0 p.body.intents start in
      p.body.policy_id ≡ policy.policy_id
      → p.plan_hash ≡ compute_plan_hash c p.body
      → (load_balances p.body.balances policy.accounts (λ id. none)).0 ≡ []
      → r.0 ≡ []
      → r.1.run_total ≤ℤ policy.per_run_cap
      → violations c policy p ≡ []
unfolding violations
violations-none c policy p id hash loaded found total = ground (
  arith,
  (str_eq_iff p.body.policy_id policy.policy_id).1 id,
  (str_eq_iff p.plan_hash (compute_plan_hash c p.body)).1 hash,
)

approve_none :
    (c : Crypto) (policy : TreasuryPolicy) (p : ExecutionPlan) (signer : Signer) (now : String)
    → violations c policy p ≡ []
    → (t : ApprovalToken) × (approve c policy p signer now ≡ approved t)
unfolding approve
approve_none c policy p signer now e = (token_for c policy p signer now, rw (e, approve) refl)

start-Matches :
    (c : Crypto) (policy : TreasuryPolicy) (run_id : String) (balances : BalanceSnapshot)
    → validate_policy policy ≡ ok tt
    → (load_balances balances policy.accounts (λ id. none)).0 ≡ []
    → Matches c policy run_id
        (record {
          working = (load_balances balances policy.accounts (λ id. none)).1;
          run_total = pos 0;
        })
        (plan_start balances)
unfolding validate_policy check_intents
start-Matches c policy run_id balances valid loaded =
    let agree = load_balances-agrees balances policy.accounts (λ id. none) loaded in
    record {
      clean = refl;
      total = refl;
      covers =
          All-map
            {P = λ a.
              (load_balances balances policy.accounts (λ id. none)).1 a.id
              ≡ some (snapshot balances a.id)}
            (λ a e. rw e (omega arith)) policy.accounts agree;
      capped = ground arith;
    }

-- If the planner returns a plan for a policy whose accounts have distinct places and whose payroll
-- pays only allowlist entries, with a positive least move, then the gate approves that plan.
pub plan-approved :
    (c : Crypto) (policy : TreasuryPolicy) (run_id : String) (min_move : ℤ)
    (balances : BalanceSnapshot) (p : ExecutionPlan) (signer : Signer) (now : String)
    → DistinctPlaces policy.accounts
    → All (Allowed policy) policy.payroll
    → pos 0 <ℤ min_move
    → plan c policy run_id min_move balances ≡ ok p
    → (t : ApprovalToken) × (approve c policy p signer now ≡ approved t)
unfolding plan plan_of plan_states
plan-approved c policy run_id min_move balances p signer now places allowed positive e =
    let valid : validate_policy policy ≡ ok tt = ground arith in
    let present : check_snapshots balances policy.accounts ≡ ok tt = ground arith in
    let end = plan_states c policy run_id min_move balances in
    let same : plan_of c policy run_id balances end ≡ p = ground arith in
    let distinct = validate_policy-Distinct policy valid in
    let loaded = check_snapshots-load_balances balances policy.accounts (λ id. none) present in
    let s0 : GateState = record {
      working = (load_balances balances policy.accounts (λ id. none)).1;
      run_total = pos 0;
    } in
    let start = start-Matches c policy run_id balances valid loaded in
    let paid =
      pay_all-Matches c policy run_id s0 distinct policy.payroll (plan_start balances) allowed
        start in
    let done =
      rebalance_from-Matches c policy run_id s0 distinct places min_move _ positive 100
        (pay_all c policy run_id policy.payroll (plan_start balances)) paid in
    subst (λ q. (t : ApprovalToken) × (approve c policy q signer now ≡ approved t)) same
      (approve_none c policy (plan_of c policy run_id balances end) signer now (
        violations-none c policy (plan_of c policy run_id balances end) refl refl loaded done.clean
          (subst (λ r. r ≤ℤ policy.per_run_cap) (sym done.total) done.capped)))
