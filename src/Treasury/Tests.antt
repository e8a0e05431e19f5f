-- ===== src/Treasury/Tests.antt =====
-- Runs of roster/treasury-ops on a small treasury: two accounts on two chains and one payroll entry.
use dacs_agent_reference.Common.{
  ℕ, ◌+◌, String, Bool, true, false, none, some, [], ◌∷◌, ◌≡◌, ◌≢◌, ◌⊎◌, refl, inl, if◌then◌else◌,
  str_eq, str_eq_iff, arith,
}
use dacs_agent_reference.Common.Int.{pos, ◌≤ℤ◌, ◌+ℤ◌, ◌-ℤ◌}
use dacs_agent_reference.Common.Result.{ok}
use dacs_agent_reference.Treasury.Types.{
  TreasuryAccount, PayrollEntry, TreasuryPolicy, payroll, TransferIntent, PlanBody, ExecutionPlan,
  BalanceSnapshot, ApprovalToken, approved, Crypto, Signer,
}
use dacs_agent_reference.Treasury.Approval.{
  compute_plan_hash, compute_intent_id, balance_of, approve, token_for, violations, check_intents,
  check_intent, simulate, credit, source_of, recipient_ok, by_id, load_balances, note_balance,
}
use dacs_agent_reference.Treasury.Approval.Accounts.{Distinct}
use dacs_agent_reference.Treasury.Approval.Sound.{IsSound, approve-IsSound}
use dacs_agent_reference.Treasury.Approval.Floors.{
  AboveFloors, StaysAbove, snapshot, approve-StaysAbove,
}
use dacs_agent_reference.Treasury.Planner.{
  plan, plan_of, plan_states, validate_policy, validate_accounts, check_snapshots,
}
use dacs_agent_reference.Treasury.Planner.Covers.{DistinctPlaces}
use dacs_agent_reference.Treasury.Planner.Accepted.{plan-approved}
use dacs_agent_reference.Treasury.Executor.{
  ChainPorts, done, failed, IntentRecord, World, execute, run_intent, failed_record, done_record,
  Refusal, refused, run_intents, send, finish, attempt_record,
}
use dacs_agent_reference.Treasury.Executor.Gatekeeping.{IsAdmitted, execute-cases, execute-approved}
use dacs_agent_reference.Treasury.Executor.Resume.{AllOk, execute-execute}
use dacs_agent_reference.Treasury.Executor.{ExecutionResult, Outcome, executed, aborted}
use dacs_agent_reference.Treasury.Proof.{
  ProofBody, ProofOfExecution, RunTimes, TrustedKeys, build_proof, verify_proof,
}
use dacs_agent_reference.Treasury.Proof.Genuine.{IsGenuine, verify_proof-IsGenuine}
use dacs_agent_reference.Treasury.Proof.Receipt.{execute-verify_proof}
use dacs_agent_reference.Treasury.MockChain.{
  MockChain, FailureMode, ports_for, transfer, inject, move, lookup, insert, key, get_balance,
}
use dacs_agent_reference.Treasury.MockChain.Conservation.{
  holdings, IsSolvent, transfer-holdings, execute-IsSolvent,
}

abbrev crypto : Crypto
crypto = record {
  sha256_hex = λ s. s;
  canonical_body = λ b. b.run_id;
  show_number = λ n. "n";
  verify_hash_signature = λ hash signature key. true;
}

abbrev signer : Signer
signer = record { public_key = "key"; sign_hash = λ hash. hash }

abbrev operations : TreasuryAccount
operations = record {
  id = "ops";
  chain = "base";
  address = "0xops";
  label = "Operations";
  min_balance = pos 100;
  target_pct = pos 50;
}

abbrev reserve : TreasuryAccount
reserve = record {
  id = "reserve";
  chain = "demos";
  address = "0xres";
  label = "Reserve";
  min_balance = pos 200;
  target_pct = pos 50;
}

abbrev salary : PayrollEntry
salary = record {
  recipient = "0xbob";
  chain = "base";
  amount = pos 50;
  label = "Bob";
  period = "2026-01";
}

abbrev policy : TreasuryPolicy
policy = record {
  policy_id = "p1";
  accounts = operations ∷ reserve ∷ [];
  allowlist = record { address = "0xbob"; chain = "base"; label = "Bob" } ∷ [];
  payroll = salary ∷ [];
  per_tx_cap = pos 500;
  per_run_cap = pos 1000;
  fee_buffer_per_tx = pos 1;
}

abbrev balances : BalanceSnapshot
balances = ("ops", pos 400) ∷ ("reserve", pos 1000) ∷ []

abbrev payment : TransferIntent
payment = record {
  intent_id = "run-1|n|payroll|0xbob|base|n";
  kind = payroll;
  from = record { account_id = "ops"; chain = "base"; address = "0xops" };
  to = record { address = "0xbob"; chain = "base"; label = "Bob" };
  amount = pos 50;
}

abbrev planned : ExecutionPlan
planned =
    plan_of crypto policy "run-1" balances (plan_states crypto policy "run-1" (pos 1) balances)

planned_lem : plan crypto policy "run-1" (pos 1) balances ≡ ok planned
unfolding plan validate_policy validate_accounts check_snapshots balance_of ◌+ℤ◌
planned_lem = refl

abbrev the_plan : ExecutionPlan
the_plan =
    let body : PlanBody = record {
      run_id = "run-1";
      policy_id = "p1";
      balances = balances;
      intents = payment ∷ [];
      shortfalls = [];
    } in
    record { body = body; plan_hash = "run-1" }

text_ne : (s t : String) → str_eq s t ≡ false → s ≢ t
text_ne s t h e = ground (arith, (str_eq_iff s t).1 e)

distinct_places : DistinctPlaces policy.accounts
distinct_places = (((λ same. text_ne "0xres" "0xops" refl same.0), tt), (tt, tt))

Distinct-ids : Distinct policy.accounts
Distinct-ids = ((text_ne "reserve" "ops" refl, tt), (tt, tt))

plan-approved_example :
    (t : ApprovalToken) × (approve crypto policy planned signer "now" ≡ approved t)
plan-approved_example =
    plan-approved crypto policy "run-1" (pos 1) balances planned signer "now" distinct_places
      (inl (refl, refl), tt) (omega arith) planned_lem

abbrev the_token : ApprovalToken
the_token = token_for crypto policy the_plan signer "now"

the_token_lem : approve crypto policy the_plan signer "now" ≡ approved the_token
unfolding approve violations check_intents check_intent simulate credit source_of recipient_ok by_id
    load_balances note_balance balance_of compute_plan_hash compute_intent_id ◌+ℤ◌ ◌-ℤ◌
the_token_lem = refl

approve-IsSound_example : IsSound crypto policy the_plan
approve-IsSound_example =
    approve-IsSound crypto policy the_plan signer "now" the_token the_token_lem

above_floors : AboveFloors policy (snapshot the_plan.body.balances)
unfolding balance_of
above_floors = (omega arith, (omega arith, tt))

approve-StaysAbove_example :
    StaysAbove policy (snapshot the_plan.body.balances) the_plan.body.intents
approve-StaysAbove_example =
    approve-StaysAbove crypto policy the_plan signer "now" the_token Distinct-ids above_floors
      the_token_lem

abbrev chain : MockChain
chain = record {
  balances = ("base:0xops", pos 400) ∷ ("demos:0xres", pos 1000) ∷ [];
  failures = ("other", record { times = 1; mode = FailureMode.crash }) ∷ [];
  fee_per_transfer = pos 1;
  fees_collected = pos 0;
}

abbrev world : World MockChain
world = record { chain = chain; journal = [] }

abbrev ports : ChainPorts MockChain
ports = ports_for (λ x. x.intent_id) ("base" ∷ "demos" ∷ [])

execute-cases_example :
    ((e : Refusal) × (execute ports crypto the_plan the_token none world ≡ (refused e, world)))
    ⊎ (IsAdmitted crypto the_plan the_token none
        × (execute ports crypto the_plan the_token none world
            ≡ run_intents ports [] the_plan.plan_hash the_plan.body.intents world))
execute-cases_example = execute-cases ports crypto the_plan the_token none world

solvent : IsSolvent chain
solvent = (omega arith, (omega arith, tt))

execute-approved_example :
    pos 0 ≤ℤ (execute ports crypto the_plan the_token none world).1.chain.fee_per_transfer
execute-approved_example =
    execute-approved ports (λ m. pos 0 ≤ℤ m.fee_per_transfer) crypto policy the_plan the_plan signer
      "now" the_token none world the_token_lem (λ e. refl)
      (λ x good w k. rw ((transfer-holdings (λ y. y.intent_id) w x).1) k) (omega arith)

transfer-holdings_example :
    (holdings (transfer (λ y. y.intent_id) chain payment).0 ≡ holdings chain)
    × ((transfer (λ y. y.intent_id) chain payment).0.fee_per_transfer ≡ chain.fee_per_transfer)
transfer-holdings_example = transfer-holdings (λ y. y.intent_id) chain payment

execute-IsSolvent_example :
    let m = (execute ports crypto the_plan the_token none world).1.chain in
    IsSolvent m × (holdings m ≡ holdings chain)
execute-IsSolvent_example =
    execute-IsSolvent (λ x. x.intent_id) ("base" ∷ "demos" ∷ []) crypto policy the_plan the_plan
      signer "now" the_token none world the_token_lem (λ e. refl) solvent

all_ok : AllOk ports (execute ports crypto the_plan the_token none world).0
unfolding execute run_intents run_intent send finish attempt_record done_record compute_plan_hash
    transfer inject move lookup insert key get_balance ◌+ℤ◌ ◌-ℤ◌
all_ok = (refl, tt)

execute-execute_example :
    (execute ports crypto the_plan the_token none
      (execute ports crypto the_plan the_token none world).1).1
    ≡ (execute ports crypto the_plan the_token none world).1
execute-execute_example = execute-execute ports crypto the_plan the_token none world all_ok

-- Ports that count the transfers of a chain, which cannot be read right after one.
abbrev unread_ports : ChainPorts (ℕ × Bool)
unread_ports = record {
  registered = λ c. true;
  get_balance = λ w c a. if w.1 then done (pos 400) else failed;
  transfer = λ w x. ((w.0 + 1, false), done "tx");
}

abbrev unread_record : IntentRecord
unread_record = failed_record payment (record { from = pos 400; to = pos 400 })

unread_transfer :
    run_intent unread_ports payment (record { chain = (0, true); journal = [] })
    ≡ (some unread_record, record { chain = (1, false); journal = unread_record ∷ [] })
unfolding run_intent send finish attempt_record done_record
unread_transfer = refl

-- Once the chain can be read again, a second run with that journal transfers again.
resumed_transfer :
    (run_intent unread_ports payment
      (record { chain = (1, true); journal = unread_record ∷ [] })).1.chain
    ≡ (2, false)
unfolding run_intent send finish attempt_record done_record
resumed_transfer = refl

abbrev proof_hash : ProofBody → String
proof_hash body = body.plan_hash

abbrev times : RunTimes
times = record { run_id = "run"; started_at = "start"; finished_at = "end" }

abbrev no_keys : TrustedKeys
no_keys = record { approver_public_key = none; executor_public_key = none }

abbrev run_result : ExecutionResult
run_result = result_of (execute ports crypto the_plan the_token none world).0
  where
    result_of : Outcome → ExecutionResult
    result_of (executed result) = result
    result_of (refused e) = record { plan_hash = ""; per_intent = []; resumed_intent_ids = [] }
    result_of aborted = record { plan_hash = ""; per_intent = []; resumed_intent_ids = [] }

ran : (execute ports crypto the_plan the_token none world).0 ≡ executed run_result
unfolding execute run_intents run_intent send finish attempt_record done_record compute_plan_hash
    transfer inject move lookup insert key get_balance ◌+ℤ◌ ◌-ℤ◌
ran = refl

execute-verify_proof_example :
    (proof : ProofOfExecution) × ((build_proof proof_hash run_result times the_token signer
        ≡ some proof)
      × (verify_proof crypto proof_hash proof the_plan no_keys ≡ []))
execute-verify_proof_example =
    execute-verify_proof ports crypto proof_hash the_plan the_token none signer times no_keys world
      run_result ran (tt, tt) (λ h. refl) refl refl

verify_proof-IsGenuine_example :
    IsGenuine crypto proof_hash execute-verify_proof_example.0 the_plan no_keys
verify_proof-IsGenuine_example =
    verify_proof-IsGenuine crypto proof_hash execute-verify_proof_example.0 the_plan no_keys
      execute-verify_proof_example.1.1
