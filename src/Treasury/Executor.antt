-- ===== src/Treasury/Executor.antt =====
-- roster/treasury-ops/executor.ts: an approved plan is carried out intent by intent, and every
-- attempt is journaled so that a later run resumes. The chains are ports, which may fail or crash
-- at every call; their state is `W`. The journal is the list of the records in the run's file:
-- times and error texts are left out, and so is the JSON of a line.
pub mod Steps
pub mod Gatekeeping
pub mod Resume
use dacs_agent_reference.Common.{
  String, Bool, true, not, ◌&&◌, Option, none, some, List, [], ◌∷◌, ◌++◌, any, if◌then◌else◌,
  str_eq,
}
use dacs_agent_reference.Common.Int.{ℤ}
use dacs_agent_reference.Treasury.Types.{TransferIntent, ExecutionPlan, ApprovalToken, Crypto}
use dacs_agent_reference.Treasury.Approval.{compute_plan_hash}

-- How a port's call ends: `crashed` is an error with `abortsRun: true`, `failed` any other.
pub data Attempt (A : Type 0) : Type 0 where
  done : A → Attempt A
  failed crashed : Attempt A

-- The ports that the executor is given, over the chains' state.
pub record ChainPorts (W : Type 0) : Type 0 where
  pub registered : String → Bool
  pub get_balance : W → String → String → Attempt ℤ
  -- the new state, and the transaction's reference
  pub transfer : W → TransferIntent → W × Attempt String

pub data IntentStatus : Type 0 where
  ok failed : IntentStatus

pub record Balances : Type 0 where
  pub from : ℤ
  pub to : ℤ

pub record IntentRecord : Type 0 where
  pub intent_id : String
  pub status : IntentStatus
  pub tx_ref : Option String
  pub pre_balances : Balances
  pub post_balances : Option Balances

pub data Refusal : Type 0 where
  tampered_plan other_plan untrusted_key bad_signature : Refusal

pub record ExecutionResult : Type 0 where
  pub plan_hash : String
  pub per_intent : List IntentRecord
  pub resumed_intent_ids : List String

-- How a call of `execute` ends; `aborted` is an error that it throws.
pub data Outcome : Type 0 where
  refused : Refusal → Outcome
  executed : ExecutionResult → Outcome
  aborted : Outcome

pub record World (W : Type 0) : Type 0 where
  pub chain : W
  pub journal : List IntentRecord

abbrev pub is_ok : IntentStatus → Bool
is_ok IntentStatus.ok = true
is_ok IntentStatus.failed = Bool.false

-- `doneRecords.get(id)`: the last record of the id that is ok
unfoldable pub done_record : List IntentRecord → String → Option IntentRecord
done_record [] id = none
done_record (r ∷ rest) id = elim (done_record rest id) [
  | some s ↦ some s
  | none ↦ if is_ok r.status && str_eq r.intent_id id then some r else none
]

abbrev pub failed_record : TransferIntent → Balances → IntentRecord
failed_record x before = record {
  intent_id = x.intent_id;
  status = IntentStatus.failed;
  tx_ref = none;
  pre_balances = before;
  post_balances = none;
}

abbrev pub record_first : IntentRecord → List String → Outcome → Outcome
record_first r ids (executed result) = executed (record {
  plan_hash = result.plan_hash;
  per_intent = r ∷ result.per_intent;
  resumed_intent_ids = ids ++ result.resumed_intent_ids;
})
record_first r ids (refused e) = refused e
record_first r ids aborted = aborted

abbrev pub is_trusted : Option (List String) → String → Bool
is_trusted none key = true
is_trusted (some keys) key = any (λ k. str_eq k key) keys

module _ {W : Type 0} (ports : ChainPorts W) where
  -- the balances of both ends, the source's first
  abbrev pub read_both : W → TransferIntent → Attempt Balances
  read_both w x = elim (ports.get_balance w x.from.chain x.from.address) [
    | done a ↦ elim (ports.get_balance w x.to.chain x.to.address) [
      | done b ↦ done (record { from = a; to = b })
      | failed ↦ failed
      | crashed ↦ crashed
    ]
    | failed ↦ failed
    | crashed ↦ crashed
  ]

  -- The body of the `try`, on the chains after the transfer: an error in it, of the transfer or of
  -- a balance read behind it, is recorded as a failure; `none` is a crash, which is thrown on.
  unfoldable pub attempt_record :
      TransferIntent → Balances → W → Attempt String → Option IntentRecord
  attempt_record x before w (done tx_ref) = elim (read_both w x) [
    | done after ↦ some (record {
      intent_id = x.intent_id;
      status = IntentStatus.ok;
      tx_ref = some tx_ref;
      pre_balances = before;
      post_balances = some after;
    })
    | failed ↦ some (failed_record x before)
    | crashed ↦ none
  ]
  attempt_record x before w failed = some (failed_record x before)
  attempt_record x before w crashed = none

  -- the record is appended to the journal
  unfoldable pub finish : World W → W → Option IntentRecord → Option IntentRecord × World W
  finish s w (some r) = (some r, record { chain = w; journal = s.journal ++ r ∷ [] })
  finish s w none = (none, record { chain = w; journal = s.journal })

  -- the transfer, once the balances before it are read
  unfoldable pub send : TransferIntent → World W → Attempt Balances → Option IntentRecord × World W
  unfolding finish
  send x s (done before) =
      let (w, sent) = ports.transfer s.chain x in finish s w (attempt_record x before w sent)
  send x s failed = (none, s)
  send x s crashed = (none, s)

  -- `none` is a thrown error: a missing port, a balance that cannot be read before the transfer,
  -- or a crash. Nothing is journaled then.
  unfoldable pub run_intent : TransferIntent → World W → Option IntentRecord × World W
  run_intent x s =
      if ports.registered x.from.chain && ports.registered x.to.chain
      then send x s (read_both s.chain x)
      else (none, s)

  -- the loop over the intents, `prior` the journal as it was read
  unfoldable pub run_intents :
      List IntentRecord → String → List TransferIntent → World W → Outcome × World W
  run_intents prior hash [] s =
      (executed (record { plan_hash = hash; per_intent = []; resumed_intent_ids = [] }), s)
  run_intents prior hash (x ∷ xs) s = elim (done_record prior x.intent_id) [
    | some r ↦
        let (end, s') = run_intents prior hash xs s in (record_first r (x.intent_id ∷ []) end, s')
    | none ↦
        let (result, s') = run_intent x s in
        elim result [
          | none ↦ (aborted, s')
          | some r ↦ let (end, s'') = run_intents prior hash xs s' in (record_first r [] end, s'')
        ]
  ]

  unfoldable pub execute :
      Crypto → ExecutionPlan → ApprovalToken → Option (List String) → World W → Outcome × World W
  execute c plan token trusted s =
      let actual = compute_plan_hash c plan.body in
      if not (str_eq plan.plan_hash actual)
      then (refused tampered_plan, s)
      else if not (str_eq token.plan_hash actual)
      then (refused other_plan, s)
      else if not (is_trusted trusted token.approver_public_key)
      then (refused untrusted_key, s)
      else if not
          (c.verify_hash_signature token.plan_hash token.signature token.approver_public_key)
      then (refused bad_signature, s)
      else run_intents s.journal plan.plan_hash plan.body.intents s
