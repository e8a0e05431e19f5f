-- ===== src/Treasury/Proof.antt =====
-- roster/treasury-ops/proof.ts: the signed receipt of a run, and its verification by a third party.
-- The fields of the executor's result that carry the clock and the run's name are an argument. The
-- text of a problem is a constructor.
pub mod Genuine
pub mod Receipt
use dacs_agent_reference.Common.{
  String, Bool, not, Option, none, some, List, [], ◌∷◌, ◌++◌, any, if◌then◌else◌, str_eq,
}
use dacs_agent_reference.Treasury.Types.{
  TransferIntent, ExecutionPlan, ApprovalToken, Crypto, Signer,
}
use dacs_agent_reference.Treasury.Approval.{compute_plan_hash}
use dacs_agent_reference.Treasury.Executor.{IntentRecord, ExecutionResult}

-- `Omit<ProofOfExecution, "proofHash" | "signature">`, what the hash covers.
pub record ProofBody : Type 0 where
  pub plan_hash : String
  pub run_id : String
  pub approval_token : ApprovalToken
  pub per_intent : List IntentRecord
  pub started_at : String
  pub finished_at : String
  pub executor_public_key : String

pub record ProofOfExecution : Type 0 where
  pub body : ProofBody
  pub proof_hash : String
  pub signature : String

-- The fields of `ExecutionResult` beside those of the executor's model.
pub record RunTimes : Type 0 where
  pub run_id : String
  pub started_at : String
  pub finished_at : String

-- The keys that the verifier trusts, if it names any.
pub record TrustedKeys : Type 0 where
  pub approver_public_key : Option String
  pub executor_public_key : Option String

pub data ProofProblem : Type 0 where
  plan_tampered other_plan token_other_plan bad_approval bad_proof_hash : ProofProblem
  bad_executor_signature other_executor : ProofProblem
  unplanned repeated : String → ProofProblem

-- `trusted ?? embedded`
abbrev pub key_or : Option String → String → String
key_or none embedded = embedded
key_or (some trusted) embedded = trusted

abbrev pub problem : Bool → ProofProblem → List ProofProblem
problem bad p = if bad then p ∷ [] else []

abbrev pub is_planned : List TransferIntent → String → Bool
is_planned intents id = any (λ x. str_eq x.intent_id id) intents

abbrev pub is_seen : List String → String → Bool
is_seen seen id = any (λ s. str_eq s id) seen

-- the loop over the records, with the set of the ids before
unfoldable pub check_records :
    List TransferIntent → List String → List IntentRecord → List ProofProblem
check_records intents seen [] = []
check_records intents seen (r ∷ rest) =
    problem (not (is_planned intents r.intent_id)) (unplanned r.intent_id)
    ++ (problem (is_seen seen r.intent_id) (repeated r.intent_id)
        ++ check_records intents (r.intent_id ∷ seen) rest)

abbrev pub proof_body : ExecutionResult → RunTimes → ApprovalToken → Signer → ProofBody
proof_body result times token signer = record {
  plan_hash = result.plan_hash;
  run_id = times.run_id;
  approval_token = token;
  per_intent = result.per_intent;
  started_at = times.started_at;
  finished_at = times.finished_at;
  executor_public_key = signer.public_key;
}

-- `proof_hash` is the hash of the canonical JSON of a body.
module _ (proof_hash : ProofBody → String) where
  -- `none` is the error that it throws
  unfoldable pub build_proof :
      ExecutionResult → RunTimes → ApprovalToken → Signer → Option ProofOfExecution
  build_proof result times token signer =
      let body = proof_body result times token signer in
      if not (str_eq token.plan_hash result.plan_hash)
      then none
      else some (record {
        body = body;
        proof_hash = proof_hash body;
        signature = signer.sign_hash (proof_hash body);
      })

module _ (c : Crypto) (proof_hash : ProofBody → String) where
  -- the problems that `verifyProof` finds; the proof is valid if there are none
  unfoldable pub verify_proof : ProofOfExecution → ExecutionPlan → TrustedKeys → List ProofProblem
  verify_proof proof plan keys =
      let token = proof.body.approval_token in
      let approver = key_or keys.approver_public_key token.approver_public_key in
      let executor = key_or keys.executor_public_key proof.body.executor_public_key in
      let actual = compute_plan_hash c plan.body in
      problem (not (str_eq plan.plan_hash actual)) plan_tampered
      ++ (problem (not (str_eq proof.body.plan_hash actual)) other_plan
          ++ (problem (not (str_eq token.plan_hash actual)) token_other_plan
              ++ (problem (not (c.verify_hash_signature token.plan_hash token.signature approver))
                    bad_approval
                  ++ (problem (not (str_eq proof.proof_hash (proof_hash proof.body))) bad_proof_hash
                      ++ (problem
                            (not
                              (c.verify_hash_signature proof.proof_hash proof.signature executor))
                            bad_executor_signature
                          ++ (problem (not (str_eq proof.body.executor_public_key executor))
                                other_executor
                              ++ check_records plan.body.intents [] proof.body.per_intent))))))
