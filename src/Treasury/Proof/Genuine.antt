-- ===== src/Treasury/Proof/Genuine.antt =====
-- What a receipt of roster/treasury-ops/proof.ts that verifies is worth.
use dacs_agent_reference.Common.{
  arith, String, Bool, true, false, List, [], ◌∷◌, ◌≡◌, ◌≢◌, refl, sym, str_eq, str_eq_iff,
  not-false, All, Some, any-Some, append-eq-nil,
}
use dacs_agent_reference.Treasury.Types.{TransferIntent, ExecutionPlan, Crypto}
use dacs_agent_reference.Treasury.Approval.{compute_plan_hash}
use dacs_agent_reference.Treasury.Executor.{IntentRecord}
use dacs_agent_reference.Treasury.Proof.{
  ProofBody, ProofOfExecution, TrustedKeys, ProofProblem, key_or, problem, is_seen, check_records,
  verify_proof,
}

-- The record is of an intent of the plan.
abbrev pub IsPlanned : List TransferIntent → IntentRecord → Type 0
IsPlanned intents r = Some (λ x. x.intent_id ≡ r.intent_id) intents

-- No two records have one intent's id.
abbrev pub NoRepeats : List IntentRecord → Type 0
NoRepeats [] = Unit
NoRepeats (r ∷ rest) = All (λ s. s.intent_id ≢ r.intent_id) rest × NoRepeats rest

problem-nil : (b : Bool) (p : ProofProblem) → problem b p ≡ [] → b ≡ false
problem-nil true p h = cc
problem-nil false p h = refl

unseen_ne : (seen : List String) (id : String) → is_seen seen id ≡ false → All (λ s. s ≢ id) seen
unseen_ne [] id h = tt
unseen_ne (s ∷ seen) id h =
    ((λ e. ground (arith, (str_eq_iff s id).1 e)), unseen_ne seen id (ground arith))

check_records-planned :
    (intents : List TransferIntent) (seen : List String) (l : List IntentRecord)
    → check_records intents seen l ≡ []
    → All (IsPlanned intents) l
unfolding check_records
check_records-planned intents seen [] h = tt
check_records-planned intents seen (r ∷ l) h =
    let (here, later) = append-eq-nil _ _ h in
    let (_, rest) = append-eq-nil _ _ later in
    (
      any-Some (λ x. x.intent_id ≡ r.intent_id) (λ x. str_eq x.intent_id r.intent_id)
          (λ x. (str_eq_iff x.intent_id r.intent_id).0) intents
          (not-false _ (problem-nil _ _ here)),
      check_records-planned intents (r.intent_id ∷ seen) l rest,
    )

-- Each id is new against those before it.
check_records-new :
    (intents : List TransferIntent) (seen : List String) (l : List IntentRecord)
    → check_records intents seen l ≡ []
    → All (λ r. All (λ s. s ≢ r.intent_id) seen) l
unfolding check_records
check_records-new intents seen [] h = tt
check_records-new intents seen (r ∷ l) h =
    let (_, later) = append-eq-nil _ _ h in
    let (now, rest) = append-eq-nil _ _ later in
    (
      unseen_ne seen r.intent_id (problem-nil _ _ now),
      older l (check_records-new intents (r.intent_id ∷ seen) l rest),
    )
  where
    older :
        (l : List IntentRecord)
        → All (λ q. All (λ s. s ≢ q.intent_id) (r.intent_id ∷ seen)) l
        → All (λ q. All (λ s. s ≢ q.intent_id) seen) l
    older [] k = tt
    older (q ∷ l) k = (k.0.1, older l k.1)

check_records-NoRepeats :
    (intents : List TransferIntent) (seen : List String) (l : List IntentRecord)
    → check_records intents seen l ≡ []
    → NoRepeats l
unfolding check_records
check_records-NoRepeats intents seen [] h = tt
check_records-NoRepeats intents seen (r ∷ l) h =
    let (_, later) = append-eq-nil _ _ h in
    let (_, rest) = append-eq-nil _ _ later in
    (
      apart l (check_records-new intents (r.intent_id ∷ seen) l rest),
      check_records-NoRepeats intents (r.intent_id ∷ seen) l rest,
    )
  where
    apart :
        (l : List IntentRecord)
        → All (λ q. All (λ s. s ≢ q.intent_id) (r.intent_id ∷ seen)) l
        → All (λ s. s.intent_id ≢ r.intent_id) l
    apart [] k = tt
    apart (q ∷ l) k = ((λ e. k.0.0 (sym e)), apart l k.1)

-- What a third party knows of a run by a receipt that verifies.
pub record IsGenuine (c : Crypto) (proof_hash : ProofBody → String) (proof : ProofOfExecution)
    (plan : ExecutionPlan) (keys : TrustedKeys) : Type 0 where
  pub intact : plan.plan_hash ≡ compute_plan_hash c plan.body
  pub same_plan : proof.body.plan_hash ≡ compute_plan_hash c plan.body
  pub covered : proof.body.approval_token.plan_hash ≡ compute_plan_hash c plan.body
  pub approved :
      c.verify_hash_signature proof.body.approval_token.plan_hash
        proof.body.approval_token.signature
        (key_or keys.approver_public_key proof.body.approval_token.approver_public_key)
      ≡ true
  pub sealed : proof.proof_hash ≡ proof_hash proof.body
  pub signed :
      c.verify_hash_signature proof.proof_hash proof.signature
        (key_or keys.executor_public_key proof.body.executor_public_key)
      ≡ true
  pub planned : All (IsPlanned plan.body.intents) proof.body.per_intent
  pub no_repeats : NoRepeats proof.body.per_intent

module _ (c : Crypto) (proof_hash : ProofBody → String) where
  -- If `verifyProof` finds no problem, then the receipt and its token are for the plan and its
  -- hash, the token's signature verifies by the approver's key and the receipt's by the executor's
  -- (the trusted ones, where they are named), and every record is of an intent of the plan, no
  -- intent twice.
  pub verify_proof-IsGenuine :
      (proof : ProofOfExecution) (plan : ExecutionPlan) (keys : TrustedKeys)
      → verify_proof c proof_hash proof plan keys ≡ []
      → IsGenuine c proof_hash proof plan keys
  unfolding verify_proof
  verify_proof-IsGenuine proof plan keys h =
      let (p1, h1) = append-eq-nil _ _ h in
      let (p2, h2) = append-eq-nil _ _ h1 in
      let (p3, h3) = append-eq-nil _ _ h2 in
      let (p4, h4) = append-eq-nil _ _ h3 in
      let (p5, h5) = append-eq-nil _ _ h4 in
      let (p6, h6) = append-eq-nil _ _ h5 in
      let (_, records) = append-eq-nil _ _ h6 in
      record {
        intact = (str_eq_iff _ _).0 (not-false _ (problem-nil _ _ p1));
        same_plan = (str_eq_iff _ _).0 (not-false _ (problem-nil _ _ p2));
        covered = (str_eq_iff _ _).0 (not-false _ (problem-nil _ _ p3));
        approved = not-false _ (problem-nil _ _ p4);
        sealed = (str_eq_iff _ _).0 (not-false _ (problem-nil _ _ p5));
        signed = not-false _ (problem-nil _ _ p6);
        planned = check_records-planned plan.body.intents [] _ records;
        no_repeats = check_records-NoRepeats plan.body.intents [] _ records;
      }
