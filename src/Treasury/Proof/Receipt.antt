-- ===== src/Treasury/Proof/Receipt.antt =====
-- The receipt of a run of roster/treasury-ops/executor.ts verifies.
use mathlib.Core.Path.{subst}
use dacs_agent_reference.Common.{
  arith, ap, ◌∙◌, str_eq_refl, String, true, false, Option, some, List, [], ◌∷◌, ◌≡◌, ◌≢◌, refl,
  sym, inl, inr, str_eq_iff, str-cases, All, Option-cases,
}
use dacs_agent_reference.Treasury.Types.{
  TransferIntent, ExecutionPlan, ApprovalToken, Crypto, Signer,
}
use dacs_agent_reference.Treasury.Approval.{compute_plan_hash}
use dacs_agent_reference.Treasury.Executor.{
  ChainPorts, IntentRecord, ExecutionResult, Outcome, executed, refused, aborted, World,
  record_first, done_record, run_intent, run_intents, execute,
}
use dacs_agent_reference.Treasury.Executor.Resume.{run_intent-id}
use dacs_agent_reference.Treasury.Executor.Gatekeeping.{execute-cases}
use dacs_agent_reference.Treasury.Proof.{
  ProofBody, ProofOfExecution, RunTimes, TrustedKeys, key_or, is_planned, is_seen, check_records,
  proof_body, build_proof, verify_proof,
}

-- The records are of the intents, one of each in their order.
abbrev pub RecordsOf : List TransferIntent → List IntentRecord → Type 0
RecordsOf [] [] = Unit
RecordsOf [] (r ∷ rs) = ⊥
RecordsOf (x ∷ xs) [] = ⊥
RecordsOf (x ∷ xs) (r ∷ rs) = (r.intent_id ≡ x.intent_id) × RecordsOf xs rs

-- What a call that ran to its end reports.
abbrev Reports : List TransferIntent → String → Outcome → Type 0
Reports xs hash (executed result) = (result.plan_hash ≡ hash) × RecordsOf xs result.per_intent
Reports xs hash (refused e) = Unit
Reports xs hash aborted = Unit

done_record-id :
    (j : List IntentRecord) (id : String) (r : IntentRecord)
    → done_record j id ≡ some r
    → r.intent_id ≡ id
unfolding done_record
done_record-id [] id r h = cc
done_record-id (a ∷ j) id r h = elim (Option-cases (done_record j id)) [
  | inr (q, e) ↦ done_record-id j id r (ground arith)
  | inl e ↦ elim (str-cases a.intent_id id) [
    | inl (t, same) ↦ ground arith
    | inr (f, other) ↦ absurd (ground arith)
  ]
]

Reports-first :
    (x : TransferIntent) (xs : List TransferIntent) (hash : String) (r : IntentRecord)
    (ids : List String) (end : Outcome)
    → r.intent_id ≡ x.intent_id
    → Reports xs hash end
    → Reports (x ∷ xs) hash (record_first r ids end)
Reports-first x xs hash r ids (executed result) e h = (h.0, (e, h.1))
Reports-first x xs hash r ids (refused e') e h = tt
Reports-first x xs hash r ids aborted e h = tt

module _ {W : Type 0} (ports : ChainPorts W) where
  run_intents-Reports :
      (prior : List IntentRecord) (hash : String) (xs : List TransferIntent) (s : World W)
      → Reports xs hash (run_intents ports prior hash xs s).0
  unfolding run_intents
  run_intents-Reports prior hash [] s = (refl, tt)
  run_intents-Reports prior hash (x ∷ xs) s = elim (Option-cases (done_record prior x.intent_id)) [
    | inr (r, e) ↦
        rw (e, run_intents)
          (Reports-first x xs hash r (x.intent_id ∷ []) (run_intents ports prior hash xs s).0
            (done_record-id prior x.intent_id r e) (run_intents-Reports prior hash xs s))
    | inl e ↦
        rw (e, run_intents)
          (elim (Option-cases (run_intent ports x s).0) [
            | inl stop ↦ rw stop tt
            | inr (r, go) ↦ rw go (
                Reports-first x xs hash r []
                  (run_intents ports prior hash xs (run_intent ports x s).1).0
                  (run_intent-id ports x s r go)
                  (run_intents-Reports prior hash xs (run_intent ports x s).1))
          ])
  ]

-- No two intents have one id.
abbrev pub DistinctIds : List TransferIntent → Type 0
DistinctIds [] = Unit
DistinctIds (x ∷ xs) = All (λ y. y.intent_id ≢ x.intent_id) xs × DistinctIds xs

-- None of the intents is seen yet.
abbrev Unseen : List String → List TransferIntent → Type 0
Unseen seen xs = All (λ x. is_seen seen x.intent_id ≡ false) xs

Unseen-step :
    (seen : List String) (id : String) (xs : List TransferIntent)
    → All (λ y. y.intent_id ≢ id) xs
    → Unseen seen xs
    → Unseen (id ∷ seen) xs
Unseen-step seen id [] d h = tt
Unseen-step seen id (y ∷ xs) d h = (
  elim (str-cases id y.intent_id) [
    | inl (t, same) ↦ absurd (d.0 (sym same))
    | inr (f, other) ↦ rw (f, h.0) refl
  ],
  Unseen-step seen id xs d.1 h.1,
)

Unseen-none : (xs : List TransferIntent) → Unseen [] xs
Unseen-none [] = tt
Unseen-none (x ∷ xs) = (refl, Unseen-none xs)

abbrev Planned : List TransferIntent → List TransferIntent → Type 0
Planned intents xs = All (λ x. is_planned intents x.intent_id ≡ true) xs

Planned-cons :
    (y : TransferIntent) (ys xs : List TransferIntent) → Planned ys xs → Planned (y ∷ ys) xs
Planned-cons y ys [] h = tt
Planned-cons y ys (x ∷ xs) h = (ground (arith, h.0), Planned-cons y ys xs h.1)

Planned-self : (xs : List TransferIntent) → Planned xs xs
Planned-self [] = tt
Planned-self (x ∷ xs) =
    (rw ((str_eq_iff x.intent_id x.intent_id).1 refl) refl, Planned-cons x xs xs (Planned-self xs))

check_records-nil :
    (intents : List TransferIntent) (seen : List String) (xs : List TransferIntent)
    (rs : List IntentRecord)
    → RecordsOf xs rs
    → Planned intents xs
    → Unseen seen xs
    → DistinctIds xs
    → check_records intents seen rs ≡ []
unfolding check_records
check_records-nil intents seen [] [] k p u d = refl
check_records-nil intents seen [] (r ∷ rs) k p u d = absurd k
check_records-nil intents seen (x ∷ xs) [] k p u d = absurd k
check_records-nil intents seen (x ∷ xs) (r ∷ rs) k p u d =
    rw (k.0, p.0, u.0)
      (check_records-nil intents (x.intent_id ∷ seen) xs rs k.1 p.1
        (Unseen-step seen x.intent_id xs d.0 u.1) d.1)

-- If a call of `execute` runs to its end, the plan's intents have different ids, and the signer's
-- signatures verify by its key, which the verifier trusts as it does the token's, then `buildProof`
-- gives a receipt of the result, and `verifyProof` finds no problem with it.
pub execute-verify_proof :
    {W : Type 0} (ports : ChainPorts W) (c : Crypto) (proof_hash : ProofBody → String)
    (plan : ExecutionPlan) (token : ApprovalToken) (trusted : Option (List String))
    (signer : Signer) (times : RunTimes) (keys : TrustedKeys) (s : World W)
    (result : ExecutionResult)
    → (execute ports c plan token trusted s).0 ≡ executed result
    → DistinctIds plan.body.intents
    → ((h : String) → c.verify_hash_signature h (signer.sign_hash h) signer.public_key ≡ true)
    → key_or keys.approver_public_key token.approver_public_key ≡ token.approver_public_key
    → key_or keys.executor_public_key signer.public_key ≡ signer.public_key
    → (proof : ProofOfExecution) × ((build_proof proof_hash result times token signer ≡ some proof)
        × (verify_proof c proof_hash proof plan keys ≡ []))
unfolding build_proof verify_proof
execute-verify_proof ports c proof_hash plan token trusted signer times keys s result ran distinct
      signs approver executor =
    elim (execute-cases ports c plan token trusted s) [
      | inl (e, same) ↦ absurd (ground arith)
      | inr (ok, same) ↦
          let ends : (run_intents ports s.journal plan.plan_hash plan.body.intents s).0
              ≡ executed result =
            sym (ap (λ e. e.0) same) ∙ ran in
          let (hash, records) =
            subst (Reports plan.body.intents plan.plan_hash) ends
              (run_intents-Reports ports s.journal plan.plan_hash plan.body.intents s) in
          let body = proof_body result times token signer in
          let planned =
            check_records-nil plan.body.intents [] plan.body.intents result.per_intent records
              (Planned-self plan.body.intents) (Unseen-none plan.body.intents) distinct in
          let of_plan = (str_eq_iff _ _).1 ok.intact in
          let of_token = (str_eq_iff _ _).1 ok.covered in
          let of_result =
            (str_eq_iff result.plan_hash (compute_plan_hash c plan.body)).1 (hash ∙ ok.intact) in
          let agree =
            (str_eq_iff token.plan_hash result.plan_hash).1 (ok.covered ∙ sym (hash ∙ ok.intact)) in
          (
            record {
              body = body;
              proof_hash = proof_hash body;
              signature = signer.sign_hash (proof_hash body);
            },
            (
              rw agree refl,
              rw
                  (
                    of_plan,
                    of_result,
                    of_token,
                    approver,
                    ok.signed,
                    str_eq_refl (proof_hash body),
                    executor,
                    signs (proof_hash body),
                    str_eq_refl signer.public_key,
                  )
                  planned,
            ),
          )
    ]
