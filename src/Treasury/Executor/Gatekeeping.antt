-- ===== src/Treasury/Executor/Gatekeeping.antt =====
-- What roster/treasury-ops/executor.ts lets through to the chains.
use mathlib.Core.Path.{subst}
use dacs_agent_reference.Common.{
  String, true, not, Option, none, List, [], ◌∷◌, ◌≡◌, refl, ◌⊎◌, inl, inr, All, All-map, str_eq,
  str_eq_iff, Bool-cases, Option-cases, sym, ◌∙◌, not-false,
}
use dacs_agent_reference.Treasury.Types.{
  TransferIntent, TreasuryPolicy, ExecutionPlan, ApprovalToken, approved, Crypto, Signer,
}
use dacs_agent_reference.Treasury.Approval.{compute_plan_hash, approve}
use dacs_agent_reference.Treasury.Approval.Sound.{IntentOk, approve-IsSound, approve-violations}
use dacs_agent_reference.Treasury.Executor.Steps.{run_intent-chain}
use dacs_agent_reference.Treasury.Executor.{
  ChainPorts, IntentRecord, Refusal, refused, World, done_record, run_intent, run_intents,
  is_trusted, execute,
}

-- The conditions under which a plan is carried out at all.
pub record IsAdmitted (c : Crypto) (plan : ExecutionPlan) (token : ApprovalToken)
    (trusted : Option (List String)) : Type 0 where
  pub intact : plan.plan_hash ≡ compute_plan_hash c plan.body
  pub covered : token.plan_hash ≡ compute_plan_hash c plan.body
  pub trusts : is_trusted trusted token.approver_public_key ≡ true
  pub signed :
      c.verify_hash_signature token.plan_hash token.signature token.approver_public_key ≡ true

module _ {W : Type 0} (ports : ChainPorts W) where
  -- A call of `execute` is refused, and then it changes nothing on the chains or in the journal;
  -- or the plan's hash is that of its body, the token covers that hash, its key is trusted and its
  -- signature verifies, and then the call runs the plan's intents.
  pub execute-cases :
      (c : Crypto) (plan : ExecutionPlan) (token : ApprovalToken) (trusted : Option (List String))
      (s : World W)
      → ((e : Refusal) × (execute ports c plan token trusted s ≡ (refused e, s)))
        ⊎ (IsAdmitted c plan token trusted
            × (execute ports c plan token trusted s
                ≡ run_intents ports s.journal plan.plan_hash plan.body.intents s))
  unfolding execute
  execute-cases c plan token trusted s =
      elim (Bool-cases (not (str_eq plan.plan_hash (compute_plan_hash c plan.body)))) [
        | inl t ↦ inl (Refusal.tampered_plan, rw t refl)
        | inr intact ↦
            elim (Bool-cases (not (str_eq token.plan_hash (compute_plan_hash c plan.body)))) [
              | inl t ↦ inl (Refusal.other_plan, rw (intact, t) refl)
              | inr covered ↦
                  elim (Bool-cases (not (is_trusted trusted token.approver_public_key))) [
                    | inl t ↦ inl (Refusal.untrusted_key, rw (intact, covered, t) refl)
                    | inr trusts ↦
                        elim (Bool-cases (
                          not (
                            c.verify_hash_signature token.plan_hash token.signature
                              token.approver_public_key))) [
                                | inl t ↦
                                    inl
                                      (Refusal.bad_signature, rw (intact, covered, trusts, t) refl)
                                | inr signed ↦ inr (
                                  record {
                                    intact = (str_eq_iff _ _).0 (not-false _ intact);
                                    covered = (str_eq_iff _ _).0 (not-false _ covered);
                                    trusts = not-false _ trusts;
                                    signed = not-false _ signed;
                                  },
                                  rw (intact, covered, trusts, signed) refl,
                                )
                              ]
                  ]
            ]
      ]

  module _ (P : W → Type 0) where
    -- Whatever holds of the chains and is kept by a transfer of the intent.
    abbrev pub Keeps : TransferIntent → Type 0
    Keeps x = (w : W) → P w → P (ports.transfer w x).0

    run_intent-keeps :
        (x : TransferIntent) (s : World W) → Keeps x → P s.chain → P (run_intent ports x s).1.chain
    run_intent-keeps x s k h = elim (run_intent-chain ports x s) [
      | inl same ↦ subst P (sym same) h
      | inr moved ↦ subst P (sym moved) (k s.chain h)
    ]

    pub run_intents-keeps :
        (prior : List IntentRecord) (hash : String) (xs : List TransferIntent) (s : World W)
        → All (λ x. done_record prior x.intent_id ≡ none → Keeps x) xs
        → P s.chain
        → P (run_intents ports prior hash xs s).1.chain
    unfolding run_intents
    run_intents-keeps prior hash [] s k h = h
    run_intents-keeps prior hash (x ∷ xs) s k h =
        elim (Option-cases (done_record prior x.intent_id)) [
          | inr (r, e) ↦ rw (e, run_intents) (run_intents-keeps prior hash xs s k.1 h)
          | inl e ↦
              rw (e, run_intents)
                (let next = run_intent-keeps x s (k.0 e) h in
                  elim (Option-cases (run_intent ports x s).0) [
                    | inl stop ↦ rw stop next
                    | inr (r, go) ↦
                        rw go (run_intents-keeps prior hash xs (run_intent ports x s).1 k.1 next)
                  ])
        ]

    pub execute-keeps :
        (c : Crypto) (plan : ExecutionPlan) (token : ApprovalToken) (trusted : Option (List String))
        (s : World W)
        → (IsAdmitted c plan token trusted
            → All (λ x. done_record s.journal x.intent_id ≡ none → Keeps x) plan.body.intents)
        → P s.chain
        → P (execute ports c plan token trusted s).1.chain
    execute-keeps c plan token trusted s k h = elim (execute-cases c plan token trusted s) [
      | inl (e, same) ↦ rw same h
      | inr (ok, same) ↦
          rw same (run_intents-keeps s.journal plan.plan_hash plan.body.intents s (k ok) h)
    ]

-- Suppose the gate approved a plan with this token, and no other plan body has the same hash.
-- Then whatever plan is handed to the executor with the token, the chains see only transfers that
-- satisfy the policy: a property of the chains that every transfer of a policy-conforming intent
-- keeps is kept by the whole call, however it ends and however the ports answer.
pub execute-approved :
    {W : Type 0} (ports : ChainPorts W) (P : W → Type 0) (c : Crypto) (policy : TreasuryPolicy)
    (plan other : ExecutionPlan) (signer : Signer) (now : String) (token : ApprovalToken)
    (trusted : Option (List String)) (s : World W)
    → approve c policy plan signer now ≡ approved token
    → (compute_plan_hash c other.body ≡ compute_plan_hash c plan.body → other.body ≡ plan.body)
    → ((x : TransferIntent) → IntentOk policy x → Keeps ports P x)
    → P s.chain
    → P (execute ports c other token trusted s).1.chain
execute-approved ports P c policy plan other signer now token trusted s approval unique keep h =
    let sound = approve-IsSound c policy plan signer now token approval in
    let (_, covers, _) = approve-violations c policy plan signer now token approval in
    execute-keeps ports P c other token trusted s
      (λ ok.
        let same = unique (sym ok.covered ∙ covers ∙ sound.sealed) in
        subst (λ b. All (λ x. done_record s.journal x.intent_id ≡ none → Keeps ports P x) b.intents)
          (sym same)
          (All-map {P = IntentOk policy} (λ x good _. keep x good) plan.body.intents sound.intents))
      h
