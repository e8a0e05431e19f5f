-- ===== src/Treasury/Executor/Resume.antt =====
-- The journal of roster/treasury-ops/executor.ts: what a later run skips, and what it repeats.
use mathlib.Core.Path.{subst}
use dacs_agent_reference.Common.{
  String, ◌&&◌, Option, none, some, List, [], ◌∷◌, ◌++◌, ◌≡◌, refl, inl, inr, arith, All,
  str_eq_refl, Bool-cases, Option-cases, sym, ap, ◌∙◌,
}
use dacs_agent_reference.Treasury.Types.{TransferIntent, ExecutionPlan, ApprovalToken, Crypto}
use dacs_agent_reference.Treasury.Executor.{
  Attempt, done, failed, crashed, ChainPorts, Balances, IntentStatus, IntentRecord, Outcome,
  executed, refused, World, done_record, attempt_record, read_both, finish, send, run_intent,
  run_intents, execute, record_first,
}
use dacs_agent_reference.Treasury.Executor.Steps.{
  run_intents-resumed, run_intents-stopped, run_intents-went, run_intent-journal_some,
  run_intent-journal_none,
}
use dacs_agent_reference.Treasury.Executor.Gatekeeping.{execute-cases}

-- The journal shows that the intent went through.
abbrev pub IsDone : List IntentRecord → String → Type 0
IsDone j id = (r : IntentRecord) × (done_record j id ≡ some r)

IsDone-append : (j k : List IntentRecord) (id : String) → IsDone j id → IsDone (j ++ k) id
unfolding done_record
IsDone-append [] k id (r, h) = cc
IsDone-append (a ∷ j) k id (r, h) = elim (Option-cases (done_record (j ++ k) id)) [
  | inr (q, e) ↦ (q, rw e refl)
  | inl e ↦ elim (Option-cases (done_record j id)) [
    | inr (q, f) ↦ let (p, g) = IsDone-append j k id (q, f) in absurd (ground arith)
    | inl f ↦ (r, rw e (rw f at h))
  ]
]

IsDone-last :
    (j : List IntentRecord) (r : IntentRecord)
    → r.status ≡ IntentStatus.ok
    → IsDone (j ++ r ∷ []) r.intent_id
unfolding done_record
IsDone-last [] r h = (r, rw (h, str_eq_refl r.intent_id) refl)
IsDone-last (a ∷ j) r h = let (q, e) = IsDone-last j r h in (q, rw e refl)

done_record-failed :
    (j : List IntentRecord) (r : IntentRecord) (id : String)
    → r.status ≡ IntentStatus.failed
    → done_record j id ≡ none
    → done_record (j ++ r ∷ []) id ≡ none
unfolding done_record
done_record-failed [] r id f h = rw f refl
done_record-failed (a ∷ j) r id f h = elim (Option-cases (done_record j id)) [
  | inr (q, e) ↦ absurd (ground arith)
  | inl e ↦ rw (done_record-failed j r id f e) (rw e at h)
]

module _ {W : Type 0} (ports : ChainPorts W) where
  attempt_record-id :
      (x : TransferIntent) (before : Balances) (w : W) (a : Attempt String) (r : IntentRecord)
      → attempt_record ports x before w a ≡ some r
      → r.intent_id ≡ x.intent_id
  unfolding attempt_record
  attempt_record-id x before w (done t) r h = ground arith
  attempt_record-id x before w failed r h = ground arith
  attempt_record-id x before w crashed r h = cc

  finish-record : (s : World W) (w : W) (o : Option IntentRecord) → (finish ports s w o).0 ≡ o
  unfolding finish
  finish-record s w none = refl
  finish-record s w (some r) = refl

  send-id :
      (x : TransferIntent) (s : World W) (a : Attempt Balances) (r : IntentRecord)
      → (send ports x s a).0 ≡ some r
      → r.intent_id ≡ x.intent_id
  unfolding send
  send-id x s (done before) r h =
      attempt_record-id x before _ (ports.transfer s.chain x).1 r
        (sym (finish-record s (ports.transfer s.chain x).0 _) ∙ h)
  send-id x s failed r h = cc
  send-id x s crashed r h = cc

  pub run_intent-id :
      (x : TransferIntent) (s : World W) (r : IntentRecord)
      → (run_intent ports x s).0 ≡ some r
      → r.intent_id ≡ x.intent_id
  unfolding run_intent
  run_intent-id x s r h =
      elim (Bool-cases (ports.registered x.from.chain && ports.registered x.to.chain)) [
        | inr f ↦ absurd (ground arith)
        | inl t ↦ send-id x s (read_both ports s.chain x) r (rw t at h)
      ]

  -- What the journal shows as done stays so.
  run_intent-IsDone :
      (x : TransferIntent) (s : World W) (id : String)
      → IsDone s.journal id
      → IsDone (run_intent ports x s).1.journal id
  run_intent-IsDone x s id h = elim (Option-cases (run_intent ports x s).0) [
    | inl e ↦ subst (λ j. IsDone j id) (sym (run_intent-journal_none ports x s e)) h
    | inr (r, e) ↦
        subst (λ j. IsDone j id) (sym (run_intent-journal_some ports x s r e))
          (IsDone-append s.journal (r ∷ []) id h)
  ]

  run_intents-IsDone :
      (prior : List IntentRecord) (hash : String) (xs : List TransferIntent) (s : World W)
      (id : String)
      → IsDone s.journal id
      → IsDone (run_intents ports prior hash xs s).1.journal id
  unfolding run_intents
  run_intents-IsDone prior hash [] s id h = h
  run_intents-IsDone prior hash (x ∷ xs) s id h =
      elim (Option-cases (done_record prior x.intent_id)) [
        | inr (r, e) ↦ rw (e, run_intents) (run_intents-IsDone prior hash xs s id h)
        | inl e ↦
            rw (e, run_intents)
              (let next = run_intent-IsDone x s id h in
                elim (Option-cases (run_intent ports x s).0) [
                  | inl stop ↦ rw stop next
                  | inr (r, go) ↦
                      rw go (run_intents-IsDone prior hash xs (run_intent ports x s).1 id next)
                ])
      ]

  -- Every record of the run says that its intent went through.
  abbrev pub AllOk : Outcome → Type 0
  AllOk (executed result) = All (λ r. r.status ≡ IntentStatus.ok) result.per_intent
  AllOk (refused e) = ⊥
  AllOk Outcome.aborted = ⊥

  AllOk-first :
      (r : IntentRecord) (ids : List String) (o : Outcome)
      → AllOk (record_first r ids o)
      → (r.status ≡ IntentStatus.ok) × AllOk o
  AllOk-first r ids (executed result) h = h
  AllOk-first r ids (refused e) h = absurd h
  AllOk-first r ids Outcome.aborted h = absurd h

  run_intents-AllOk :
      (prior : List IntentRecord) (hash : String) (xs : List TransferIntent) (s : World W)
      (j : List IntentRecord)
      → ((id : String) → IsDone prior id → IsDone s.journal id)
      → AllOk (run_intents ports prior hash xs s).0
      → (run_intents ports prior hash xs s).1.journal ≡ j
      → All (λ x. IsDone j x.intent_id) xs
  run_intents-AllOk prior hash [] s j k h same = tt
  run_intents-AllOk prior hash (x ∷ xs) s j k h same =
      elim (Option-cases (done_record prior x.intent_id)) [
        | inr (r, e) ↦
            let eq = run_intents-resumed ports prior hash x xs s r e in
            let (_, later) = AllOk-first r (x.intent_id ∷ []) _ (rw eq at h) in
            let same' = rw eq at same in
            (
              subst (λ l. IsDone l x.intent_id) same'
                  (run_intents-IsDone prior hash xs s x.intent_id (k x.intent_id (r, e))),
              run_intents-AllOk prior hash xs s j k later same',
            )
        | inl e ↦ elim (Option-cases (run_intent ports x s).0) [
          | inl stop ↦ absurd (rw (run_intents-stopped ports prior hash x xs s e stop) at h)
          | inr (r, go) ↦
              let eq = run_intents-went ports prior hash x xs s r e go in
              let s₁ = (run_intent ports x s).1 in
              let (good, later) = AllOk-first r [] _ (rw eq at h) in
              let same' = rw eq at same in
              let here =
                subst (λ l. IsDone l r.intent_id) (sym (run_intent-journal_some ports x s r go))
                  (IsDone-last s.journal r good) in
              (
                subst (λ l. IsDone l x.intent_id) same'
                    (run_intents-IsDone prior hash xs s₁ x.intent_id
                      (subst (IsDone s₁.journal) (run_intent-id x s r go) here)),
                run_intents-AllOk prior hash xs s₁ j (λ id d. run_intent-IsDone x s id (k id d))
                    later same',
              )
        ]
      ]

  run_intents-done :
      (prior : List IntentRecord) (hash : String) (xs : List TransferIntent) (s : World W)
      → All (λ x. IsDone prior x.intent_id) xs
      → (run_intents ports prior hash xs s).1 ≡ s
  unfolding run_intents
  run_intents-done prior hash [] s h = refl
  run_intents-done prior hash (x ∷ xs) s h =
      rw (run_intents-resumed ports prior hash x xs s h.0.0 h.0.1)
        (run_intents-done prior hash xs s h.1)

  -- If a call of `execute` returns with every intent recorded as gone through, then a second call
  -- with the same plan and token changes nothing, on the chains or in the journal.
  pub execute-execute :
      (c : Crypto) (plan : ExecutionPlan) (token : ApprovalToken) (trusted : Option (List String))
      (s : World W)
      → AllOk (execute ports c plan token trusted s).0
      → (execute ports c plan token trusted (execute ports c plan token trusted s).1).1
        ≡ (execute ports c plan token trusted s).1
  execute-execute c plan token trusted s h = elim (execute-cases ports c plan token trusted s) [
    | inl (e, refusal) ↦ absurd (rw refusal at h)
    | inr (_, ran) ↦
        let s' = (execute ports c plan token trusted s).1 in
        let all =
          run_intents-AllOk s.journal plan.plan_hash plan.body.intents s s'.journal (λ id d. d)
            (rw ran at h) (ap (λ p. p.1.journal) (sym ran)) in
        elim (execute-cases ports c plan token trusted s') [
          | inl (e, refusal) ↦ ap (λ p. p.1) refusal
          | inr (_, again) ↦
              ap (λ p. p.1) again
              ∙ run_intents-done s'.journal plan.plan_hash plan.body.intents s' all
        ]
  ]
