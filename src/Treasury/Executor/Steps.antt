-- ===== src/Treasury/Executor/Steps.antt =====
-- One intent of roster/treasury-ops/executor.ts: what it does to the chains and to the journal.
use dacs_agent_reference.Common.{
  arith, String, ◌&&◌, Option, none, some, List, [], ◌∷◌, ◌++◌, ◌≡◌, refl, ◌⊎◌, inl, inr,
  Bool-cases,
}
use dacs_agent_reference.Treasury.Types.{TransferIntent}
use dacs_agent_reference.Treasury.Executor.{
  Attempt, done, failed, crashed, ChainPorts, Balances, IntentRecord, World, aborted, record_first,
  done_record, run_intents, read_both, finish, send, run_intent,
}

module _ {W : Type 0} (ports : ChainPorts W) where
  -- The chains are left alone, or they make this one transfer.
  abbrev Moves : TransferIntent → World W → World W → Type 0
  Moves x s s' = (s'.chain ≡ s.chain) ⊎ (s'.chain ≡ (ports.transfer s.chain x).0)

  finish-chain : (s : World W) (w : W) (o : Option IntentRecord) → (finish ports s w o).1.chain ≡ w
  unfolding finish
  finish-chain s w none = refl
  finish-chain s w (some r) = refl

  send-chain :
      (x : TransferIntent) (s : World W) (a : Attempt Balances) → Moves x s (send ports x s a).1
  unfolding send
  send-chain x s (done before) = inr (finish-chain s _ _)
  send-chain x s failed = inl refl
  send-chain x s crashed = inl refl

  pub run_intent-chain : (x : TransferIntent) (s : World W) → Moves x s (run_intent ports x s).1
  unfolding run_intent
  run_intent-chain x s =
      elim (Bool-cases (ports.registered x.from.chain && ports.registered x.to.chain)) [
        | inr f ↦ rw f (inl refl)
        | inl t ↦ rw t (send-chain x s (read_both ports s.chain x))
      ]

  -- The journal grows by exactly the record that is returned.
  abbrev Grows : Option IntentRecord × World W → World W → Type 0
  Grows (some r, s') s = s'.journal ≡ s.journal ++ r ∷ []
  Grows (none, s') s = s'.journal ≡ s.journal

  finish-Grows : (s : World W) (w : W) (o : Option IntentRecord) → Grows (finish ports s w o) s
  unfolding finish
  finish-Grows s w none = refl
  finish-Grows s w (some r) = refl

  send-Grows :
      (x : TransferIntent) (s : World W) (a : Attempt Balances) → Grows (send ports x s a) s
  unfolding send
  send-Grows x s (done before) = finish-Grows s _ _
  send-Grows x s failed = refl
  send-Grows x s crashed = refl

  run_intent-Grows : (x : TransferIntent) (s : World W) → Grows (run_intent ports x s) s
  unfolding run_intent
  run_intent-Grows x s =
      elim (Bool-cases (ports.registered x.from.chain && ports.registered x.to.chain)) [
        | inr f ↦ rw f refl
        | inl t ↦ rw t (send-Grows x s (read_both ports s.chain x))
      ]

  Grows-some :
      (p : Option IntentRecord × World W) (s : World W) (r : IntentRecord)
      → Grows p s
      → p.0 ≡ some r
      → p.1.journal ≡ s.journal ++ r ∷ []
  Grows-some (some q, s') s r g e = ground arith
  Grows-some (none, s') s r g e = cc

  Grows-none :
      (p : Option IntentRecord × World W) (s : World W)
      → Grows p s
      → p.0 ≡ none
      → p.1.journal ≡ s.journal
  Grows-none (some q, s') s g e = cc
  Grows-none (none, s') s g e = g

  pub run_intent-journal_some :
      (x : TransferIntent) (s : World W) (r : IntentRecord)
      → (run_intent ports x s).0 ≡ some r
      → (run_intent ports x s).1.journal ≡ s.journal ++ r ∷ []
  run_intent-journal_some x s r = Grows-some (run_intent ports x s) s r (run_intent-Grows x s)

  pub run_intent-journal_none :
      (x : TransferIntent) (s : World W)
      → (run_intent ports x s).0 ≡ none
      → (run_intent ports x s).1.journal ≡ s.journal
  run_intent-journal_none x s = Grows-none (run_intent ports x s) s (run_intent-Grows x s)

  -- The rounds of the loop: a resumed intent, a thrown error, and an intent that ran.
  module _ (prior : List IntentRecord) (hash : String) (x : TransferIntent)
      (xs : List TransferIntent) (s : World W) where
    pub run_intents-resumed :
        (r : IntentRecord)
        → done_record prior x.intent_id ≡ some r
        → let (end, s') = run_intents ports prior hash xs s in
          run_intents ports prior hash (x ∷ xs) s ≡ (record_first r (x.intent_id ∷ []) end, s')
    unfolding run_intents
    run_intents-resumed r e = rw (e, run_intents) refl

    pub run_intents-stopped :
        done_record prior x.intent_id ≡ none
        → (run_intent ports x s).0 ≡ none
        → run_intents ports prior hash (x ∷ xs) s ≡ (aborted, (run_intent ports x s).1)
    unfolding run_intents
    run_intents-stopped e stop = rw (e, run_intents) (rw stop refl)

    pub run_intents-went :
        (r : IntentRecord)
        → done_record prior x.intent_id ≡ none
        → (run_intent ports x s).0 ≡ some r
        → let (end, s') = run_intents ports prior hash xs (run_intent ports x s).1 in
          run_intents ports prior hash (x ∷ xs) s ≡ (record_first r [] end, s')
    unfolding run_intents
    run_intents-went r e go = rw (e, run_intents) (rw go refl)
