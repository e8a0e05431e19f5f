-- ===== src/Treasury/Planner/Gate.antt =====
-- When a round of the gate's loop raises nothing, and how the loop runs over one more intent.
use dacs_agent_reference.Common.{
  ℕ, suc, ◌+◌, String, true, some, List, [], ◌∷◌, ◌++◌, ◌≡◌, refl, arith, length, append-eq-nil,
  str_eq_iff, update,
}
use dacs_agent_reference.Common.Int.{ℤ, pos, ◌+ℤ◌, ◌-ℤ◌, ◌≤ℤ◌, ◌<ℤ◌}
use dacs_agent_reference.Treasury.Types.{TreasuryAccount, TreasuryPolicy, TransferIntent, Crypto}
use dacs_agent_reference.Treasury.Approval.{
  compute_intent_id, GateState, recipient_ok, source_of, credit, check_intent, check_intents,
}
use dacs_agent_reference.Treasury.Approval.Floors.{simulate_held}

module _ (c : Crypto) (policy : TreasuryPolicy) (run_id : String) where
  -- The conditions on one intent, against the simulated balance `b` of its source.
  pub record IsClean (index : ℕ) (x : TransferIntent) (s : GateState) (source : TreasuryAccount)
      (b : ℤ) : Type 0 where
    pub id : x.intent_id ≡ compute_intent_id c run_id index x.kind x.to.address x.to.chain x.amount
    pub positive : pos 0 <ℤ x.amount
    pub capped : x.amount ≤ℤ policy.per_tx_cap
    pub recipient : recipient_ok policy x.kind x.to ≡ true
    pub found : source_of policy x ≡ some source
    pub held : s.working source.id ≡ some b
    pub above : source.min_balance ≤ℤ b -ℤ (x.amount +ℤ policy.fee_buffer_per_tx)

  pub check_intent-IsClean :
      (index : ℕ) (x : TransferIntent) (s : GateState) (source : TreasuryAccount) (b : ℤ)
      → IsClean index x s source b
      → check_intent c policy run_id index x s ≡ (
        [],
        record {
          working =
              credit policy
                (update s.working source.id (some (b -ℤ (x.amount +ℤ policy.fee_buffer_per_tx))))
                x.to
                x.amount;
          run_total = s.run_total +ℤ x.amount;
        },
      )
  unfolding check_intent
  check_intent-IsClean index x s source b h =
      ground
        (arith, (str_eq_iff x.intent_id _).1 h.id, simulate_held policy s.working source x b h.held)

  -- The loop over a list with one more intent at its end.
  pub check_intents-snoc :
      (index n : ℕ) (xs : List TransferIntent) (x : TransferIntent) (s t : GateState)
      → n ≡ index + length xs
      → (check_intents c policy run_id index xs s).0 ≡ []
      → check_intent c policy run_id n x (check_intents c policy run_id index xs s).1 ≡ ([], t)
      → check_intents c policy run_id index (xs ++ x ∷ []) s ≡ ([], t)
  unfolding check_intents
  check_intents-snoc index n [] x s t e h k =
      let same : n ≡ index = omega arith in rw (rw same at k) refl
  check_intents-snoc index n (y ∷ ys) x s t e h k =
      let (here, later) = append-eq-nil (check_intent c policy run_id index y s).0 _ h in
      rw
        (
          check_intents-snoc (suc index) n ys x (check_intent c policy run_id index y s).1 t
              (omega arith) later k,
          here,
        )
        refl
