-- ===== src/Treasury/Planner/Matches.antt =====
-- The link between roster/treasury-ops/planner.ts and approval.ts: the gate's loop over the intents
-- planned so far is clean, and holds at least the planner's balances.
use mathlib.Core.Path.{subst}
use dacs_agent_reference.Common.{
  ℕ, String, true, some, [], ◌∷◌, ◌++◌, ◌≡◌, refl, arith, length, str_eq_refl, update, sym, ap,
}
use dacs_agent_reference.Common.Int.{ℤ, pos, ◌+ℤ◌, ◌-ℤ◌, ◌≤ℤ◌, ◌<ℤ◌, int_laws}
use dacs_agent_reference.Treasury.Types.{
  TreasuryAccount, TreasuryPolicy, IntentKind, IntentDest, Crypto,
}
use dacs_agent_reference.Treasury.Approval.{
  GateState, Working, recipient_ok, source_of, credit, check_intents,
}
use dacs_agent_reference.Treasury.Approval.Accounts.{Distinct}
use dacs_agent_reference.Treasury.Planner.{PlanState, new_intent}
use dacs_agent_reference.Treasury.Planner.Gate.{check_intent-IsClean, check_intents-snoc}
use dacs_agent_reference.Treasury.Planner.Covers.{
  Covers, Covers-some, IsIn, All-IsIn, by_id-IsIn, CoversAll, CoversAll-update,
}

module _ (c : Crypto) (policy : TreasuryPolicy) (run_id : String) (s0 : GateState) where
  -- The gate's loop over the intents planned so far.
  abbrev pub gate : PlanState → GateState
  gate s = (check_intents c policy run_id 0 s.intents s0).1

  pub record Matches (s : PlanState) : Type 0 where
    pub clean : (check_intents c policy run_id 0 s.intents s0).0 ≡ []
    pub total : (gate s).run_total ≡ s.run_total
    pub covers : CoversAll policy (gate s).working s.working
    pub capped : s.run_total ≤ℤ policy.per_run_cap

  pub Matches-of :
      (s : PlanState) (t : GateState)
      → check_intents c policy run_id 0 s.intents s0 ≡ ([], t)
      → t.run_total ≡ s.run_total
      → CoversAll policy t.working s.working
      → s.run_total ≤ℤ policy.per_run_cap
      → Matches s
  Matches-of s t e total covers capped = record {
    clean = ap (λ r. r.0) e;
    total = subst (λ r. r.1.run_total ≡ s.run_total) (sym e) total;
    covers = subst (λ r. CoversAll policy r.1.working s.working) (sym e) covers;
    capped = capped;
  }

  source_found :
      (index : ℕ) (kind : IntentKind) (source : TreasuryAccount) (to : IntentDest) (amount : ℤ)
      → Distinct policy.accounts
      → IsIn policy.accounts source
      → source_of policy (new_intent c policy run_id index kind source to amount) ≡ some source
  unfolding source_of new_intent
  source_found index kind source to amount distinct m =
      rw (by_id-IsIn policy.accounts source distinct m, source_of)
        (rw (str_eq_refl source.chain, str_eq_refl source.address) refl)

  -- One more intent that keeps to the limits.
  pub Matches-snoc :
      (s s' : PlanState) (kind : IntentKind) (source : TreasuryAccount) (to : IntentDest)
      (amount : ℤ)
      → Distinct policy.accounts
      → IsIn policy.accounts source
      → recipient_ok policy kind to ≡ true
      → pos 0 <ℤ amount
      → amount ≤ℤ policy.per_tx_cap
      → s.run_total +ℤ amount ≤ℤ policy.per_run_cap
      → source.min_balance ≤ℤ s.working source.id -ℤ (amount +ℤ policy.fee_buffer_per_tx)
      → s'.intents
        ≡ s.intents ++ new_intent c policy run_id (length s.intents) kind source to amount ∷ []
      → s'.run_total ≡ s.run_total +ℤ amount
      → ((w : Working)
          → CoversAll policy w (
              update s.working source.id
                (s.working source.id -ℤ (amount +ℤ policy.fee_buffer_per_tx)))
          → CoversAll policy (credit policy w to amount) s'.working)
      → Matches s
      → Matches s'
  unfolding new_intent
  Matches-snoc s s' kind source to amount distinct m recipient p under run room is total' after h =
      let x = new_intent c policy run_id (length s.intents) kind source to amount in
      let covered =
        All-IsIn (λ a. Covers ((gate s).working a.id) (s.working a.id)) policy.accounts source
          h.covers m in
      let (b, held, le) = Covers-some ((gate s).working source.id) (s.working source.id) covered in
      let step =
        check_intent-IsClean c policy run_id (length s.intents) x (gate s) source b (record {
          id = refl;
          positive = p;
          capped = under;
          recipient = recipient;
          found = source_found (length s.intents) kind source to amount distinct m;
          held = held;
          above = omega int_laws;
        }) in
      let all =
        check_intents-snoc c policy run_id 0 (length s.intents) s.intents x s0 _ (omega arith)
          h.clean step in
      let w =
        update (gate s).working source.id (some (b -ℤ (amount +ℤ policy.fee_buffer_per_tx))) in
      let t : GateState = record {
        working = credit policy w to amount;
        run_total = (gate s).run_total +ℤ amount;
      } in
      Matches-of s' t (rw is all) (rw (total', h.total) refl)
        (after w (
          CoversAll-update policy (gate s).working s.working source.id
            (b -ℤ (amount +ℤ policy.fee_buffer_per_tx))
            (s.working source.id -ℤ (amount +ℤ policy.fee_buffer_per_tx)) (omega int_laws)
            h.covers))
        (rw total' run)
