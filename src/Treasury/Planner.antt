-- ===== src/Treasury/Planner.antt =====
-- roster/treasury-ops/planner.ts: payroll first, then moves towards the target shares. A target
-- share is a whole number of percent, so what the source compares with `targetPct / 100 * total`
-- is compared here a hundred times over, in integers.
pub mod Validity
pub mod Gate
pub mod Covers
pub mod Matches
pub mod Steps
pub mod Accepted
use dacs_agent_reference.Common.{
  ℕ, zero, suc, String, Bool, true, not, ◌&&◌, ◌||◌, Option, none, some, List, [], ◌∷◌, ◌++◌, find,
  any, last?, length, if◌then◌else◌, str_eq, update,
}
use dacs_agent_reference.Common.Int.{ℤ, pos, ◌+ℤ◌, ◌-ℤ◌, ◌*ℤ◌, ltb_ℤ, leb_ℤ, min_ℤ, floor_div}
use dacs_agent_reference.Common.Result.{Result, ok, thrown, ◌>>◌, throw_if}
use dacs_agent_reference.Treasury.Types.{
  TreasuryAccount, TreasuryPolicy, PayrollEntry, IntentKind, payroll, rebalance, IntentDest,
  TransferIntent, ShortfallReason, PayrollShortfall, BalanceSnapshot, PlanBody, ExecutionPlan,
  Crypto,
}
use dacs_agent_reference.Treasury.Approval.{compute_intent_id, compute_plan_hash, balance_of}

pub data PlanError : Type 0 where
  no_accounts bad_targets bad_caps negative_fee : PlanError
  duplicate_account negative_floor no_snapshot : String → PlanError

abbrev pub Checked : Type 0
Checked = Result PlanError (Unit {0})

-- the loop over the accounts; `seen` holds the ids so far
unfoldable pub validate_accounts : List String → List TreasuryAccount → Checked
validate_accounts seen [] = ok tt
validate_accounts seen (a ∷ rest) = do
  throw_if (any (λ k. str_eq k a.id) seen) (PlanError.duplicate_account a.id)
  throw_if (ltb_ℤ a.min_balance (pos 0)) (PlanError.negative_floor a.id)
  validate_accounts (a.id ∷ seen) rest

abbrev pub sum_pct : List TreasuryAccount → ℤ
sum_pct [] = pos 0
sum_pct (a ∷ rest) = a.target_pct +ℤ sum_pct rest

abbrev eq_ℤ : ℤ → ℤ → Bool
eq_ℤ a b = leb_ℤ a b && leb_ℤ b a

unfoldable pub validate_policy : TreasuryPolicy → Checked
validate_policy policy = do
  throw_if (elim policy.accounts [ [] ↦ true | _ ↦ Bool.false ]) PlanError.no_accounts
  validate_accounts [] policy.accounts
  throw_if (not (eq_ℤ (sum_pct policy.accounts) (pos 100))) PlanError.bad_targets
  throw_if (leb_ℤ policy.per_tx_cap (pos 0) || leb_ℤ policy.per_run_cap (pos 0)) PlanError.bad_caps
  throw_if (ltb_ℤ policy.fee_buffer_per_tx (pos 0)) PlanError.negative_fee

unfoldable pub check_snapshots : BalanceSnapshot → List TreasuryAccount → Checked
check_snapshots balances [] = ok tt
check_snapshots balances (a ∷ rest) = elim (balance_of balances a.id) [
  | none ↦ thrown (PlanError.no_snapshot a.id)
  | some v ↦ check_snapshots balances rest
]

unfoldable pub headroom : TreasuryAccount → ℤ → ℤ → ℤ
headroom account balance fee = balance -ℤ account.min_balance -ℤ fee

-- the mutable variables of `plan`
pub record PlanState : Type 0 where
  pub working : String → ℤ
  pub intents : List TransferIntent
  pub shortfalls : List PayrollShortfall
  pub run_total : ℤ

abbrev pub sum_working : (String → ℤ) → List TreasuryAccount → ℤ
sum_working working [] = pos 0
sum_working working (a ∷ rest) = working a.id +ℤ sum_working working rest

-- a hundred times what an account holds above its target share of `total`
abbrev pub surplus : ℤ → (String → ℤ) → TreasuryAccount → ℤ
surplus total working a = pos 100 *ℤ working a.id -ℤ a.target_pct *ℤ total

-- `sort` by falling surplus: stable, so of equal accounts the earlier stays in front
unfoldable pub insert_by :
    (TreasuryAccount → ℤ) → TreasuryAccount → List TreasuryAccount → List TreasuryAccount
insert_by key a [] = a ∷ []
insert_by key a (b ∷ rest) =
    if ltb_ℤ (key a) (key b) then b ∷ insert_by key a rest else a ∷ b ∷ rest

unfoldable pub sort_by : (TreasuryAccount → ℤ) → List TreasuryAccount → List TreasuryAccount
sort_by key [] = []
sort_by key (a ∷ rest) = insert_by key a (sort_by key rest)

-- the variables before the first payment
abbrev pub plan_start : BalanceSnapshot → PlanState
plan_start balances = record {
  working = λ id. elim (balance_of balances id) [ none ↦ pos 0 | some v ↦ v ];
  intents = [];
  shortfalls = [];
  run_total = pos 0;
}

module _ (policy : TreasuryPolicy) where
  abbrev pub can_fund : PayrollEntry → (String → ℤ) → TreasuryAccount → Bool
  can_fund entry working a =
      str_eq a.chain entry.chain
      && leb_ℤ entry.amount (headroom a (working a.id) policy.fee_buffer_per_tx)

  abbrev pub can_give : ℤ → ℤ → (String → ℤ) → TreasuryAccount → TreasuryAccount → Bool
  can_give min_move total working receiver a =
      not (str_eq a.id receiver.id)
      && (leb_ℤ (pos 100 *ℤ min_move) (surplus total working a)
          && leb_ℤ min_move (headroom a (working a.id) policy.fee_buffer_per_tx))

  unfoldable pub move_size : ℤ → TreasuryAccount → TreasuryAccount → PlanState → ℤ
  move_size total donor receiver s =
      min_ℤ
        (min_ℤ (floor_div (surplus total s.working donor) 100)
          (floor_div (pos 0 -ℤ surplus total s.working receiver) 100))
        (min_ℤ (headroom donor (s.working donor.id) policy.fee_buffer_per_tx)
          (min_ℤ policy.per_tx_cap (policy.per_run_cap -ℤ s.run_total)))

module _ (c : Crypto) (policy : TreasuryPolicy) (run_id : String) where
  -- the closure `push`, at the position that the next intent takes
  unfoldable pub new_intent : ℕ → IntentKind → TreasuryAccount → IntentDest → ℤ → TransferIntent
  new_intent index kind source to amount = record {
    intent_id = compute_intent_id c run_id index kind to.address to.chain amount;
    kind = kind;
    from = record { account_id = source.id; chain = source.chain; address = source.address };
    to = to;
    amount = amount;
  }

  abbrev pub fall_short : PayrollEntry → ShortfallReason → PlanState → PlanState
  fall_short entry reason s = record s {
    shortfalls = s.shortfalls ++ record { entry = entry; reason = reason } ∷ [];
  }

  -- the payment of one entry from an account that can fund it
  unfoldable pub fund : PayrollEntry → TreasuryAccount → PlanState → PlanState
  fund entry source s = record {
    working =
        update s.working source.id
          (s.working source.id -ℤ (entry.amount +ℤ policy.fee_buffer_per_tx));
    intents =
        s.intents
        ++ new_intent (length s.intents) payroll source
            (record { address = entry.recipient; chain = entry.chain; label = entry.label })
            entry.amount
          ∷ [];
    shortfalls = s.shortfalls;
    run_total = s.run_total +ℤ entry.amount;
  }

  -- one round of the payroll loop
  unfoldable pub pay_entry : PayrollEntry → PlanState → PlanState
  pay_entry entry s =
      if leb_ℤ entry.amount (pos 0)
      then fall_short entry ShortfallReason.non_positive s
      else if ltb_ℤ policy.per_tx_cap entry.amount
      then fall_short entry ShortfallReason.over_tx_cap s
      else if ltb_ℤ policy.per_run_cap (s.run_total +ℤ entry.amount)
      then fall_short entry ShortfallReason.over_run_cap s
      else elim (find (can_fund policy entry s.working) policy.accounts) [
        | none ↦ fall_short entry ShortfallReason.no_funding s
        | some source ↦ fund entry source s
      ]

  unfoldable pub pay_all : List PayrollEntry → PlanState → PlanState
  pay_all [] s = s
  pay_all (entry ∷ rest) s = pay_all rest (pay_entry entry s)

  unfoldable pub move_funds : TreasuryAccount → TreasuryAccount → ℤ → PlanState → PlanState
  move_funds donor receiver move s =
      let spent =
        update s.working donor.id (s.working donor.id -ℤ (move +ℤ policy.fee_buffer_per_tx)) in
      record {
        working = update spent receiver.id (spent receiver.id +ℤ move);
        intents =
            s.intents
            ++ new_intent (length s.intents) rebalance donor
                (record {
                  address = receiver.address;
                  chain = receiver.chain;
                  label = receiver.label;
                })
                move
              ∷ [];
        shortfalls = s.shortfalls;
        run_total = s.run_total +ℤ move;
      }

  -- One round of the rebalancing loop: `none` is its `break`.
  unfoldable pub rebalance_round : ℤ → ℤ → PlanState → Option PlanState
  rebalance_round min_move total s =
      let by_delta = sort_by (surplus total s.working) policy.accounts in
      elim (last? by_delta) [
        | none ↦ none
        | some receiver ↦ elim (find (can_give policy min_move total s.working receiver) by_delta) [
          | none ↦ none
          | some donor ↦
              let move = move_size policy total donor receiver s in
              if ltb_ℤ move min_move then none else some (move_funds donor receiver move s)
        ]
      ]

  -- `for (let guard = 0; guard < 100; guard++)`, on the rounds left
  unfoldable pub rebalance_from : ℕ → ℤ → ℤ → PlanState → PlanState
  rebalance_from zero min_move total s = s
  rebalance_from (suc rounds) min_move total s = elim (rebalance_round min_move total s) [
    | none ↦ s
    | some s' ↦ rebalance_from rounds min_move total s'
  ]

  -- both phases, from the snapshot's balances
  unfoldable pub plan_states : ℤ → BalanceSnapshot → PlanState
  plan_states min_move balances =
      let paid = pay_all policy.payroll (plan_start balances) in
      rebalance_from 100 min_move (sum_working paid.working policy.accounts) paid

  -- the plan's body and its hash
  unfoldable pub plan_of : BalanceSnapshot → PlanState → ExecutionPlan
  plan_of balances end =
      let body : PlanBody = record {
        run_id = run_id;
        policy_id = policy.policy_id;
        balances = balances;
        intents = end.intents;
        shortfalls = end.shortfalls;
      } in
      record { body = body; plan_hash = compute_plan_hash c body }

  unfoldable pub plan : ℤ → BalanceSnapshot → Result PlanError ExecutionPlan
  plan min_move balances = do
    validate_policy policy
    check_snapshots balances policy.accounts
    ok (plan_of balances (plan_states min_move balances))
