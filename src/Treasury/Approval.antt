-- ===== src/Treasury/Approval.antt =====
-- roster/treasury-ops/approval.ts, with the two hash functions of planner.ts: the gate checks a
-- plan against the policy from scratch and signs it only if nothing is wrong.
pub mod Accounts
pub mod Sound
pub mod Floors
use Prim.Native.String
use dacs_agent_reference.Common.{
  ℕ, suc, String, Bool, not, ◌&&◌, Option, none, some, List, [], ◌∷◌, ◌++◌, any, find,
  if◌then◌else◌, str_eq, update,
}
use dacs_agent_reference.Common.Int.{ℤ, pos, ◌+ℤ◌, ◌-ℤ◌, ltb_ℤ, leb_ℤ}
use dacs_agent_reference.Treasury.Types.{
  TreasuryAccount, TreasuryPolicy, IntentKind, payroll, rebalance, IntentDest, TransferIntent,
  BalanceSnapshot, PlanBody, ExecutionPlan, ApprovalToken, ViolationCode, Violation, ApprovalResult,
  approved, rejected, Crypto, Signer,
}

-- The parts of a template, with "|" between them.
abbrev pub join_bars : List String → String
join_bars [] = ""
join_bars (a ∷ []) = a
join_bars (a ∷ b ∷ rest) = String.◌++◌ a (String.◌++◌ "|" (join_bars (b ∷ rest)))

abbrev pub kind_text : IntentKind → String
kind_text payroll = "payroll"
kind_text rebalance = "rebalance"

unfoldable pub compute_intent_id : Crypto → String → ℕ → IntentKind → String → String → ℤ → String
compute_intent_id c run_id index kind recipient chain amount = c.sha256_hex (
    join_bars (
      run_id
      ∷ c.show_number (pos index)
      ∷ kind_text kind
      ∷ recipient
      ∷ chain
      ∷ c.show_number amount
      ∷ []))

unfoldable pub compute_plan_hash : Crypto → PlanBody → String
compute_plan_hash c body = c.sha256_hex (c.canonical_body body)

-- `balances[id]`
unfoldable pub balance_of : BalanceSnapshot → String → Option ℤ
balance_of [] id = none
balance_of ((k, v) ∷ rest) id = if str_eq k id then some v else balance_of rest id

-- `new Map(accounts.map((a) => [a.id, a])).get(id)`: of two accounts with one id the later counts.
unfoldable pub by_id : List TreasuryAccount → String → Option TreasuryAccount
by_id [] id = none
by_id (a ∷ rest) id = elim (by_id rest id) [
  | some b ↦ some b
  | none ↦ if str_eq a.id id then some a else none
]

abbrev pub flag : Bool → ViolationCode → Option String → List Violation
flag bad code id = if bad then record { code = code; intent_id = id } ∷ [] else []

-- accountId -> simulated balance, for the accounts that have a snapshot
abbrev pub Working : Type 0
Working = String → Option ℤ

pub record GateState : Type 0 where
  pub working : Working
  pub run_total : ℤ

abbrev pub is_at : IntentDest → TreasuryAccount → Bool
is_at to a = str_eq a.address to.address && str_eq a.chain to.chain

module _ (policy : TreasuryPolicy) where
  unfoldable pub recipient_ok : IntentKind → IntentDest → Bool
  recipient_ok payroll to =
      any (λ e. str_eq e.address to.address && str_eq e.chain to.chain) policy.allowlist
  recipient_ok rebalance to = any (is_at to) policy.accounts

  -- the policy account that an intent names as its source, if chain and address agree
  unfoldable pub source_of : TransferIntent → Option TreasuryAccount
  source_of x = elim (by_id policy.accounts x.from.account_id) [
    | none ↦ none
    | some a ↦
        if str_eq a.chain x.from.chain && str_eq a.address x.from.address then some a else none
  ]

  -- a rebalance credit lands back in a treasury account
  unfoldable pub credit : Working → IntentDest → ℤ → Working
  credit w to amount = elim (find (is_at to) policy.accounts) [
    | none ↦ w
    | some dest ↦ elim (w dest.id) [ none ↦ w | some b ↦ update w dest.id (some (b +ℤ amount)) ]
  ]

  unfoldable pub simulate : Working → TreasuryAccount → TransferIntent → List Violation × Working
  simulate w source x = elim (w source.id) [
    | none ↦ ([], w)
    | some b ↦
        let left = b -ℤ (x.amount +ℤ policy.fee_buffer_per_tx) in
        (
          flag (ltb_ℤ left source.min_balance) ViolationCode.floor_breach (some x.intent_id),
          credit (update w source.id (some left)) x.to x.amount,
        )
  ]

abbrev pub missing_flag : Option ℤ → List Violation
missing_flag none = flag Bool.true ViolationCode.missing_balance none
missing_flag (some v) = []

unfoldable pub note_balance : BalanceSnapshot → TreasuryAccount → Working → Working
note_balance balances a w = elim (balance_of balances a.id) [
  | none ↦ w
  | some v ↦ update w a.id (some v)
]

-- the snapshots of the policy's accounts; a missing one is flagged
unfoldable pub load_balances :
    BalanceSnapshot → List TreasuryAccount → Working → List Violation × Working
load_balances balances [] w = ([], w)
load_balances balances (a ∷ rest) w =
    let (flags, w') = load_balances balances rest (note_balance balances a w) in
    (missing_flag (balance_of balances a.id) ++ flags, w')

module _ (c : Crypto) (policy : TreasuryPolicy) where
  -- one round of the loop over the intents
  unfoldable pub check_intent : String → ℕ → TransferIntent → GateState → List Violation × GateState
  check_intent run_id index x s =
      let expected = compute_intent_id c run_id index x.kind x.to.address x.to.chain x.amount in
      let id_flags =
        flag (not (str_eq x.intent_id expected)) ViolationCode.intent_id_mismatch
          (some x.intent_id) in
      if leb_ℤ x.amount (pos 0)
      then (id_flags ++ flag Bool.true ViolationCode.non_positive_amount (some x.intent_id), s)
      else let flags =
          id_flags
          ++ (flag (ltb_ℤ policy.per_tx_cap x.amount) ViolationCode.per_tx_cap_exceeded
                (some x.intent_id)
              ++ flag (not (recipient_ok policy x.kind x.to))
                  ViolationCode.recipient_not_allowlisted (some x.intent_id)) in
        let total = s.run_total +ℤ x.amount in
        elim (source_of policy x) [
          | none ↦ (
            flags ++ flag Bool.true ViolationCode.unknown_account (some x.intent_id),
            record { working = s.working; run_total = total },
          )
          | some source ↦
              let (floor_flags, w) = simulate policy s.working source x in
              (flags ++ floor_flags, record { working = w; run_total = total })
        ]

  unfoldable pub check_intents :
      String → ℕ → List TransferIntent → GateState → List Violation × GateState
  check_intents run_id index [] s = ([], s)
  check_intents run_id index (x ∷ xs) s =
      let (here, s') = check_intent run_id index x s in
      let (later, s'') = check_intents run_id (suc index) xs s' in (here ++ later, s'')

  unfoldable pub violations : ExecutionPlan → List Violation
  violations plan =
      let body = plan.body in
      let (missing, working) = load_balances body.balances policy.accounts (λ id. none) in
      let (found, end) =
        check_intents body.run_id 0 body.intents
          (record { working = working; run_total = pos 0 }) in
      flag (not (str_eq body.policy_id policy.policy_id)) ViolationCode.plan_policy_mismatch none
      ++ (flag (not (str_eq plan.plan_hash (compute_plan_hash c body)))
            ViolationCode.plan_hash_mismatch none
          ++ (missing
              ++ (found
                  ++ flag (ltb_ℤ policy.per_run_cap end.run_total)
                      ViolationCode.per_run_cap_exceeded none)))

  abbrev pub token_for : ExecutionPlan → Signer → String → ApprovalToken
  token_for plan signer now = record {
    plan_hash = plan.plan_hash;
    policy_id = policy.policy_id;
    approved_at = now;
    approver_public_key = signer.public_key;
    signature = signer.sign_hash plan.plan_hash;
  }

  -- `now` is the clock's reading
  unfoldable pub approve : ExecutionPlan → Signer → String → ApprovalResult
  approve plan signer now = elim (violations plan) [
    | [] ↦ approved (token_for plan signer now)
    | v ∷ vs ↦ rejected (v ∷ vs)
  ]
