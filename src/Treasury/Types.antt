-- ===== src/Treasury/Types.antt =====
-- roster/treasury-ops/types.ts. Amounts are integer base units. Texts meant for people only (the
-- `detail` of a violation, the `rationale` of an intent) are left out; the reason of a shortfall
-- is a constructor.
use dacs_agent_reference.Common.{String, Bool, Option, List}
use dacs_agent_reference.Common.Int.{ℤ}

pub record TreasuryAccount : Type 0 where
  pub id : String
  pub chain : String
  pub address : String
  pub label : String
  pub min_balance : ℤ
  -- in percent
  pub target_pct : ℤ

pub record AllowlistEntry : Type 0 where
  pub address : String
  pub chain : String
  pub label : String

pub record PayrollEntry : Type 0 where
  pub recipient : String
  pub chain : String
  pub amount : ℤ
  pub label : String
  pub period : String

pub record TreasuryPolicy : Type 0 where
  pub policy_id : String
  pub accounts : List TreasuryAccount
  pub allowlist : List AllowlistEntry
  pub payroll : List PayrollEntry
  pub per_tx_cap : ℤ
  pub per_run_cap : ℤ
  pub fee_buffer_per_tx : ℤ

pub data IntentKind : Type 0 where
  payroll rebalance : IntentKind

pub record IntentSource : Type 0 where
  pub account_id : String
  pub chain : String
  pub address : String

pub record IntentDest : Type 0 where
  pub address : String
  pub chain : String
  pub label : String

pub record TransferIntent : Type 0 where
  pub intent_id : String
  pub kind : IntentKind
  pub from : IntentSource
  pub to : IntentDest
  pub amount : ℤ

pub data ShortfallReason : Type 0 where
  non_positive over_tx_cap over_run_cap no_funding : ShortfallReason

pub record PayrollShortfall : Type 0 where
  pub entry : PayrollEntry
  pub reason : ShortfallReason

-- accountId -> balance
abbrev pub BalanceSnapshot : Type 0
BalanceSnapshot = List (String × ℤ)

-- `Omit<ExecutionPlan, "planHash">`, what the hash covers.
pub record PlanBody : Type 0 where
  pub run_id : String
  pub policy_id : String
  pub balances : BalanceSnapshot
  pub intents : List TransferIntent
  pub shortfalls : List PayrollShortfall

pub record ExecutionPlan : Type 0 where
  pub body : PlanBody
  pub plan_hash : String

pub record ApprovalToken : Type 0 where
  pub plan_hash : String
  pub policy_id : String
  pub approved_at : String
  pub approver_public_key : String
  pub signature : String

pub data ViolationCode : Type 0 where
  plan_policy_mismatch plan_hash_mismatch intent_id_mismatch : ViolationCode
  recipient_not_allowlisted per_tx_cap_exceeded per_run_cap_exceeded : ViolationCode
  floor_breach unknown_account non_positive_amount missing_balance : ViolationCode

pub record Violation : Type 0 where
  pub code : ViolationCode
  pub intent_id : Option String

pub data ApprovalResult : Type 0 where
  approved : ApprovalToken → ApprovalResult
  rejected : List Violation → ApprovalResult

-- What the program takes from node and from the language: the hash, the signatures and the text
-- of a number; and the canonical JSON text of a plan's body.
pub record Crypto : Type 0 where
  pub sha256_hex : String → String
  pub canonical_body : PlanBody → String
  pub show_number : ℤ → String
  pub verify_hash_signature : String → String → String → Bool

-- `TreasurySigner`
pub record Signer : Type 0 where
  pub public_key : String
  pub sign_hash : String → String
