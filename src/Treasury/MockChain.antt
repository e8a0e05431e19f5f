-- ===== src/Treasury/MockChain.antt =====
-- roster/treasury-ops/mock-chain.ts: balances of all chains in one map, a flat fee, and injected
-- failures. The hash in a transaction's reference is a parameter.
pub mod Conservation
use Prim.Native.String
use dacs_agent_reference.Common.{
  ℕ, zero, suc, String, Bool, Option, none, some, List, [], ◌∷◌, any, if◌then◌else◌, str_eq,
}
use dacs_agent_reference.Common.Int.{ℤ, pos, ◌+ℤ◌, ◌-ℤ◌, ltb_ℤ}
use dacs_agent_reference.Treasury.Types.{TransferIntent}
use dacs_agent_reference.Treasury.Executor.{Attempt, done, failed, crashed, ChainPorts}

pub data FailureMode : Type 0 where
  fail crash : FailureMode

pub record FailureInjection : Type 0 where
  pub times : ℕ
  pub mode : FailureMode

pub record MockChain : Type 0 where
  pub balances : List (String × ℤ)
  pub failures : List (String × FailureInjection)
  pub fee_per_transfer : ℤ
  pub fees_collected : ℤ

-- `Map.get`
unfoldable pub lookup {ℓ} : {V : Type ℓ} → String → List (String × V) → Option V
lookup key [] = none
lookup key ((k, v) ∷ rest) = if str_eq k key then some v else lookup key rest

-- `Map.set`: a new key comes last
unfoldable pub insert {ℓ} : {V : Type ℓ} → String → V → List (String × V) → List (String × V)
insert key v [] = (key, v) ∷ []
insert key v ((k, w) ∷ rest) = if str_eq k key then (k, v) ∷ rest else (k, w) ∷ insert key v rest

-- `get(key) ?? 0`
abbrev pub or_zero : Option ℤ → ℤ
or_zero none = pos 0
or_zero (some v) = v

unfoldable pub key : String → String → String
key chain address = String.◌++◌ chain (String.◌++◌ ":" address)

unfoldable pub get_balance : MockChain → String → String → ℤ
get_balance m chain address = or_zero (lookup (key chain address) m.balances)

abbrev pub injected_error : FailureMode → Attempt String
injected_error FailureMode.fail = failed
injected_error FailureMode.crash = crashed

module _ (tx_ref : TransferIntent → String) where
  -- the transfer itself, once no failure is injected
  unfoldable pub move : MockChain → TransferIntent → MockChain × Attempt String
  move m x =
      let from_key = key x.from.chain x.from.address in
      let to_key = key x.to.chain x.to.address in
      let from_balance = or_zero (lookup from_key m.balances) in
      let total_debit = x.amount +ℤ m.fee_per_transfer in
      if ltb_ℤ from_balance total_debit
      then (m, failed)
      else let debited = insert from_key (from_balance -ℤ total_debit) m.balances in
        (
          record m {
            balances = insert to_key (or_zero (lookup to_key debited) +ℤ x.amount) debited;
            fees_collected = m.fees_collected +ℤ m.fee_per_transfer;
          },
          done (tx_ref x),
        )

  -- an injection with `times` attempts left to fail
  unfoldable pub spend : MockChain → TransferIntent → FailureMode → ℕ → MockChain × Attempt String
  spend m x mode zero = move m x
  spend m x mode (suc n) = (
    record m { failures = insert x.intent_id (record { times = n; mode = mode }) m.failures },
    injected_error mode,
  )

  unfoldable pub inject :
      MockChain → TransferIntent → Option FailureInjection → MockChain × Attempt String
  inject m x none = move m x
  inject m x (some i) = spend m x i.mode i.times

  unfoldable pub transfer : MockChain → TransferIntent → MockChain × Attempt String
  transfer m x = inject m x (lookup x.intent_id m.failures)

  -- `portsFor`: the one chain behind every chain id; its balances can always be read
  abbrev pub ports_for : List String → ChainPorts MockChain
  ports_for ids = record {
    registered = λ id. any (λ k. str_eq k id) ids;
    get_balance = λ m chain address. done (get_balance m chain address);
    transfer = transfer;
  }
