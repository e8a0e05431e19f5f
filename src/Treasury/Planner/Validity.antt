-- ===== src/Treasury/Planner/Validity.antt =====
-- What the checks of roster/treasury-ops/planner.ts establish about a policy and a snapshot.
use dacs_agent_reference.Common.{
  String, false, List, [], ◌∷◌, ◌≡◌, refl, ◌≢◌, inl, inr, arith, All, any, All-map, str_eq,
  str-cases, Option-cases, sym,
}
use dacs_agent_reference.Common.Result.{ok}
use dacs_agent_reference.Treasury.Types.{TreasuryAccount, TreasuryPolicy, BalanceSnapshot}
use dacs_agent_reference.Treasury.Approval.{balance_of, load_balances, note_balance, Working}
use dacs_agent_reference.Treasury.Approval.Accounts.{Distinct}
use dacs_agent_reference.Treasury.Planner.{validate_accounts, validate_policy, check_snapshots}

Unseen : List String → TreasuryAccount → Type 0
Unseen seen a = any (λ k. str_eq k a.id) seen ≡ false

Unseen-new :
    (id : String) (seen : List String) (a : TreasuryAccount)
    → Unseen (id ∷ seen) a
    → (a.id ≢ id) × Unseen seen a
unfolding Unseen
Unseen-new id seen a h = elim (str-cases id a.id) [
  | inl (t, e) ↦ absurd (ground arith)
  | inr (f, ne) ↦ ((λ e. ne (sym e)), ground arith)
]

-- Accounts that pass have distinct ids, none of them seen before.
validate_accounts-Distinct :
    (seen : List String) (l : List TreasuryAccount)
    → validate_accounts seen l ≡ ok tt
    → Distinct l × All (Unseen seen) l
unfolding validate_accounts Unseen
validate_accounts-Distinct seen [] h = (tt, tt)
validate_accounts-Distinct seen (a ∷ rest) h =
    let rest_ok : validate_accounts (a.id ∷ seen) rest ≡ ok tt = ground arith in
    let (distinct, unseen) = validate_accounts-Distinct (a.id ∷ seen) rest rest_ok in
    (
      (
        All-map {P = Unseen (a.id ∷ seen)} (λ b u. (Unseen-new a.id seen b u).0) rest unseen,
        distinct,
      ),
      (
        ground arith,
        All-map {P = Unseen (a.id ∷ seen)} (λ b u. (Unseen-new a.id seen b u).1) rest unseen,
      ),
    )

pub validate_policy-Distinct :
    (policy : TreasuryPolicy) → validate_policy policy ≡ ok tt → Distinct policy.accounts
unfolding validate_policy
validate_policy-Distinct policy h =
    let accounts : validate_accounts [] policy.accounts ≡ ok tt = ground arith in
    (validate_accounts-Distinct [] policy.accounts accounts).0

-- Every account has a snapshot, so the gate misses none.
pub check_snapshots-load_balances :
    (balances : BalanceSnapshot) (l : List TreasuryAccount) (w : Working)
    → check_snapshots balances l ≡ ok tt
    → (load_balances balances l w).0 ≡ []
unfolding check_snapshots load_balances
check_snapshots-load_balances balances [] w h = refl
check_snapshots-load_balances balances (a ∷ rest) w h =
    elim (Option-cases (balance_of balances a.id)) [
      | inl e ↦ absurd (ground arith)
      | inr (v, e) ↦
          rw e
            (check_snapshots-load_balances balances rest (note_balance balances a w) (ground arith))
    ]
