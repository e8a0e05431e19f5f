-- ===== src/Treasury/MockChain/Conservation.antt =====
-- roster/treasury-ops/mock-chain.ts keeps the money: what leaves a balance arrives at another or in
-- the fees, and no balance falls below zero.
use dacs_agent_reference.Common.{
  ℕ, zero, suc, String, Bool, Option, List, [], ◌∷◌, ◌≡◌, refl, inl, inr, arith, All, str_eq,
  Bool-cases, Option-cases, ◌∙◌,
}
use dacs_agent_reference.Common.Int.{ℤ, pos, ◌+ℤ◌, ◌-ℤ◌, ltb_ℤ, ◌≤ℤ◌, ◌<ℤ◌, int_laws}
use dacs_agent_reference.Treasury.Types.{
  TransferIntent, TreasuryPolicy, ExecutionPlan, ApprovalToken, approved, Crypto, Signer,
}
use dacs_agent_reference.Treasury.Approval.{approve, compute_plan_hash}
use dacs_agent_reference.Treasury.Executor.{World, execute}
use dacs_agent_reference.Treasury.Executor.Gatekeeping.{execute-approved}
use dacs_agent_reference.Treasury.MockChain.{
  FailureInjection, MockChain, lookup, insert, or_zero, key, FailureMode, move, spend, inject,
  transfer, ports_for,
}

abbrev pub sum : List (String × ℤ) → ℤ
sum [] = pos 0
sum ((k, v) ∷ rest) = v +ℤ sum rest

sum-insert :
    (k : String) (v : ℤ) (l : List (String × ℤ))
    → sum (insert k v l) +ℤ or_zero (lookup k l) ≡ sum l +ℤ v
unfolding insert lookup
sum-insert k v [] = omega int_laws
sum-insert k v ((j, w) ∷ rest) = grind (int_laws, sum-insert k v rest)

-- Everything that the mock chain holds: the balances and the fees it took.
abbrev pub holdings : MockChain → ℤ
holdings m = sum m.balances +ℤ m.fees_collected

-- No balance is negative.
abbrev pub IsSolvent : MockChain → Type 0
IsSolvent m = All (λ e. pos 0 ≤ℤ e.1) m.balances

insert-IsSolvent :
    (k : String) (v : ℤ) (l : List (String × ℤ))
    → pos 0 ≤ℤ v
    → All (λ e. pos 0 ≤ℤ e.1) l
    → All (λ e. pos 0 ≤ℤ e.1) (insert k v l)
unfolding insert
insert-IsSolvent k v [] p h = (p, tt)
insert-IsSolvent k v ((j, w) ∷ rest) p h = elim (Bool-cases (str_eq j k)) [
  | inl t ↦ rw t (p, h.1)
  | inr f ↦ rw f (h.0, insert-IsSolvent k v rest p h.1)
]

lookup-solvent :
    (k : String) (l : List (String × ℤ)) → All (λ e. pos 0 ≤ℤ e.1) l → pos 0 ≤ℤ or_zero (lookup k l)
unfolding lookup
lookup-solvent k [] h = omega arith
lookup-solvent k ((j, w) ∷ rest) h = elim (Bool-cases (str_eq j k)) [
  | inl t ↦ rw t h.0
  | inr f ↦ rw f (lookup-solvent k rest h.1)
]

left_nonneg : (a b : ℤ) → ltb_ℤ a b ≡ Bool.false → pos 0 ≤ℤ a -ℤ b
left_nonneg a b h = let le : b ≤ℤ a = ground arith in omega int_laws

sum_nonneg : (a b : ℤ) → pos 0 ≤ℤ a → pos 0 <ℤ b → pos 0 ≤ℤ a +ℤ b
sum_nonneg a b h p = omega int_laws

debit_credit :
    (s s' s'' from to amount fee fees : ℤ)
    → s' +ℤ from ≡ s +ℤ (from -ℤ (amount +ℤ fee))
    → s'' +ℤ to ≡ s' +ℤ (to +ℤ amount)
    → s'' +ℤ (fees +ℤ fee) ≡ s +ℤ fees
debit_credit s s' s'' from to amount fee fees p q = grind int_laws

module _ (tx_ref : TransferIntent → String) where
  move-holdings :
      (m : MockChain) (x : TransferIntent)
      → (holdings (move tx_ref m x).0 ≡ holdings m)
        × ((move tx_ref m x).0.fee_per_transfer ≡ m.fee_per_transfer)
  unfolding move
  move-holdings m x =
      let from_key = key x.from.chain x.from.address in
      let to_key = key x.to.chain x.to.address in
      let from_balance = or_zero (lookup from_key m.balances) in
      let debit = x.amount +ℤ m.fee_per_transfer in
      let debited = insert from_key (from_balance -ℤ debit) m.balances in
      elim (Bool-cases (ltb_ℤ from_balance debit)) [
        | inl t ↦ rw t (refl, refl)
        | inr f ↦ rw f (
          debit_credit _ _ _ from_balance (or_zero (lookup to_key debited)) x.amount
              m.fee_per_transfer m.fees_collected
              (sum-insert from_key (from_balance -ℤ debit) m.balances)
              (sum-insert to_key (or_zero (lookup to_key debited) +ℤ x.amount) debited),
          refl,
        )
      ]

  move-IsSolvent :
      (m : MockChain) (x : TransferIntent)
      → pos 0 <ℤ x.amount
      → IsSolvent m
      → IsSolvent (move tx_ref m x).0
  unfolding move
  move-IsSolvent m x p h =
      let from_key = key x.from.chain x.from.address in
      let to_key = key x.to.chain x.to.address in
      let from_balance = or_zero (lookup from_key m.balances) in
      let debit = x.amount +ℤ m.fee_per_transfer in
      let debited = insert from_key (from_balance -ℤ debit) m.balances in
      elim (Bool-cases (ltb_ℤ from_balance debit)) [
        | inl t ↦ rw t h
        | inr f ↦ rw f (
            let enough = left_nonneg from_balance debit f in
            let after = insert-IsSolvent from_key (from_balance -ℤ debit) m.balances enough h in
            let held = lookup-solvent to_key debited after in
            insert-IsSolvent to_key (or_zero (lookup to_key debited) +ℤ x.amount) debited
              (sum_nonneg (or_zero (lookup to_key debited)) x.amount held p) after)
      ]

  spend-moves :
      (P : MockChain → Type 0) (m : MockChain) (x : TransferIntent) (mode : FailureMode) (n : ℕ)
      → P (move tx_ref m x).0
      → ((l : List (String × FailureInjection)) → P (record m { failures = l }))
      → P (spend tx_ref m x mode n).0
  unfolding spend
  spend-moves P m x mode zero h k = h
  spend-moves P m x mode (suc n) h k = k _

  -- A transfer moves money, or only uses up an injected failure.
  transfer-moves :
      (P : MockChain → Type 0) (m : MockChain) (x : TransferIntent)
      → P (move tx_ref m x).0
      → ((l : List (String × FailureInjection)) → P (record m { failures = l }))
      → P (transfer tx_ref m x).0
  unfolding transfer inject
  transfer-moves P m x h k = elim (Option-cases (lookup x.intent_id m.failures)) [
    | inl e ↦ rw e h
    | inr (i, e) ↦ rw e (spend-moves P m x i.mode i.times h k)
  ]

  -- A transfer on the mock chain, whether it goes through, fails or crashes, changes neither the
  -- sum of all balances and collected fees nor the size of the fee.
  pub transfer-holdings :
      (m : MockChain) (x : TransferIntent)
      → (holdings (transfer tx_ref m x).0 ≡ holdings m)
        × ((transfer tx_ref m x).0.fee_per_transfer ≡ m.fee_per_transfer)
  transfer-holdings m x =
      transfer-moves (λ n. (holdings n ≡ holdings m) × (n.fee_per_transfer ≡ m.fee_per_transfer)) m
        x (move-holdings m x) (λ l. (refl, refl))

  transfer-IsSolvent :
      (m : MockChain) (x : TransferIntent)
      → pos 0 <ℤ x.amount
      → IsSolvent m
      → IsSolvent (transfer tx_ref m x).0
  transfer-IsSolvent m x p h = transfer-moves IsSolvent m x (move-IsSolvent m x p h) (λ l. h)

  -- If the gate approved a plan with this token and no other plan body has the same hash, then any
  -- call of the executor with the token on a mock chain with no negative balance leaves no balance
  -- negative and keeps the sum of all balances and fees.
  pub execute-IsSolvent :
      (ids : List String) (c : Crypto) (policy : TreasuryPolicy) (plan other : ExecutionPlan)
      (signer : Signer) (now : String) (token : ApprovalToken) (trusted : Option (List String))
      (s : World MockChain)
      → approve c policy plan signer now ≡ approved token
      → (compute_plan_hash c other.body ≡ compute_plan_hash c plan.body → other.body ≡ plan.body)
      → IsSolvent s.chain
      → let m = (execute (ports_for tx_ref ids) c other token trusted s).1.chain in
        IsSolvent m × (holdings m ≡ holdings s.chain)
  execute-IsSolvent ids c policy plan other signer now token trusted s approval unique h =
      execute-approved (ports_for tx_ref ids) (λ m. IsSolvent m × (holdings m ≡ holdings s.chain)) c
        policy plan other signer now token trusted s approval unique
        (λ x good m k. (transfer-IsSolvent m x good.positive k.0, (transfer-holdings m x).0 ∙ k.1))
        (h, refl)
