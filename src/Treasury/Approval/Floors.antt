-- ===== src/Treasury/Approval/Floors.antt =====
-- What the floor simulation of roster/treasury-ops/approval.ts guarantees: replaying an approved
-- plan on its snapshot leaves no account below its floor at any point.
use mathlib.Core.Path.{subst}
use dacs_agent_reference.Common.{
  ℕ, suc, String, none, some, List, [], ◌∷◌, ◌≡◌, refl, inl, inr, arith, All, All-map, All-map₂,
  All-find, find, append-eq-nil, str_eq, str-cases, str_eq_refl, update, Bool-cases, Option-cases,
  sym,
}
use dacs_agent_reference.Common.Int.{ℤ, pos, ◌+ℤ◌, ◌-ℤ◌, ltb_ℤ, ◌≤ℤ◌, ◌<ℤ◌, int_laws}
use dacs_agent_reference.Treasury.Types.{
  TreasuryAccount, TreasuryPolicy, IntentDest, TransferIntent, BalanceSnapshot, ExecutionPlan,
  ApprovalToken, ViolationCode, approved, Crypto, Signer,
}
use dacs_agent_reference.Treasury.Approval.{
  balance_of, is_at, Working, GateState, source_of, credit, simulate, check_intent, check_intents,
  load_balances, note_balance, missing_flag, violations, approve, flag,
}
use dacs_agent_reference.Treasury.Approval.Accounts.{Distinct, by_id-All, by_id-Distinct}
use dacs_agent_reference.Treasury.Approval.Sound.{
  source_of-by_id, approve-violations, check_intent_clean,
}

-- accountId -> balance
abbrev pub Book : Type 0
Book = String → ℤ

-- The balances that a plan's snapshot records.
abbrev pub snapshot : BalanceSnapshot → Book
snapshot balances id = elim (balance_of balances id) [ none ↦ pos 0 | some v ↦ v ]

module _ (policy : TreasuryPolicy) where
  -- A treasury account at the destination receives the amount.
  unfoldable pub receive : Book → IntentDest → ℤ → Book
  receive v to amount = elim (find (is_at to) policy.accounts) [
    | none ↦ v
    | some dest ↦ update v dest.id (v dest.id +ℤ amount)
  ]

  -- The effect of one transfer on the treasury's books: the source pays the amount and the fee
  -- buffer, and a treasury account at the destination receives the amount.
  unfoldable pub pay : Book → TransferIntent → Book
  pay v x =
      receive
        (update v x.from.account_id (v x.from.account_id -ℤ (x.amount +ℤ policy.fee_buffer_per_tx)))
        x.to x.amount

  -- No account is below its floor.
  abbrev pub AboveFloors : Book → Type 0
  AboveFloors v = All (λ a. a.min_balance ≤ℤ v a.id) policy.accounts

  -- No account is below its floor, now or after any number of the transfers.
  abbrev pub StaysAbove : Book → List TransferIntent → Type 0
  StaysAbove v [] = AboveFloors v
  StaysAbove v (x ∷ xs) = AboveFloors v × StaysAbove (pay v x) xs

  -- The gate's simulation holds the books' balance of each account.
  abbrev Agrees : Working → Book → Type 0
  Agrees w v = All (λ a. w a.id ≡ some (v a.id)) policy.accounts

  Agrees-update :
      (w : Working) (v : Book) (id : String) (b : ℤ)
      → Agrees w v
      → Agrees (update w id (some b)) (update v id b)
  Agrees-update w v id b h =
      All-map {P = λ a. w a.id ≡ some (v a.id)}
        (λ a e. elim (Bool-cases (str_eq id a.id)) [ inl t ↦ rw t refl | inr f ↦ rw f e ])
        policy.accounts h

  pub credit-none :
      (w : Working) (to : IntentDest) (amount : ℤ)
      → find (is_at to) policy.accounts ≡ none
      → credit policy w to amount ≡ w
  unfolding credit
  credit-none w to amount e = rw (e, credit) refl

  pub credit-some :
      (w : Working) (to : IntentDest) (amount b : ℤ) (d : TreasuryAccount)
      → find (is_at to) policy.accounts ≡ some d
      → w d.id ≡ some b
      → credit policy w to amount ≡ update w d.id (some (b +ℤ amount))
  unfolding credit
  credit-some w to amount b d e f = rw (e, f, credit) refl

  receive-none :
      (v : Book) (to : IntentDest) (amount : ℤ)
      → find (is_at to) policy.accounts ≡ none
      → receive v to amount ≡ v
  unfolding receive
  receive-none v to amount e = rw (e, receive) refl

  receive-some :
      (v : Book) (to : IntentDest) (amount : ℤ) (d : TreasuryAccount)
      → find (is_at to) policy.accounts ≡ some d
      → receive v to amount ≡ update v d.id (v d.id +ℤ amount)
  unfolding receive
  receive-some v to amount d e = rw (e, receive) refl

  Agrees-credit :
      (w : Working) (v : Book) (to : IntentDest) (amount : ℤ)
      → Agrees w v
      → Agrees (credit policy w to amount) (receive v to amount)
  Agrees-credit w v to amount h = elim (Option-cases (find (is_at to) policy.accounts)) [
    | inl e ↦ rw (credit-none w to amount e, receive-none v to amount e) h
    | inr (d, e) ↦
        let here = All-find (λ a. w a.id ≡ some (v a.id)) (is_at to) policy.accounts h e in
        rw (credit-some w to amount (v d.id) d e here, receive-some v to amount d e)
          (Agrees-update w v d.id (v d.id +ℤ amount) h)
  ]

  -- A debit that leaves the source above its floor leaves every account so.
  AboveFloors-debit :
      (v : Book) (source : TreasuryAccount) (left : ℤ)
      → All (λ b. b.id ≡ source.id → b ≡ source) policy.accounts
      → source.min_balance ≤ℤ left
      → AboveFloors v
      → AboveFloors (update v source.id left)
  AboveFloors-debit v source left one h k =
      All-map₂ {P = λ b. b.id ≡ source.id → b ≡ source} {Q = λ a. a.min_balance ≤ℤ v a.id}
        (λ b same above. elim (str-cases source.id b.id) [
          | inl (t, e) ↦ rw t (rw (same (sym e)) h)
          | inr (f, _) ↦ rw f above
        ])
        policy.accounts one k

  AboveFloors-credit :
      (v : Book) (id : String) (amount : ℤ)
      → pos 0 <ℤ amount
      → AboveFloors v
      → AboveFloors (update v id (v id +ℤ amount))
  AboveFloors-credit v id amount h k =
      All-map {P = λ a. a.min_balance ≤ℤ v a.id}
        (λ a above. elim (str-cases id a.id) [
          | inl (t, e) ↦ rw t (let up = rw (← e) at above in omega int_laws)
          | inr (f, _) ↦ rw f above
        ])
        policy.accounts k

  AboveFloors-receive :
      (v : Book) (to : IntentDest) (amount : ℤ)
      → pos 0 <ℤ amount
      → AboveFloors v
      → AboveFloors (receive v to amount)
  AboveFloors-receive v to amount h k = elim (Option-cases (find (is_at to) policy.accounts)) [
    | inl e ↦ rw (receive-none v to amount e) k
    | inr (d, e) ↦ rw (receive-some v to amount d e) (AboveFloors-credit v d.id amount h k)
  ]

  pay_from :
      (v : Book) (x : TransferIntent) (id : String)
      → id ≡ x.from.account_id
      → pay v x
        ≡ receive (update v id (v id -ℤ (x.amount +ℤ policy.fee_buffer_per_tx))) x.to x.amount
  unfolding pay
  pay_from v x id e = rw e refl

  pub simulate_held :
      (w : Working) (source : TreasuryAccount) (x : TransferIntent) (b : ℤ)
      → w source.id ≡ some b
      → let left = b -ℤ (x.amount +ℤ policy.fee_buffer_per_tx) in
        simulate policy w source x ≡ (
          flag (ltb_ℤ left source.min_balance) ViolationCode.floor_breach (some x.intent_id),
          credit policy (update w source.id (some left)) x.to x.amount,
        )
  unfolding simulate
  simulate_held w source x b e = rw (e, simulate) refl

  not_breached :
      (left floor : ℤ) (id : String)
      → flag (ltb_ℤ left floor) ViolationCode.floor_breach (some id) ≡ []
      → floor ≤ℤ left
  not_breached left floor id h = ground arith

  module _ (distinct : Distinct policy.accounts) where
    -- One intent that the simulation does not flag keeps the books above the floors.
    simulate-pay :
        (w : Working) (v : Book) (x : TransferIntent) (source : TreasuryAccount)
        → source_of policy x ≡ some source
        → pos 0 <ℤ x.amount
        → (simulate policy w source x).0 ≡ []
        → Agrees w v
        → AboveFloors v
        → Agrees (simulate policy w source x).1 (pay v x) × AboveFloors (pay v x)
    simulate-pay w v x source found positive clean agree above =
        let (named, _, _) = source_of-by_id policy x source found in
        let (held, same) = by_id-All _ policy.accounts x.from.account_id source agree named in
        let left = v source.id -ℤ (x.amount +ℤ policy.fee_buffer_per_tx) in
        let sim = simulate_held w source x (v source.id) held in
        let kept = not_breached left source.min_balance x.intent_id (rw sim at clean) in
        let one = by_id-Distinct policy.accounts x.from.account_id source distinct named in
        rw (sim, pay_from v x source.id same)
          (
            Agrees-credit (update w source.id (some left)) (update v source.id left) x.to x.amount
                (Agrees-update w v source.id left agree),
            AboveFloors-receive (update v source.id left) x.to x.amount positive (
                AboveFloors-debit v source left
                  (subst (λ i. All (λ b. b.id ≡ i → b ≡ source) policy.accounts) (sym same) one)
                  kept above),
          )

module _ (c : Crypto) (policy : TreasuryPolicy) where
  -- A clean round has found its source, and the simulation raised no flag.
  check_intent-simulate :
      (run_id : String) (index : ℕ) (x : TransferIntent) (s : GateState)
      → (check_intent c policy run_id index x s).0 ≡ []
      → (source : TreasuryAccount) × (source_of policy x ≡ some source)
        × ((simulate policy s.working source x).0 ≡ [])
        × ((check_intent c policy run_id index x s).1.working
            ≡ (simulate policy s.working source x).1)
  unfolding check_intent
  check_intent-simulate run_id index x s h = elim (Option-cases (source_of policy x)) [
    | inl e ↦ absurd (ground arith)
    | inr (a, e) ↦ (a, e, ground arith, ground arith)
  ]

  module _ (distinct : Distinct policy.accounts) where
    check_intents-StaysAbove :
        (run_id : String) (index : ℕ) (xs : List TransferIntent) (s : GateState) (v : Book)
        → (check_intents c policy run_id index xs s).0 ≡ []
        → All (λ a. s.working a.id ≡ some (v a.id)) policy.accounts
        → AboveFloors policy v
        → StaysAbove policy v xs
    unfolding check_intents
    check_intents-StaysAbove run_id index [] s v h agree above = above
    check_intents-StaysAbove run_id index (x ∷ xs) s v h agree above =
        let (now, later) = append-eq-nil (check_intent c policy run_id index x s).0 _ h in
        let (ok, _, _) = check_intent_clean c policy run_id index x s now in
        let (source, found, clean, next) = check_intent-simulate run_id index x s now in
        let (agree', above') =
          simulate-pay policy distinct s.working v x source found ok.positive clean agree above in
        (
          above,
          check_intents-StaysAbove run_id (suc index) xs (check_intent c policy run_id index x s).1
              (pay policy v x) later
              (subst (λ w. All (λ a. w a.id ≡ some (pay policy v x a.id)) policy.accounts)
                (sym next) agree')
              above',
        )

note_balance-held :
    (balances : BalanceSnapshot) (a : TreasuryAccount) (w : Working) (v : ℤ)
    → balance_of balances a.id ≡ some v
    → note_balance balances a w ≡ update w a.id (some v)
unfolding note_balance
note_balance-held balances a w v e = rw (e, note_balance) refl

note_balance-keeps :
    (balances : BalanceSnapshot) (a : TreasuryAccount) (w : Working) (id : String)
    → w id ≡ some (snapshot balances id)
    → note_balance balances a w id ≡ some (snapshot balances id)
unfolding note_balance
note_balance-keeps balances a w id h = elim (Option-cases (balance_of balances a.id)) [
  | inl e ↦ rw (e, note_balance) h
  | inr (v, e) ↦
      rw (e, note_balance)
        (elim (str-cases a.id id) [
          | inl (t, same) ↦ rw t (rw (← same) (rw (e, snapshot) refl))
          | inr (f, _) ↦ rw f h
        ])
]

load_balances-keeps :
    (balances : BalanceSnapshot) (l : List TreasuryAccount) (w : Working) (id : String)
    → w id ≡ some (snapshot balances id)
    → (load_balances balances l w).1 id ≡ some (snapshot balances id)
unfolding load_balances
load_balances-keeps balances [] w id h = h
load_balances-keeps balances (a ∷ rest) w id h =
    load_balances-keeps balances rest (note_balance balances a w) id
      (note_balance-keeps balances a w id h)

pub load_balances-agrees :
    (balances : BalanceSnapshot) (l : List TreasuryAccount) (w : Working)
    → (load_balances balances l w).0 ≡ []
    → All (λ a. (load_balances balances l w).1 a.id ≡ some (snapshot balances a.id)) l
unfolding load_balances
load_balances-agrees balances [] w h = tt
load_balances-agrees balances (a ∷ rest) w h =
    let (here, later) = append-eq-nil (missing_flag (balance_of balances a.id)) _ h in
    elim (Option-cases (balance_of balances a.id)) [
      | inl e ↦ absurd (ground arith)
      | inr (v, e) ↦ (
        load_balances-keeps balances rest (note_balance balances a w) a.id
            (rw (note_balance-held balances a w v e, str_eq_refl a.id) (rw (e, snapshot) refl)),
        load_balances-agrees balances rest (note_balance balances a w) later,
      )
    ]

-- If the accounts' ids are distinct, none starts below its floor, and the gate approves, then
-- carrying out the plan's transfers one by one, each with the fee buffer charged to its source,
-- leaves no account below its floor after any number of them.
pub approve-StaysAbove :
    (c : Crypto) (policy : TreasuryPolicy) (plan : ExecutionPlan) (signer : Signer) (now : String)
    (t : ApprovalToken)
    → Distinct policy.accounts
    → AboveFloors policy (snapshot plan.body.balances)
    → approve c policy plan signer now ≡ approved t
    → StaysAbove policy (snapshot plan.body.balances) plan.body.intents
unfolding violations
approve-StaysAbove c policy plan signer now t distinct above h =
    let clean = (approve-violations c policy plan signer now t h).0 in
    let (_, h1) = append-eq-nil _ _ clean in
    let (_, h2) = append-eq-nil _ _ h1 in
    let (missing, h3) = append-eq-nil _ _ h2 in
    let (found, _) = append-eq-nil _ _ h3 in
    check_intents-StaysAbove c policy distinct plan.body.run_id 0 plan.body.intents _
      (snapshot plan.body.balances) found
      (load_balances-agrees plan.body.balances policy.accounts (λ id. none) missing) above
