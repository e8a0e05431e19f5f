-- ===== src/Treasury/Approval/Sound.antt =====
-- What an approval by roster/treasury-ops/approval.ts means for the approved plan.
use dacs_agent_reference.Common.{
  ℕ, suc, String, Bool, true, false, ◌&&◌, Option, none, some, List, [], ◌∷◌, ◌≡◌, refl, inl, inr,
  arith, All, Some, any-Some, append-eq-nil, and-true, not-false, str_eq, str_eq_iff, Bool-cases,
  Option-cases,
}
use dacs_agent_reference.Common.Int.{ℤ, pos, ◌+ℤ◌, ltb_ℤ, ◌≤ℤ◌, ◌<ℤ◌}
use dacs_agent_reference.Treasury.Types.{
  TreasuryAccount, TreasuryPolicy, IntentKind, payroll, rebalance, IntentDest, IntentSource,
  TransferIntent, ExecutionPlan, ApprovalToken, ViolationCode, approved, Crypto, Signer,
}
use dacs_agent_reference.Treasury.Approval.Accounts.{by_id-Some}
use dacs_agent_reference.Treasury.Approval.{
  compute_intent_id, compute_plan_hash, by_id, flag, GateState, recipient_ok, source_of,
  check_intent, check_intents, violations, approve,
}

-- The only addresses that a transfer may reach: a payroll payment an allowlist entry, a rebalance
-- one of the policy's accounts, on the same chain in both cases.
abbrev pub Reaches : TreasuryPolicy → IntentKind → IntentDest → Type 0
Reaches policy payroll to =
    Some (λ e. (e.address ≡ to.address) × (e.chain ≡ to.chain)) policy.allowlist
Reaches policy rebalance to =
    Some (λ a. (a.address ≡ to.address) × (a.chain ≡ to.chain)) policy.accounts

-- The policy account that an intent draws on.
abbrev pub DrawsOn : IntentSource → TreasuryAccount → Type 0
DrawsOn from a = (a.id ≡ from.account_id) × (a.chain ≡ from.chain) × (a.address ≡ from.address)

pub record IntentOk (policy : TreasuryPolicy) (x : TransferIntent) : Type 0 where
  pub positive : pos 0 <ℤ x.amount
  pub capped : x.amount ≤ℤ policy.per_tx_cap
  pub recipient : Reaches policy x.kind x.to
  pub source : Some (DrawsOn x.from) policy.accounts

-- The intents carry the ids that their contents and positions give them.
abbrev pub IdsMatch : Crypto → String → ℕ → List TransferIntent → Type 0
IdsMatch c run_id index [] = Unit
IdsMatch c run_id index (x ∷ xs) =
    (x.intent_id ≡ compute_intent_id c run_id index x.kind x.to.address x.to.chain x.amount)
    × IdsMatch c run_id (suc index) xs

abbrev pub total_amount : List TransferIntent → ℤ → ℤ
total_amount [] acc = acc
total_amount (x ∷ xs) acc = total_amount xs (acc +ℤ x.amount)

within_cap :
    (cap : ℤ) {r : ℤ} (t : ℤ)
    → r ≡ t
    → flag (ltb_ℤ cap r) ViolationCode.per_run_cap_exceeded none ≡ []
    → t ≤ℤ cap
within_cap cap {r} t e h = rw (← e) (ground arith)

pub flag-eq-nil :
    (bad : Bool) (code : ViolationCode) (id : Option String) → flag bad code id ≡ [] → bad ≡ false
flag-eq-nil true code id h = cc
flag-eq-nil false code id h = refl

pair-str : (a b s t : String) → (str_eq a s && str_eq b t) ≡ true → (a ≡ s) × (b ≡ t)
pair-str a b s t h =
    let (p, q) = and-true (str_eq a s) (str_eq b t) h in
    ((str_eq_iff a s).0 p, (str_eq_iff b t).0 q)

recipient_ok-Reaches :
    (policy : TreasuryPolicy) (kind : IntentKind) (to : IntentDest)
    → recipient_ok policy kind to ≡ true
    → Reaches policy kind to
unfolding recipient_ok
recipient_ok-Reaches policy payroll to h =
    any-Some _ _ (λ e p. pair-str e.address e.chain to.address to.chain p) policy.allowlist h
recipient_ok-Reaches policy rebalance to h =
    any-Some _ _ (λ a p. pair-str a.address a.chain to.address to.chain p) policy.accounts h

-- What `source_of` finds is the account of that id, at the intent's chain and address.
pub source_of-by_id :
    (policy : TreasuryPolicy) (x : TransferIntent) (a : TreasuryAccount)
    → source_of policy x ≡ some a
    → (by_id policy.accounts x.from.account_id ≡ some a)
      × (a.chain ≡ x.from.chain)
      × (a.address ≡ x.from.address)
unfolding source_of
source_of-by_id policy x a h = elim (Option-cases (by_id policy.accounts x.from.account_id)) [
  | inl e ↦ absurd (ground arith)
  | inr (d, e) ↦
      let g = rw (e, source_of) at h in
      elim (Bool-cases (str_eq d.chain x.from.chain && str_eq d.address x.from.address)) [
        | inr bad ↦ absurd (ground arith)
        | inl good ↦
            let it : d ≡ a = ground arith in
            let (p, q) = pair-str d.chain d.address x.from.chain x.from.address good in
            (rw it at e, rw it at p, rw it at q)
      ]
]

source_of-Some :
    (policy : TreasuryPolicy) (x : TransferIntent) (a : TreasuryAccount)
    → source_of policy x ≡ some a
    → Some (DrawsOn x.from) policy.accounts
source_of-Some policy x a h =
    let (e, p, q) = source_of-by_id policy x a h in
    by_id-Some policy.accounts x.from.account_id a (DrawsOn x.from) e (λ i. (i, p, q))

module _ (c : Crypto) (policy : TreasuryPolicy) where
  pub check_intent_clean :
      (run_id : String) (index : ℕ) (x : TransferIntent) (s : GateState)
      → (check_intent c policy run_id index x s).0 ≡ []
      → IntentOk policy x
        × (x.intent_id ≡ compute_intent_id c run_id index x.kind x.to.address x.to.chain x.amount)
        × ((check_intent c policy run_id index x s).1.run_total ≡ s.run_total +ℤ x.amount)
  unfolding check_intent
  check_intent_clean run_id index x s h = elim (Option-cases (source_of policy x)) [
    | inl e ↦ absurd (ground arith)
    | inr (a, e) ↦ (
      record {
        positive = ground arith;
        capped = ground arith;
        recipient = recipient_ok-Reaches policy x.kind x.to (ground arith);
        source = source_of-Some policy x a e;
      },
      (str_eq_iff _ _).0 (ground arith),
      ground arith,
    )
  ]

  check_intents_clean :
      (run_id : String) (index : ℕ) (xs : List TransferIntent) (s : GateState)
      → (check_intents c policy run_id index xs s).0 ≡ []
      → All (IntentOk policy) xs
        × IdsMatch c run_id index xs
        × ((check_intents c policy run_id index xs s).1.run_total ≡ total_amount xs s.run_total)
  unfolding check_intents
  check_intents_clean run_id index [] s h = (tt, tt, refl)
  check_intents_clean run_id index (x ∷ xs) s h =
      let (now, later) = append-eq-nil (check_intent c policy run_id index x s).0 _ h in
      let (good, id, total) = check_intent_clean run_id index x s now in
      let (rest, ids, end) =
        check_intents_clean run_id (suc index) xs (check_intent c policy run_id index x s).1
          later in
      ((good, rest), (id, ids), rw (← total) end)

-- What the gate has made sure of, for a plan that it approved.
pub record IsSound (c : Crypto) (policy : TreasuryPolicy) (plan : ExecutionPlan) : Type 0 where
  pub same_policy : plan.body.policy_id ≡ policy.policy_id
  pub sealed : plan.plan_hash ≡ compute_plan_hash c plan.body
  pub intents : All (IntentOk policy) plan.body.intents
  pub ids : IdsMatch c plan.body.run_id 0 plan.body.intents
  pub total : total_amount plan.body.intents (pos 0) ≤ℤ policy.per_run_cap

module _ (c : Crypto) (policy : TreasuryPolicy) (plan : ExecutionPlan) where
  pub violations_clean : violations c policy plan ≡ [] → IsSound c policy plan
  unfolding violations
  violations_clean h =
      let (a, h1) = append-eq-nil _ _ h in
      let (b, h2) = append-eq-nil _ _ h1 in
      let (_, h3) = append-eq-nil _ _ h2 in
      let (found, cap) = append-eq-nil _ _ h3 in
      let (good, ids, total) =
        check_intents_clean c policy plan.body.run_id 0 plan.body.intents _ found in
      record {
        same_policy = (str_eq_iff _ _).0 (not-false _ (flag-eq-nil _ _ _ a));
        sealed = (str_eq_iff _ _).0 (not-false _ (flag-eq-nil _ _ _ b));
        intents = good;
        ids = ids;
        total = within_cap policy.per_run_cap _ total cap;
      }

  -- A token exists only for a plan with no violation, and it covers the plan's hash.
  pub approve-violations :
      (signer : Signer) (now : String) (t : ApprovalToken)
      → approve c policy plan signer now ≡ approved t
      → (violations c policy plan ≡ [])
        × (t.plan_hash ≡ plan.plan_hash)
        × (t.signature ≡ signer.sign_hash plan.plan_hash)
  unfolding approve
  approve-violations signer now t h = ground arith

  -- If the gate approves a plan, then the plan is for the gate's policy, its hash and its intent
  -- ids are those of its contents, every intent moves a positive amount within the per-transfer
  -- cap from a policy account to an allowlist entry (payroll) or to a policy account (rebalance),
  -- and the amounts together stay within the per-run cap.
  pub approve-IsSound :
      (signer : Signer) (now : String) (t : ApprovalToken)
      → approve c policy plan signer now ≡ approved t
      → IsSound c policy plan
  approve-IsSound signer now t h = violations_clean (approve-violations signer now t h).0
