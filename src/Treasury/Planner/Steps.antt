-- ===== src/Treasury/Planner/Steps.antt =====
-- Each step of roster/treasury-ops/planner.ts, payment or rebalancing move, keeps the gate's loop clean.
use mathlib.Core.Path.{subst}
use dacs_agent_reference.Common.{
  ℕ, zero, suc, String, true, false, some, List, [], ◌∷◌, ◌≡◌, refl, inl, inr, arith, All, All-map,
  All-find, All-last?, Some, Some-any, find, find-test, last?, str_eq, str_eq_refl, Bool-cases,
  Option-cases, and-true,
}
use dacs_agent_reference.Common.Int.{
  ℤ, pos, ◌+ℤ◌, ◌-ℤ◌, ltb_ℤ, leb_ℤ, ◌≤ℤ◌, ◌<ℤ◌, min_ℤ-three, int_laws,
}
use dacs_agent_reference.Treasury.Types.{
  TreasuryAccount, TreasuryPolicy, PayrollEntry, payroll, rebalance, IntentDest, ShortfallReason,
  Crypto,
}
use dacs_agent_reference.Treasury.Approval.{GateState, recipient_ok}
use dacs_agent_reference.Treasury.Approval.Accounts.{Distinct}
use dacs_agent_reference.Treasury.Planner.{
  PlanState, can_fund, fund, pay_entry, pay_all, headroom, surplus, insert_by, sort_by, can_give,
  move_size, move_funds, rebalance_round, rebalance_from, fall_short,
}
use dacs_agent_reference.Treasury.Planner.Covers.{
  DistinctPlaces, IsIn, find-IsIn, place, find-place, CoversAll-credit, CoversAll-receive,
}
use dacs_agent_reference.Treasury.Planner.Matches.{Matches, Matches-snoc}

leb_ℤ-le : (a b : ℤ) → leb_ℤ a b ≡ true → a ≤ℤ b
leb_ℤ-le a b h = ground arith

room_left :
    (m balance floor fee : ℤ) → m ≤ℤ balance -ℤ floor -ℤ fee → floor ≤ℤ balance -ℤ (m +ℤ fee)
room_left m balance floor fee h = omega int_laws

All-self : (l : List TreasuryAccount) → All (IsIn l) l
All-self [] = tt
All-self (a ∷ l) = (inl refl, All-map {P = IsIn l} (λ b m. inr m) l (All-self l))

insert_by-All :
    (P : TreasuryAccount → Type 0) (key : TreasuryAccount → ℤ) (a : TreasuryAccount)
    (l : List TreasuryAccount)
    → P a
    → All P l
    → All P (insert_by key a l)
unfolding insert_by
insert_by-All P key a [] p h = (p, tt)
insert_by-All P key a (b ∷ l) p h = elim (Bool-cases (ltb_ℤ (key a) (key b))) [
  | inl t ↦ rw t (h.0, insert_by-All P key a l p h.1)
  | inr f ↦ rw f (p, h)
]

sort_by-All :
    (P : TreasuryAccount → Type 0) (key : TreasuryAccount → ℤ) (l : List TreasuryAccount)
    → All P l
    → All P (sort_by key l)
unfolding sort_by
sort_by-All P key [] h = tt
sort_by-All P key (a ∷ l) h = insert_by-All P key a (sort_by key l) h.0 (sort_by-All P key l h.1)

-- The recipient of a payroll entry is on the allowlist.
abbrev pub Allowed : TreasuryPolicy → PayrollEntry → Type 0
Allowed policy entry =
    Some (λ e. (e.address ≡ entry.recipient) × (e.chain ≡ entry.chain)) policy.allowlist

module _ (c : Crypto) (policy : TreasuryPolicy) (run_id : String) (s0 : GateState)
    (distinct : Distinct policy.accounts) where
  Allowed-recipient_ok :
      (entry : PayrollEntry) (to : IntentDest)
      → to.address ≡ entry.recipient
      → to.chain ≡ entry.chain
      → Allowed policy entry
      → recipient_ok policy payroll to ≡ true
  unfolding recipient_ok
  Allowed-recipient_ok entry to a ch h =
      Some-any (λ e. (e.address ≡ entry.recipient) × (e.chain ≡ entry.chain)) _
        (λ e k.
          rw (a, ch)
            (rw (k.0, k.1) (rw (str_eq_refl entry.recipient, str_eq_refl entry.chain) refl)))
        policy.allowlist h

  fund-Matches :
      (entry : PayrollEntry) (source : TreasuryAccount) (s : PlanState)
      → Allowed policy entry
      → pos 0 <ℤ entry.amount
      → entry.amount ≤ℤ policy.per_tx_cap
      → s.run_total +ℤ entry.amount ≤ℤ policy.per_run_cap
      → find (can_fund policy entry s.working) policy.accounts ≡ some source
      → Matches c policy run_id s0 s
      → Matches c policy run_id s0 (fund c policy run_id entry source s)
  unfolding fund headroom
  fund-Matches entry source s allowed p under run found h =
      let test = find-test (can_fund policy entry s.working) policy.accounts source found in
      let (_, rich) = and-true (str_eq source.chain entry.chain) _ test in
      let le =
        leb_ℤ-le entry.amount (headroom source (s.working source.id) policy.fee_buffer_per_tx)
          rich in
      Matches-snoc c policy run_id s0 s (fund c policy run_id entry source s) payroll source
        (record { address = entry.recipient; chain = entry.chain; label = entry.label })
        entry.amount distinct
        (find-IsIn (can_fund policy entry s.working) policy.accounts source found)
        (Allowed-recipient_ok entry _ refl refl allowed) p under run (omega int_laws) refl refl
        (λ w k. CoversAll-credit policy w _ _ entry.amount p k) h

  pay_entry-Matches :
      (entry : PayrollEntry) (s : PlanState)
      → Allowed policy entry
      → Matches c policy run_id s0 s
      → Matches c policy run_id s0 (pay_entry c policy run_id entry s)
  unfolding pay_entry
  pay_entry-Matches entry s allowed h = elim (Bool-cases (leb_ℤ entry.amount (pos 0))) [
    | inl t ↦ rw t (short ShortfallReason.non_positive)
    | inr positive ↦ rw positive (elim (Bool-cases (ltb_ℤ policy.per_tx_cap entry.amount)) [
      | inl t ↦ rw t (short ShortfallReason.over_tx_cap)
      | inr under ↦
          rw under (elim (Bool-cases (ltb_ℤ policy.per_run_cap (s.run_total +ℤ entry.amount))) [
            | inl t ↦ rw t (short ShortfallReason.over_run_cap)
            | inr run ↦
                rw run
                  (elim (Option-cases (find (can_fund policy entry s.working) policy.accounts)) [
                    | inl e ↦ rw e (short ShortfallReason.no_funding)
                    | inr (source, e) ↦ rw e (
                        fund-Matches entry source s allowed (ground arith) (ground arith)
                          (ground arith) e h)
                  ])
          ])
    ])
  ]
    where
      short :
          (r : ShortfallReason) → Matches c policy run_id s0 (fall_short c policy run_id entry r s)
      short r = record { clean = h.clean; total = h.total; covers = h.covers; capped = h.capped }

  pub pay_all-Matches :
      (entries : List PayrollEntry) (s : PlanState)
      → All (Allowed policy) entries
      → Matches c policy run_id s0 s
      → Matches c policy run_id s0 (pay_all c policy run_id entries s)
  unfolding pay_all
  pay_all-Matches [] s a h = h
  pay_all-Matches (entry ∷ rest) s a h =
      pay_all-Matches rest (pay_entry c policy run_id entry s) a.1 (pay_entry-Matches entry s a.0 h)

  module _ (places : DistinctPlaces policy.accounts) (min_move total : ℤ)
      (positive : pos 0 <ℤ min_move) where
    move_size_bounds :
        (donor receiver : TreasuryAccount) (s : PlanState)
        → let move = move_size policy total donor receiver s in
          (donor.min_balance ≤ℤ s.working donor.id -ℤ (move +ℤ policy.fee_buffer_per_tx))
          × (move ≤ℤ policy.per_tx_cap)
          × (move ≤ℤ policy.per_run_cap -ℤ s.run_total)
    unfolding move_size headroom
    move_size_bounds donor receiver s =
        let (room, tx, run) =
          min_ℤ-three _ (headroom donor (s.working donor.id) policy.fee_buffer_per_tx)
            policy.per_tx_cap (policy.per_run_cap -ℤ s.run_total) in
        (room_left _ (s.working donor.id) donor.min_balance policy.fee_buffer_per_tx room, tx, run)

    own-recipient_ok :
        (a : TreasuryAccount)
        → IsIn policy.accounts a
        → recipient_ok policy rebalance (place a) ≡ true
    unfolding recipient_ok
    own-recipient_ok a m =
        Some-any (λ b. b ≡ a) _ (λ b e. rw e (rw (str_eq_refl a.address, str_eq_refl a.chain) refl))
          policy.accounts m

    move_funds-Matches :
        (donor receiver : TreasuryAccount) (s : PlanState)
        → IsIn policy.accounts donor
        → IsIn policy.accounts receiver
        → ltb_ℤ (move_size policy total donor receiver s) min_move ≡ false
        → Matches c policy run_id s0 s
        → Matches c policy run_id s0
            (move_funds c policy run_id donor receiver (move_size policy total donor receiver s) s)
    unfolding move_funds
    move_funds-Matches donor receiver s d r big h =
        let move = move_size policy total donor receiver s in
        let (room, tx, run) = move_size_bounds donor receiver s in
        Matches-snoc c policy run_id s0 s (move_funds c policy run_id donor receiver move s)
          rebalance donor (place receiver) move distinct d (own-recipient_ok receiver r)
          (ground arith) tx (omega int_laws) room refl refl
          (λ w k.
            CoversAll-receive policy w _ (place receiver) move receiver
              (find-place policy.accounts receiver places r) k)
          h

    rebalance_round-Matches :
        (s s' : PlanState)
        → rebalance_round c policy run_id min_move total s ≡ some s'
        → Matches c policy run_id s0 s
        → Matches c policy run_id s0 s'
    unfolding rebalance_round
    rebalance_round-Matches s s' e h =
        let by_delta = sort_by (surplus total s.working) policy.accounts in
        let inside =
          sort_by-All (IsIn policy.accounts) (surplus total s.working) policy.accounts
            (All-self policy.accounts) in
        elim (Option-cases (last? by_delta)) [
          | inl none_left ↦ absurd (ground arith)
          | inr (receiver, at_end) ↦
              elim (Option-cases
                (find (can_give policy min_move total s.working receiver) by_delta)) [
                  | inl no_donor ↦ absurd (ground arith)
                  | inr (donor, given) ↦
                      let move = move_size policy total donor receiver s in
                      elim (Bool-cases (ltb_ℤ move min_move)) [
                        | inl small ↦ absurd (ground arith)
                        | inr big ↦
                            let it : move_funds c policy run_id donor receiver move s ≡ s' =
                              ground arith in
                            subst (Matches c policy run_id s0) it (
                              move_funds-Matches donor receiver s
                                (All-find (IsIn policy.accounts) _ by_delta inside given)
                                (All-last? (IsIn policy.accounts) by_delta inside at_end) big h)
                      ]
                ]
        ]

    pub rebalance_from-Matches :
        (rounds : ℕ) (s : PlanState)
        → Matches c policy run_id s0 s
        → Matches c policy run_id s0 (rebalance_from c policy run_id rounds min_move total s)
    unfolding rebalance_from
    rebalance_from-Matches zero s h = h
    rebalance_from-Matches (suc rounds) s h =
        elim (Option-cases (rebalance_round c policy run_id min_move total s)) [
          | inl e ↦ rw (e, rebalance_from) h
          | inr (s', e) ↦
              rw (e, rebalance_from)
                (rebalance_from-Matches rounds s' (rebalance_round-Matches s s' e h))
        ]
