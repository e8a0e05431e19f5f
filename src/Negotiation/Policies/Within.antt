-- ===== src/Negotiation/Policies/Within.antt =====
-- The deterministic policies of roster/audit-negotiator/policies.ts keep to their price limits.
use native.Mathlib.Nat.{mul-le-mul_left}
use dacs_agent_reference.Common.{
  ℕ, ◌+◌, ◌-◌, ◌*◌, ◌≤◌, max, min, Bool, true, false, Option, none, some, List, ◌≡◌, refl, leb, inl,
  inr, Bool-cases, arith, if◌then◌else◌,
}
use dacs_agent_reference.Negotiation.Terms.{
  AuditTerms, NegotiationMove, offer, counter, accept, reject, DeepAuditPricing, round_cents,
  round_cents_of, ask_for, GuardVerdict, seller_may_settle, buyer_may_settle,
}
use dacs_agent_reference.Negotiation.Harness.{PublicState, Side}
use dacs_agent_reference.Negotiation.Policies.{
  SellerBrief, BuyerBrief, price_trajectory, last_counterparty_move, final_move, hold, answer_terms,
  mirror, answer_move, deterministic_seller, concede, preferred, opening, raise, take, settles,
  settle_or_raise, respond, buyer_move, deterministic_buyer, own_terms, last_turn,
}

-- The terms of a move, if it has any, satisfy a predicate.
abbrev pub Emits : (AuditTerms → Type 0) → Option NegotiationMove → Type 0
Emits P none = Unit
Emits P (some (offer terms)) = P terms
Emits P (some (counter terms)) = P terms
Emits P (some (accept terms)) = P terms
Emits P (some reject) = Unit

pub round_cents_le : (a b : ℕ) → round_cents a ≡ a → a ≤ b → a ≤ round_cents b
unfolding round_cents_of
round_cents_le a b e h = omega (arith, e, h)

round_cents_of_le : (a b : ℕ) → round_cents b ≡ b → a ≤ 100 * b → round_cents_of a 100 ≤ b
unfolding round_cents_of
round_cents_of_le a b e h = omega (arith, e, h)

rounded_le : (a b : ℕ) → round_cents b ≡ b → a ≤ b → round_cents a ≤ b
unfolding round_cents_of
rounded_le a b e h = omega (arith, e, h)

module _ (pricing : DeepAuditPricing) (brief : SellerBrief) where
  abbrev pub AtFloor : AuditTerms → Type 0
  AtFloor t = brief.guard.floor t.tier t.deadline ≤ t.price

  mirror-AtFloor :
      (terms : AuditTerms) (v : GuardVerdict)
      → seller_may_settle terms brief.guard ≡ v
      → Emits AtFloor (some (mirror pricing brief terms v))
  unfolding seller_may_settle
  mirror-AtFloor terms GuardVerdict.ok e = ground arith
  mirror-AtFloor terms (GuardVerdict.refused r) e = tt

  final-AtFloor :
      (want : AuditTerms) (trajectory : List ℕ)
      → Emits AtFloor (
          some
            (final_move pricing brief want (brief.guard.floor want.tier want.deadline) trajectory))
  unfolding final_move
  final-AtFloor want trajectory = ground arith

  module _
      (exact : (t : AuditTerms)
        → round_cents (brief.guard.floor t.tier t.deadline)
          ≡ brief.guard.floor t.tier t.deadline) where
    answer-AtFloor :
        (want : AuditTerms) (state : PublicState)
        → Emits AtFloor (some (answer_terms pricing brief want state))
    unfolding answer_terms
    answer-AtFloor want state =
        let floor = brief.guard.floor want.tier want.deadline in
        elim (Bool-cases (leb floor want.price)) [
          | inl e ↦
              let enough : floor ≤ want.price = ground arith in
              rw e (round_cents_le floor want.price (exact want) enough)
          | inr e ↦ rw e (later (leb state.max_rounds state.round))
        ]
      where
        later :
            (b : Bool)
            → Emits AtFloor (
                some (
                  if b
                  then final_move pricing brief want
                      (brief.guard.floor want.tier want.deadline)
                      (price_trajectory state.transcript Side.buyer)
                  else hold pricing brief want (
                      max (brief.guard.floor want.tier want.deadline) (
                        concede
                          (ask_for pricing brief.scan brief.econ want.tier want.deadline)
                          (brief.guard.floor want.tier want.deadline)
                          brief.concession_step
                          state.round))))
        later true = final-AtFloor want (price_trajectory state.transcript Side.buyer)
        later false = omega arith

    -- If the floors are whole cents and the opening ask is at least its floor, then no move of the
    -- deterministic seller has terms below the floor of their tier and deadline.
    pub deterministic_seller-AtFloor :
        (state : PublicState)
        → brief.guard.floor brief.anchor_tier brief.anchor_deadline
          ≤ ask_for pricing brief.scan brief.econ brief.anchor_tier brief.anchor_deadline
        → Emits AtFloor (deterministic_seller pricing brief state)
    unfolding deterministic_seller answer_move
    deterministic_seller-AtFloor state h =
        answered (last_counterparty_move state.transcript Side.seller)
      where
        answered :
            (o : Option NegotiationMove) → Emits AtFloor (some (answer_move pricing brief state o))
        answered none = h
        answered (some reject) = tt
        answered (some (accept terms)) = mirror-AtFloor terms _ refl
        answered (some (offer want)) = answer-AtFloor want state
        answered (some (counter want)) = answer-AtFloor want state

module _ (brief : BuyerBrief) where
  abbrev pub WithinBudget : AuditTerms → Type 0
  WithinBudget t = t.price ≤ brief.guard.budget

  module _ (exact : round_cents brief.guard.budget ≡ brief.guard.budget)
      (rate : brief.concession_rate ≤ 100) where
    settles-WithinBudget :
        (terms : AuditTerms)
        → settles (buyer_may_settle terms brief.guard) ≡ true
        → WithinBudget terms
    unfolding buyer_may_settle
    settles-WithinBudget terms e = ground arith

    take-WithinBudget :
        (terms : AuditTerms)
        → settles (buyer_may_settle terms brief.guard) ≡ true
        → Emits WithinBudget (some (take brief terms))
    take-WithinBudget terms e =
        let price = terms.price in
        let within = settles-WithinBudget terms e in
        rounded_le price brief.guard.budget exact within

    opening-WithinBudget : (terms : AuditTerms) → Emits WithinBudget (some (opening brief terms))
    unfolding opening
    opening-WithinBudget terms =
        let target =
          round_cents_of
            (min (100 * brief.guard.budget) (terms.price * (100 - brief.open_discount))) 100 in
        elim (Bool-cases (settles (buyer_may_settle (preferred brief target) brief.guard))) [
          | inl e ↦ rw e (settles-WithinBudget (preferred brief target) e)
          | inr e ↦ rw e tt
        ]

    raise-WithinBudget :
        (mine : ℕ) → mine ≤ brief.guard.budget → raise brief mine ≤ brief.guard.budget
    unfolding raise
    raise-WithinBudget mine h =
        let budget = brief.guard.budget in
        let step = mul-le-mul_left (budget - mine) rate in
        let most : 100 * mine + (budget - mine) * brief.concession_rate ≤ 100 * budget =
          omega (arith, step, h) in
        let below : leb mine budget ≡ true = ground arith in
        rw below (round_cents_of_le _ budget exact most)

    settle_or_raise-WithinBudget :
        (terms : AuditTerms) (willingness : ℕ) (is_final : Bool)
        → willingness ≤ brief.guard.budget
        → Emits WithinBudget (
            some (
              settle_or_raise brief terms willingness is_final
                (settles (buyer_may_settle terms brief.guard))))
    unfolding settle_or_raise
    settle_or_raise-WithinBudget terms willingness is_final h =
        elim (Bool-cases (settles (buyer_may_settle terms brief.guard))) [
          | inl e ↦
              rw e (takes (leb terms.price willingness) _ is_final (take-WithinBudget terms e))
          | inr e ↦ rw e (walks is_final)
        ]
      where
        Fine : NegotiationMove → Type 0
        Fine m = Emits WithinBudget (some m)

        takes :
            (c d f : Bool)
            → Fine (take brief terms)
            → Fine (
                if c
                then take brief terms
                else if d
                then take brief terms
                else if f
                then take brief terms
                else counter (preferred brief willingness))
        takes true d f k = k
        takes false true f k = k
        takes false false true k = k
        takes false false false k = h

        walks : (f : Bool) → Fine (if f then reject else counter (preferred brief willingness))
        walks true = tt
        walks false = h

    respond-WithinBudget :
        (state : PublicState) (terms : AuditTerms) (o : Option AuditTerms)
        → ((mine : AuditTerms) → o ≡ some mine → WithinBudget mine)
        → Emits WithinBudget (some (respond brief state terms o))
    unfolding respond
    respond-WithinBudget state terms none k = opening-WithinBudget terms
    respond-WithinBudget state terms (some mine) k =
        settle_or_raise-WithinBudget terms _ (leb state.max_rounds state.round)
          (willing (leb state.max_rounds state.round))
      where
        willing :
            (f : Bool)
            → (if f then brief.guard.budget else raise brief mine.price) ≤ brief.guard.budget
        willing true = omega arith
        willing false = raise-WithinBudget mine.price (k mine refl)

    -- If the budget is in whole cents, the concession rate is at most 1, and the buyer's own last
    -- terms, if its last turn has any, are within the budget, then the terms of the deterministic
    -- buyer's move are within the budget.
    pub deterministic_buyer-WithinBudget :
        (state : PublicState)
        → ((mine : AuditTerms)
            → own_terms (last_turn state.transcript Side.buyer) ≡ some mine
            → WithinBudget mine)
        → Emits WithinBudget (deterministic_buyer brief state)
    unfolding deterministic_buyer buyer_move
    deterministic_buyer-WithinBudget state k =
        moves (last_counterparty_move state.transcript Side.buyer)
      where
        moves : (o : Option NegotiationMove) → Emits WithinBudget (some (buyer_move brief state o))
        moves none = tt
        moves (some reject) = tt
        moves (some (accept terms)) = respond-WithinBudget state terms _ k
        moves (some (offer terms)) = respond-WithinBudget state terms _ k
        moves (some (counter terms)) = respond-WithinBudget state terms _ k
