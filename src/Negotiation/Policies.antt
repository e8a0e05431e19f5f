-- ===== src/Negotiation/Policies.antt =====
-- roster/audit-negotiator/policies.ts: the deterministic seller and buyer. Fractions are in percent, and
-- prices count hundredths of a cent, as in Terms.
pub mod Within
use dacs_agent_reference.Common.{
  ℕ, ◌+◌, ◌-◌, ◌*◌, max, min, Bool, true, false, not, ◌&&◌, Option, none, some, List, [], ◌∷◌, leb,
  if◌then◌else◌,
}
use dacs_agent_reference.Negotiation.Terms.{
  AuditTier, Deadline, AuditTerms, NegotiationMove, offer, counter, accept, reject, ScanFacts,
  DeskEconomics, DeepAuditPricing, round_cents, round_cents_of, floor_for, ask_for, SellerGuard,
  BuyerGuard, GuardVerdict, tier_eq, has_tier, seller_may_settle, buyer_may_settle,
}
use dacs_agent_reference.Negotiation.Harness.{Side, Turn, PublicState, Policy, side_eq, proposal}

unfoldable pub last_counterparty_move : List Turn → Side → Option NegotiationMove
last_counterparty_move [] me = none
last_counterparty_move (t ∷ rest) me = elim (last_counterparty_move rest me) [
  | some m ↦ some m
  | none ↦ if side_eq t.side me then none else some t.move
]

unfoldable pub price_trajectory : List Turn → Side → List ℕ
price_trajectory [] side = []
price_trajectory (t ∷ rest) side =
    let later = price_trajectory rest side in
    elim (proposal t.move) [
      | none ↦ later
      | some terms ↦ if side_eq t.side side then terms.price ∷ later else later
    ]

-- the last price, and its last increase once more
unfoldable pub projected_reach : List ℕ → Option ℕ
projected_reach [] = none
projected_reach (last ∷ []) = some last
projected_reach (prev ∷ last ∷ []) = some (round_cents (last + (last - prev)))
projected_reach (p ∷ q ∷ r ∷ rest) = projected_reach (q ∷ r ∷ rest)

pub record SellerBrief : Type 0 where
  pub scan : ScanFacts
  pub guard : SellerGuard
  pub econ : DeskEconomics
  pub concession_step : ℕ
  pub anchor_tier : AuditTier
  pub anchor_deadline : Deadline

abbrev pub or_price : Option ℕ → ℕ → ℕ
or_price none p = p
or_price (some q) p = q

-- `roundCents(ask - (ask - floor) * step * round)`, at least 0, which the floor is too
unfoldable pub concede : ℕ → ℕ → ℕ → ℕ → ℕ
concede ask floor step round =
    if leb floor ask
    then round_cents_of (100 * ask - (ask - floor) * step * round) 100
    else round_cents_of (100 * ask + (floor - ask) * step * round) 100

module _ (pricing : DeepAuditPricing) (brief : SellerBrief) where
  abbrev pub hold : AuditTerms → ℕ → NegotiationMove
  hold want price = counter (record { tier = want.tier; deadline = want.deadline; price = price })

  -- the last round: the floor, or the quick tier if the buyer cannot reach the deep one
  unfoldable pub final_move : AuditTerms → ℕ → List ℕ → NegotiationMove
  final_move want floor trajectory =
      let can_reach = leb floor (or_price (projected_reach trajectory) want.price) in
      let can_downgrade =
        tier_eq want.tier AuditTier.deep && has_tier brief.guard.offered_tiers AuditTier.quick in
      let quick_floor = brief.guard.floor AuditTier.quick want.deadline in
      if not can_reach && (can_downgrade && leb quick_floor want.price)
      then counter
          (record { tier = AuditTier.quick; deadline = want.deadline; price = quick_floor })
      else hold want floor

  -- the answer to an offer or a counter
  unfoldable pub answer_terms : AuditTerms → PublicState → NegotiationMove
  answer_terms want state =
      let floor = brief.guard.floor want.tier want.deadline in
      let ask = ask_for pricing brief.scan brief.econ want.tier want.deadline in
      if leb floor want.price
      then accept (record want { price = round_cents want.price })
      else if leb state.max_rounds state.round
      then final_move want floor (price_trajectory state.transcript Side.buyer)
      else hold want (max floor (concede ask floor brief.concession_step state.round))

  abbrev pub mirror : AuditTerms → GuardVerdict → NegotiationMove
  mirror terms GuardVerdict.ok = accept terms
  mirror terms (GuardVerdict.refused r) = reject

  unfoldable pub answer_move : PublicState → Option NegotiationMove → NegotiationMove
  answer_move state none = offer (record {
    tier = brief.anchor_tier;
    deadline = brief.anchor_deadline;
    price = ask_for pricing brief.scan brief.econ brief.anchor_tier brief.anchor_deadline;
  })
  answer_move state (some reject) = reject
  answer_move state (some (accept terms)) = mirror terms (seller_may_settle terms brief.guard)
  answer_move state (some (offer want)) = answer_terms want state
  answer_move state (some (counter want)) = answer_terms want state

  unfoldable pub deterministic_seller : Policy
  deterministic_seller state =
      some (answer_move state (last_counterparty_move state.transcript Side.seller))

pub record BuyerBrief : Type 0 where
  pub guard : BuyerGuard
  pub preferred_tier : AuditTier
  pub preferred_deadline : Deadline
  pub open_discount : ℕ
  pub concession_rate : ℕ

-- the last turn of a side
unfoldable pub last_turn : List Turn → Side → Option Turn
last_turn [] side = none
last_turn (t ∷ rest) side = elim (last_turn rest side) [
  | some u ↦ some u
  | none ↦ if side_eq t.side side then some t else none
]

abbrev pub own_terms : Option Turn → Option AuditTerms
own_terms none = none
own_terms (some t) = proposal t.move

abbrev pub settles : GuardVerdict → Bool
settles GuardVerdict.ok = true
settles (GuardVerdict.refused r) = false

module _ (brief : BuyerBrief) where
  abbrev pub preferred : ℕ → AuditTerms
  preferred price = record {
    tier = brief.preferred_tier;
    deadline = brief.preferred_deadline;
    price = price;
  }

  -- `roundCents(Math.min(budget, price * (1 - openDiscount)))`
  unfoldable pub opening : AuditTerms → NegotiationMove
  opening seller_terms =
      let target =
        round_cents_of
          (min (100 * brief.guard.budget) (seller_terms.price * (100 - brief.open_discount))) 100 in
      if settles (buyer_may_settle (preferred target) brief.guard)
      then offer (preferred target)
      else reject

  -- `roundCents(mine + (budget - mine) * concessionRate)`
  unfoldable pub raise : ℕ → ℕ
  raise mine =
      let budget = brief.guard.budget in
      if leb mine budget
      then round_cents_of (100 * mine + (budget - mine) * brief.concession_rate) 100
      else round_cents_of (100 * mine - (mine - budget) * brief.concession_rate) 100

  abbrev pub take : AuditTerms → NegotiationMove
  take terms = accept (record terms { price = round_cents terms.price })

  unfoldable pub settle_or_raise : AuditTerms → ℕ → Bool → Bool → NegotiationMove
  settle_or_raise seller_terms willingness is_final can_settle =
      if can_settle && leb seller_terms.price willingness
      then take seller_terms
      else if can_settle
          && (not (tier_eq seller_terms.tier brief.preferred_tier)
              && leb seller_terms.price brief.guard.budget)
      then take seller_terms
      else if is_final
      then (if can_settle then take seller_terms else reject)
      else counter (preferred willingness)

  unfoldable pub respond : PublicState → AuditTerms → Option AuditTerms → NegotiationMove
  respond state seller_terms none = opening seller_terms
  respond state seller_terms (some mine) =
      let is_final = leb state.max_rounds state.round in
      settle_or_raise seller_terms (if is_final then brief.guard.budget else raise mine.price)
        is_final (settles (buyer_may_settle seller_terms brief.guard))

  unfoldable pub buyer_move : PublicState → Option NegotiationMove → NegotiationMove
  buyer_move state none = reject
  buyer_move state (some reject) = reject
  buyer_move state (some (accept terms)) =
      respond state terms (own_terms (last_turn state.transcript Side.buyer))
  buyer_move state (some (offer terms)) =
      respond state terms (own_terms (last_turn state.transcript Side.buyer))
  buyer_move state (some (counter terms)) =
      respond state terms (own_terms (last_turn state.transcript Side.buyer))

  unfoldable pub deterministic_buyer : Policy
  deterministic_buyer state =
      some (buyer_move state (last_counterparty_move state.transcript Side.buyer))

-- `sellerGuardFor`
unfoldable pub seller_guard_for :
    DeepAuditPricing → ScanFacts → List AuditTier → List Deadline → DeskEconomics → SellerGuard
seller_guard_for pricing scan tiers deadlines econ = record {
  offered_tiers = tiers;
  offered_deadlines = deadlines;
  floor = λ tier deadline. floor_for pricing scan econ tier deadline;
}
