-- ===== src/Subcontract/Bundle.antt =====
-- roster/subcontract/gc.ts: the policy that sells the bundle, with a fixed floor. Fractions are in percent,
-- and prices count hundredths of a cent, as in Negotiation/Terms.
pub mod Floor
use dacs_agent_reference.Common.{ℕ, ◌+◌, ◌*◌, max, Option, some, List, [], ◌∷◌, leb, if◌then◌else◌}
use dacs_agent_reference.Negotiation.Terms.{
  AuditTier, Deadline, AuditTerms, NegotiationMove, offer, counter, accept, reject, round_cents,
  round_cents_of,
}
use dacs_agent_reference.Negotiation.Harness.{Side, Turn, PublicState, Policy}
use dacs_agent_reference.Negotiation.Policies.{concede}

-- What the buyer's last offer, counter or rejection says.
pub data BuyerPosition : Type 0 where
  no_position walked_away : BuyerPosition
  position : AuditTerms → BuyerPosition

abbrev pub position_of : Side → NegotiationMove → BuyerPosition
position_of Side.seller move = no_position
position_of Side.buyer (offer terms) = position terms
position_of Side.buyer (counter terms) = position terms
position_of Side.buyer (accept terms) = no_position
position_of Side.buyer reject = walked_away

-- the loop over the transcript, from its end
unfoldable pub buyer_position : List Turn → BuyerPosition
buyer_position [] = no_position
buyer_position (t ∷ rest) = elim (buyer_position rest) [
  | position terms ↦ position terms
  | walked_away ↦ walked_away
  | no_position ↦ position_of t.side t.move
]

module _ (bundle_floor : ℕ) (deadline : Deadline) (list_margin step : ℕ) where
  -- `roundCents(bundleFloor * (1 + listMargin))`
  unfoldable pub bundle_ask : ℕ
  bundle_ask = round_cents_of (bundle_floor * (100 + list_margin)) 100

  abbrev pub bundle : ℕ → AuditTerms
  bundle price = record { tier = AuditTier.deep; deadline = deadline; price = price }

  unfoldable pub bundle_price : PublicState → ℕ
  bundle_price state =
      if leb state.max_rounds state.round
      then bundle_floor
      else max bundle_floor (concede bundle_ask bundle_floor step state.round)

  unfoldable pub bundle_move : PublicState → BuyerPosition → NegotiationMove
  bundle_move state walked_away = reject
  bundle_move state no_position = offer (bundle bundle_ask)
  bundle_move state (position terms) =
      if leb bundle_floor terms.price
      then accept (bundle (round_cents terms.price))
      else counter (bundle (bundle_price state))

  unfoldable pub gc_bundle_seller : Policy
  gc_bundle_seller state = some (bundle_move state (buyer_position state.transcript))
