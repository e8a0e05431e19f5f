-- ===== src/Subcontract/Bundle/Floor.antt =====
-- The bundle of roster/subcontract/gc.ts is never sold below its floor.
use native.Mathlib.Nat.{mul-le-mul_left}
use dacs_agent_reference.Common.{
  ℕ, ◌+◌, ◌*◌, ◌≤◌, max, Bool, true, false, Option, ◌≡◌, refl, leb, inl, inr, Bool-cases, arith,
  if◌then◌else◌,
}
use dacs_agent_reference.Negotiation.Terms.{
  AuditTier, Deadline, AuditTerms, round_cents, round_cents_of,
}
use dacs_agent_reference.Negotiation.Harness.{PublicState}
use dacs_agent_reference.Negotiation.Policies.{concede}
use dacs_agent_reference.Negotiation.Policies.Within.{Emits, round_cents_le}
use dacs_agent_reference.Subcontract.Bundle.{
  BuyerPosition, no_position, walked_away, position, buyer_position, bundle_ask, bundle_price,
  bundle_move, gc_bundle_seller,
}

-- Terms for the whole bundle, by its deadline, at its floor or above.
abbrev pub IsCovered : ℕ → Deadline → AuditTerms → Type 0
IsCovered bundle_floor deadline t =
    (bundle_floor ≤ t.price) × (t.tier ≡ AuditTier.deep) × (t.deadline ≡ deadline)

scaled_le : (a n : ℕ) → round_cents a ≡ a → 100 * a ≤ n → a ≤ round_cents_of n 100
unfolding round_cents_of
scaled_le a n e h = omega (arith, e, h)

module _ (bundle_floor : ℕ) (deadline : Deadline) (list_margin step : ℕ)
    (exact : round_cents bundle_floor ≡ bundle_floor) where
  ask_le : bundle_floor ≤ bundle_ask bundle_floor deadline list_margin step
  unfolding bundle_ask
  ask_le =
      let margin : 100 ≤ 100 + list_margin = omega arith in
      let more = mul-le-mul_left bundle_floor margin in
      scaled_le bundle_floor _ exact (omega (arith, more))

  price_le :
      (state : PublicState)
      → bundle_floor ≤ bundle_price bundle_floor deadline list_margin step state
  unfolding bundle_price
  price_le state = chosen (leb state.max_rounds state.round)
    where
      chosen :
          (b : Bool)
          → bundle_floor ≤ (
              if b
              then bundle_floor
              else max bundle_floor (
                  concede
                    (bundle_ask bundle_floor deadline list_margin step)
                    bundle_floor
                    step
                    state.round))
      chosen true = omega arith
      chosen false = omega arith

  -- If the floor is in whole cents, then whatever the transcript, the terms of the bundle seller's
  -- move are for the deep tier by the bundle's deadline, at the floor or above.
  pub gc_bundle_seller-IsCovered :
      (state : PublicState)
      → Emits
          (IsCovered bundle_floor deadline)
          (gc_bundle_seller bundle_floor deadline list_margin step state)
  unfolding gc_bundle_seller bundle_move
  gc_bundle_seller-IsCovered state = moves (buyer_position state.transcript)
    where
      moves :
          (p : BuyerPosition)
          → Emits
              (IsCovered bundle_floor deadline)
              (Option.some (bundle_move bundle_floor deadline list_margin step state p))
      moves walked_away = tt
      moves no_position = (ask_le, refl, refl)
      moves (position terms) = elim (Bool-cases (leb bundle_floor terms.price)) [
        | inl e ↦
            let enough : bundle_floor ≤ terms.price = ground arith in
            rw e (round_cents_le bundle_floor terms.price exact enough, refl, refl)
        | inr e ↦ rw e (price_le state, refl, refl)
      ]
