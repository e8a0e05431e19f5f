-- ===== src/Subcontract/Sourcing.antt =====
-- roster/subcontract/gc.ts: every component is sourced from a specialist, and the bundle is sold at a floor
-- above what they cost. Fractions are in percent, with the defaults of the source.
pub mod Covered
use dacs_agent_reference.Common.{
  ℕ, ◌+◌, ◌-◌, ◌*◌, String, Bool, true, false, Option, none, some, List, [], ◌∷◌, map, every, ◌==◌,
  if◌then◌else◌,
}
use dacs_agent_reference.Negotiation.Terms.{
  AuditTier, Deadline, AuditTerms, ScanFacts, DeskEconomics, DeepAuditPricing, SellerGuard,
  BuyerGuard, ask_for, floor_for, round_cents, round_cents_of,
}
use dacs_agent_reference.Negotiation.Harness.{
  NegotiationConfig, NegotiationResult, Close, agreed, walked, run_negotiation,
}
use dacs_agent_reference.Negotiation.Policies.{
  SellerBrief, BuyerBrief, seller_guard_for, deterministic_seller, deterministic_buyer,
}
use dacs_agent_reference.Subcontract.Bundle.{gc_bundle_seller}

pub record Specialist : Type 0 where
  pub id : String
  pub label : String
  pub scan : ScanFacts
  pub econ : DeskEconomics
  pub required_tier : AuditTier

pub record SubcontractJob : Type 0 where
  pub buyer_budget : ℕ
  pub deadline : Deadline
  pub specialists : List Specialist
  pub coord_margin_pct : ℕ
  pub sourcing_pct : ℕ
  pub max_turns : ℕ

pub record SubResult : Type 0 where
  pub specialist : Specialist
  pub allocation : ℕ
  pub negotiation : NegotiationResult

pub data SubcontractOutcome : Type 0 where
  no_source no_deal : SubcontractOutcome
  -- the bundle's price
  awarded : ℕ → SubcontractOutcome

pub record SubcontractPlan : Type 0 where
  pub outcome : SubcontractOutcome
  pub subs : List SubResult
  pub bundle_cost : Option ℕ
  pub bundle_floor : Option ℕ
  pub bundle_negotiation : Option NegotiationResult

abbrev pub offered_tiers : List AuditTier
offered_tiers = AuditTier.quick ∷ AuditTier.deep ∷ []

abbrev pub is_agreed : Close → Bool
is_agreed (agreed terms) = true
is_agreed (walked reason) = false

-- `s.price ?? 0`
abbrev pub price_of : Close → ℕ
price_of (agreed terms) = terms.price
price_of (walked reason) = 0

abbrev pub sum : List ℕ → ℕ
sum [] = 0
sum (n ∷ ns) = n + sum ns

abbrev pub buyer_brief : BuyerGuard → AuditTier → Deadline → BuyerBrief
buyer_brief guard tier deadline = record {
  guard = guard;
  preferred_tier = tier;
  preferred_deadline = deadline;
  open_discount = 35;
  concession_rate = 50;
}

module _ (pricing : DeepAuditPricing) (job : SubcontractJob) where
  abbrev pub ask_of : Specialist → ℕ
  ask_of s = ask_for pricing s.scan s.econ s.required_tier job.deadline

  -- `asks.reduce((a, b) => a + b, 0) || 1`
  abbrev pub ask_total : ℕ
  ask_total = let total = sum (map ask_of job.specialists) in if total == 0 then 1 else total

  unfoldable pub allocation_of : Specialist → ℕ
  allocation_of s =
      round_cents_of (job.buyer_budget * job.sourcing_pct * ask_of s) (100 * ask_total)

  abbrev pub seller_guard_of : Specialist → SellerGuard
  seller_guard_of s = seller_guard_for pricing s.scan offered_tiers (job.deadline ∷ []) s.econ

  abbrev pub sub_config : Specialist → NegotiationConfig
  sub_config s = record {
    max_turns = job.max_turns;
    seller_guard = seller_guard_of s;
    buyer_guard = record {
      offered_tiers = offered_tiers;
      offered_deadlines = job.deadline ∷ [];
      budget = allocation_of s;
      acceptable_tiers = s.required_tier ∷ [];
    };
  }

  abbrev pub seller_brief : Specialist → SellerBrief
  seller_brief s = record {
    scan = s.scan;
    guard = seller_guard_of s;
    econ = s.econ;
    concession_step = 34;
    anchor_tier = AuditTier.deep;
    anchor_deadline = Deadline.standard;
  }

  -- one round of the sourcing loop
  unfoldable pub source : Specialist → SubResult
  source s = record {
    specialist = s;
    allocation = allocation_of s;
    negotiation =
        run_negotiation (deterministic_seller pricing (seller_brief s))
          (deterministic_buyer
            (buyer_brief (sub_config s).buyer_guard s.required_tier job.deadline))
          (sub_config s);
  }

  abbrev pub subs_of : List Specialist → List SubResult
  subs_of [] = []
  subs_of (s ∷ ss) = source s ∷ subs_of ss

  abbrev pub bundle_config : ℕ → NegotiationConfig
  bundle_config bundle_floor = record {
    max_turns = job.max_turns;
    seller_guard = record {
      offered_tiers = AuditTier.deep ∷ [];
      offered_deadlines = job.deadline ∷ [];
      floor = λ tier deadline. bundle_floor;
    };
    buyer_guard = record {
      offered_tiers = AuditTier.deep ∷ [];
      offered_deadlines = job.deadline ∷ [];
      budget = job.buyer_budget;
      acceptable_tiers = AuditTier.deep ∷ [];
    };
  }

  unfoldable pub bundle_negotiation : ℕ → NegotiationResult
  bundle_negotiation bundle_floor =
      run_negotiation (gc_bundle_seller bundle_floor job.deadline 40 34)
        (deterministic_buyer
          (buyer_brief (bundle_config bundle_floor).buyer_guard AuditTier.deep job.deadline))
        (bundle_config bundle_floor)

  abbrev pub outcome_of : Close → SubcontractOutcome
  outcome_of (agreed terms) = awarded terms.price
  outcome_of (walked reason) = no_deal

  unfoldable pub bundle_cost_of : List SubResult → ℕ
  bundle_cost_of subs = round_cents (sum (map (λ r. price_of r.negotiation.outcome) subs))

  -- `roundCents(bundleCost * (1 + coordMargin))`
  unfoldable pub bundle_floor_of : ℕ → ℕ
  bundle_floor_of cost = round_cents_of (cost * (100 + job.coord_margin_pct)) 100

  unfoldable pub run_subcontract : SubcontractPlan
  run_subcontract =
      let subs = subs_of job.specialists in
      let cost = bundle_cost_of subs in
      let bundle_floor = bundle_floor_of cost in
      if every (λ r. is_agreed r.negotiation.outcome) subs
      then (let r = bundle_negotiation bundle_floor in
          record {
            outcome = outcome_of r.outcome;
            subs = subs;
            bundle_cost = some cost;
            bundle_floor = some bundle_floor;
            bundle_negotiation = some r;
          })
      else record {
        outcome = no_source;
        subs = subs;
        bundle_cost = none;
        bundle_floor = none;
        bundle_negotiation = none;
      }
