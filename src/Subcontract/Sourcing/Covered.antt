-- ===== src/Subcontract/Sourcing/Covered.antt =====
-- What an awarded bundle of roster/subcontract/gc.ts pays for.
use native.Mathlib.Nat.{le-div_iff_mul-le}
use mathlib.Core.Path.{subst}
use dacs_agent_reference.Common.{
  ℕ, ◌+◌, ◌*◌, ◌≤◌, true, some, List, [], ◌∷◌, ◌≡◌, refl, ap, inl, inr, arith, All, Bool-cases,
  and-true, every, map,
}
use dacs_agent_reference.Negotiation.Terms.{
  AuditTier, AuditTerms, DeepAuditPricing, ok, seller_may_settle, buyer_may_settle, floor_for,
  round_cents, round_cents_of,
}
use dacs_agent_reference.Negotiation.Terms.Cleared.{
  seller_may_settle-le, buyer_may_settle-le, buyer_may_settle-tier, buyer_may_settle-deadline,
}
use dacs_agent_reference.Negotiation.Harness.{
  Turn, NegotiationConfig, NegotiationResult, Close, agreed, walked,
}
use dacs_agent_reference.Negotiation.Agreement.{IsHonest, run_negotiation-IsProper}
use dacs_agent_reference.Negotiation.Policies.{
  seller_guard_for, deterministic_seller, deterministic_buyer,
}
use dacs_agent_reference.Subcontract.Bundle.{gc_bundle_seller}
use dacs_agent_reference.Subcontract.Sourcing.{
  Specialist, SubcontractJob, SubResult, no_source, awarded, SubcontractPlan, is_agreed, price_of,
  sum, allocation_of, sub_config, source, subs_of, bundle_config, bundle_negotiation, outcome_of,
  bundle_cost_of, bundle_floor_of, run_subcontract, seller_brief, buyer_brief,
}

-- A margin on whole cents is not rounded away.
margin_le : (n m : ℕ) → round_cents n ≤ round_cents_of (round_cents n * (100 + m)) 100
unfolding round_cents_of
margin_le n m = in_cents ((le-div_iff_mul-le (omega arith)).1 (omega arith))
  where
    in_cents : {k q : ℕ} → k ≤ q → k * 100 ≤ q * 100
    in_cents h = omega arith

-- A component is sourced: at a price within its allocation, at its specialist's floor or above, for
-- the tier that it needs and by the job's deadline.
pub record IsSourced (pricing : DeepAuditPricing) (job : SubcontractJob) (r : SubResult)
    : Type 0 where
  pub terms : AuditTerms
  pub settled : r.negotiation.outcome ≡ agreed terms
  pub allocated : r.allocation ≡ allocation_of pricing job r.specialist
  pub needed_tier : terms.tier ≡ r.specialist.required_tier
  pub on_time : terms.deadline ≡ job.deadline
  pub affordable : terms.price ≤ r.allocation
  pub covered :
      floor_for pricing r.specialist.scan r.specialist.econ terms.tier terms.deadline ≤ terms.price

-- What an agreement has cleared.
IsHonest-terms :
    (cfg : NegotiationConfig) (c : Close) (transcript : List Turn)
    → IsHonest cfg c transcript
    → is_agreed c ≡ true
    → (terms : AuditTerms) × ((c ≡ agreed terms)
        × (seller_may_settle terms cfg.seller_guard ≡ ok)
        × (buyer_may_settle terms cfg.buyer_guard ≡ ok))
IsHonest-terms cfg (agreed terms) transcript h a = (terms, (refl, h.0, h.1))
IsHonest-terms cfg (walked reason) transcript h a = absurd (ground arith)

-- The bundle is sold: a deep review by the job's deadline, at the price, which is at the floor or above
-- and within the buyer's budget.
pub record IsSold (job : SubcontractJob) (bundle_floor price : ℕ) (r : NegotiationResult)
    : Type 0 where
  pub terms : AuditTerms
  pub settled : r.outcome ≡ agreed terms
  pub at_price : terms.price ≡ price
  pub deep : terms.tier ≡ AuditTier.deep
  pub on_time : terms.deadline ≡ job.deadline
  pub at_floor : bundle_floor ≤ price
  pub affordable : price ≤ job.buyer_budget

-- What the award of a plan is worth: nothing is claimed of a plan without one.
pub record IsCoveredAward (pricing : DeepAuditPricing) (job : SubcontractJob)
    (plan : SubcontractPlan) (price : ℕ) : Type 0 where
  pub sourced : All (IsSourced pricing job) plan.subs
  pub of_all : map (λ r. r.specialist) plan.subs ≡ job.specialists
  pub cost : ℕ
  pub bundle_floor : ℕ
  pub cost_recorded : plan.bundle_cost ≡ some cost
  pub floor_recorded : plan.bundle_floor ≡ some bundle_floor
  pub cost_of : cost ≡ round_cents (sum (map (λ r. price_of r.negotiation.outcome) plan.subs))
  pub paid_for : cost ≤ bundle_floor
  pub bundle : NegotiationResult
  pub bundle_recorded : plan.bundle_negotiation ≡ some bundle
  pub sold : IsSold job bundle_floor price bundle

module _ (pricing : DeepAuditPricing) (job : SubcontractJob) where
  source-IsSourced :
      (s : Specialist)
      → is_agreed (source pricing job s).negotiation.outcome ≡ true
      → IsSourced pricing job (source pricing job s)
  unfolding source seller_guard_for
  source-IsSourced s h =
      let cfg = sub_config pricing job s in
      let r = source pricing job s in
      let proper =
        run_negotiation-IsProper (deterministic_seller pricing (seller_brief pricing job s))
          (deterministic_buyer (buyer_brief cfg.buyer_guard s.required_tier job.deadline)) cfg in
      let (terms, (e, seller_ok, buyer_ok)) =
        IsHonest-terms cfg r.negotiation.outcome r.negotiation.transcript proper.honest h in
      record {
        terms = terms;
        settled = e;
        allocated = refl;
        needed_tier = buyer_may_settle-tier terms cfg.buyer_guard s.required_tier refl buyer_ok;
        on_time = buyer_may_settle-deadline terms cfg.buyer_guard job.deadline refl buyer_ok;
        affordable = buyer_may_settle-le terms cfg.buyer_guard buyer_ok;
        covered = seller_may_settle-le terms cfg.seller_guard seller_ok;
      }

  subs_of-IsSourced :
      (ss : List Specialist)
      → every (λ r. is_agreed r.negotiation.outcome) (subs_of pricing job ss) ≡ true
      → All (IsSourced pricing job) (subs_of pricing job ss)
  subs_of-IsSourced [] h = tt
  subs_of-IsSourced (s ∷ ss) h =
      let (here, rest) = and-true (is_agreed (source pricing job s).negotiation.outcome) _ h in
      (source-IsSourced s here, subs_of-IsSourced ss rest)

  subs_of-specialists :
      (ss : List Specialist) → map (λ r. r.specialist) (subs_of pricing job ss) ≡ ss
  unfolding source
  subs_of-specialists [] = refl
  subs_of-specialists (s ∷ ss) = ap (◌∷◌ s) (subs_of-specialists ss)

  -- the bundle's own negotiation
  bundle-IsSold :
      (bundle_floor price : ℕ)
      → outcome_of pricing job (bundle_negotiation pricing job bundle_floor).outcome ≡ awarded price
      → IsSold job bundle_floor price (bundle_negotiation pricing job bundle_floor)
  unfolding bundle_negotiation
  bundle-IsSold bundle_floor price h =
      split (bundle_negotiation pricing job bundle_floor).outcome refl h
    where
      split :
          (c : Close)
          → (bundle_negotiation pricing job bundle_floor).outcome ≡ c
          → outcome_of pricing job c ≡ awarded price
          → IsSold job bundle_floor price (bundle_negotiation pricing job bundle_floor)
      split (walked reason) e k = absurd (ground arith)
      split (agreed terms) e k =
          let cfg = bundle_config pricing job bundle_floor in
          let r = bundle_negotiation pricing job bundle_floor in
          let proper =
            run_negotiation-IsProper (gc_bundle_seller bundle_floor job.deadline 40 34)
              (deterministic_buyer (buyer_brief cfg.buyer_guard AuditTier.deep job.deadline)) cfg in
          let honest = subst (λ c. IsHonest cfg c r.transcript) e proper.honest in
          let same : terms.price ≡ price = ground arith in
          record {
            terms = terms;
            settled = e;
            at_price = same;
            deep = buyer_may_settle-tier terms cfg.buyer_guard AuditTier.deep refl honest.1;
            on_time = buyer_may_settle-deadline terms cfg.buyer_guard job.deadline refl honest.1;
            at_floor =
                subst (λ n. bundle_floor ≤ n) same
                  (seller_may_settle-le terms cfg.seller_guard honest.0);
            affordable =
                subst (λ n. n ≤ job.buyer_budget) same
                  (buyer_may_settle-le terms cfg.buyer_guard honest.1);
          }

  -- If the bundle is awarded, then every specialist's component was sourced: for the tier that it
  -- needs, by the job's deadline, at a price within its allocation and not below the specialist's
  -- floor. The bundle's cost is what they cost together, and its floor is at least that. The bundle
  -- is agreed on as a deep review by the job's deadline, at a price that is at least the floor and
  -- within the buyer's budget.
  pub run_subcontract-IsCoveredAward :
      (price : ℕ)
      → (run_subcontract pricing job).outcome ≡ awarded price
      → IsCoveredAward pricing job (run_subcontract pricing job) price
  unfolding run_subcontract bundle_cost_of bundle_floor_of
  run_subcontract-IsCoveredAward price h =
      let subs = subs_of pricing job job.specialists in
      elim (Bool-cases (every (λ r. is_agreed r.negotiation.outcome) subs)) [
        | inr f ↦
            let none_is : no_source ≡ awarded price = rw (f, run_subcontract) at h in
            absurd (ground arith)
        | inl t ↦
            let cost = bundle_cost_of pricing job subs in
            let bundle_floor = bundle_floor_of pricing job cost in
            let sold = bundle-IsSold bundle_floor price (rw (t, run_subcontract) at h) in
            rw (t, run_subcontract)
              (record {
                sourced = subs_of-IsSourced job.specialists t;
                of_all = subs_of-specialists job.specialists;
                cost = cost;
                bundle_floor = bundle_floor;
                cost_recorded = refl;
                floor_recorded = refl;
                cost_of = refl;
                paid_for =
                    margin_le (sum (map (λ r. price_of r.negotiation.outcome) subs))
                      job.coord_margin_pct;
                bundle = bundle_negotiation pricing job bundle_floor;
                bundle_recorded = refl;
                sold = sold;
              })
      ]
