-- ===== src/Butler/Procurement.antt =====
-- `procure` of roster/procurement-butler/butler.ts: the listings are filtered and scored, and tried in the
-- order of their scores until one is agreed on.
pub mod Candidates
pub mod Award
use dacs_agent_reference.Common.{
  ℕ, suc, ◌+◌, ◌-◌, ◌*◌, min, String, Bool, true, false, not, ◌&&◌, Option, none, some, List, [],
  ◌∷◌, ◌++◌, map, any, is_empty, length, find, ltb, leb, ◌==◌, if◌then◌else◌, str_eq,
}
use dacs_agent_reference.Common.Sort.{sort}
use dacs_agent_reference.Butler.Money.{
  Ratio, Share, round_cents, whole, times, plus, larger, at_most_one, complement, thousandths,
}
use dacs_agent_reference.Butler.Types.{
  PaymentRail, FeeSchedule, fixed, per_unit, QualityStats, Listing, NegotiatedTerms,
  NegotiationResult, RfqRequest, RfqOutcome, NegotiationPort, ProcurementGoal, ScoreWeights,
  ButlerConfig, CandidateScores, Exclusion, missing, no_rail, over_budget, CandidateAudit,
  NegotiationTranscript, ProcurementAgreement, ProcurementDecision,
}
use dacs_agent_reference.Butler.Haggling.{negotiate}

unfoldable pub ask_price_of : FeeSchedule → ℕ → ℕ
ask_price_of (fixed price) units = round_cents price
ask_price_of (per_unit unit_price unit min_total) units =
    round_cents (larger (times unit_price (whole units)) min_total)

abbrev pub rail_eq : PaymentRail → PaymentRail → Bool
rail_eq PaymentRail.pay_dem PaymentRail.pay_dem = true
rail_eq PaymentRail.pay_x402 PaymentRail.pay_x402 = true
rail_eq PaymentRail.pay_evm_erc8183 PaymentRail.pay_evm_erc8183 = true
rail_eq _ _ = false

-- the first preferred rail that is offered
unfoldable pub best_rail : List PaymentRail → List PaymentRail → Option PaymentRail
best_rail preference offered = find (λ r. any (λ o. rail_eq o r) offered) preference

abbrev pub index_of : PaymentRail → List PaymentRail → ℕ
index_of r [] = 0
index_of r (x ∷ xs) = if rail_eq x r then 0 else suc (index_of r xs)

-- `clamp01(1 - ask / budget)`, for a budget above 0
abbrev pub price_score : ℕ → ℕ → Ratio
price_score ask budget = record { num = budget - ask; den = budget }

abbrev pub rail_score : List PaymentRail → PaymentRail → Ratio
rail_score preference rail =
    let n = length preference in record { num = n - index_of rail preference; den = n }

abbrev pub quality_score : QualityStats → Ratio
quality_score q =
    let rating = times q.rating (record { num = 7; den = 50 }) in
    let volume =
      times (record { num = min q.completed_jobs 50; den = 50 }) (record { num = 3; den = 10 }) in
    at_most_one (times (plus rating volume) (complement q.dispute_rate))

unfoldable pub score : ButlerConfig → Listing → ℕ → PaymentRail → ℕ → CandidateScores
score config listing ask rail budget =
    let w = config.weights in
    let price = price_score ask budget in
    let rail = rail_score config.rail_preference rail in
    let quality = quality_score listing.quality in
    record {
      price = thousandths price;
      rail = thousandths rail;
      quality = thousandths quality;
      total =
          thousandths
            (plus (plus (times w.price price) (times w.rail rail)) (times w.quality quality));
    }

pub record Viable : Type 0 where
  pub listing : Listing
  pub ask : ℕ
  pub rail : PaymentRail
  pub scores : CandidateScores

abbrev pub agreement_for :
    Listing
    → ProcurementGoal
    → ℕ
    → PaymentRail
    → Bool
    → Option NegotiatedTerms
    → ProcurementAgreement
agreement_for listing goal price rail negotiated terms = record {
  listing_id = listing.id;
  provider = listing.provider;
  goal = goal.description;
  price = price;
  rail = rail;
  negotiated = negotiated;
  acceptance = listing.acceptance;
  agreed_terms = terms;
}

abbrev pub price_of_terms : Option NegotiatedTerms → Option ℕ
price_of_terms none = none
price_of_terms (some terms) = some terms.price

abbrev pub rfq_transcript : String → ℕ → RfqRequest → RfqOutcome → NegotiationTranscript
rfq_transcript id ask req rfq = record {
  listing_id = id;
  ask = ask;
  reservation = req.budget;
  rounds = [];
  result = rfq.result;
  agreed_price = price_of_terms rfq.terms;
  rfq = some rfq;
}

abbrev pub units_of : ProcurementGoal → ℕ
units_of goal = elim goal.estimated_units [ none ↦ 1 | some n ↦ n ]

-- `lower` is `toLowerCase`, and `locale_le` the order of `localeCompare`.
module _ (lower : String → String) (locale_le : String → String → Bool)
    (config : ButlerConfig) where
  abbrev pub has_capability : Listing → String → Bool
  has_capability listing tag = any (λ c. str_eq (lower c) (lower tag)) listing.capabilities

  abbrev pub missing_tags : Listing → List String → List String
  missing_tags listing [] = []
  missing_tags listing (tag ∷ tags) =
      let rest = missing_tags listing tags in
      if has_capability listing tag then rest else tag ∷ rest

  -- the listing as a candidate, or why it is none
  pub data Screening : Type 0 where
    excluded : Exclusion → Option PaymentRail → Screening
    viable : Viable → Screening

  unfoldable pub screen_rail : Listing → ℕ → ℕ → Option PaymentRail → Screening
  screen_rail listing ask budget none = excluded no_rail none
  screen_rail listing ask budget (some rail) =
      if not listing.negotiable && ltb budget ask
      then excluded over_budget (some rail)
      else viable (record {
        listing = listing;
        ask = ask;
        rail = rail;
        scores = score config listing ask rail budget;
      })

  -- one round of the first loop
  unfoldable pub screen : ProcurementGoal → ℕ → Listing → Screening
  screen goal budget listing =
      let tags = missing_tags listing goal.required_capabilities in
      if not (is_empty tags)
      then excluded (missing tags) none
      else screen_rail listing (ask_price_of listing.fees (units_of goal)) budget
          (best_rail config.rail_preference listing.rails)

  abbrev pub audit_of : ProcurementGoal → Listing → Screening → CandidateAudit
  audit_of goal listing (excluded why rail) = record {
    listing_id = listing.id;
    provider = listing.provider;
    ask_price = ask_price_of listing.fees (units_of goal);
    excluded = some why;
    scores = none;
    chosen_rail = rail;
  }
  audit_of goal listing (viable v) = record {
    listing_id = listing.id;
    provider = listing.provider;
    ask_price = ask_price_of listing.fees (units_of goal);
    excluded = none;
    scores = some v.scores;
    chosen_rail = some v.rail;
  }

  abbrev pub viable_of : ProcurementGoal → ℕ → List Listing → List Viable
  viable_of goal budget [] = []
  viable_of goal budget (listing ∷ listings) =
      let rest = viable_of goal budget listings in
      elim (screen goal budget listing) [ excluded why rail ↦ rest | viable v ↦ v ∷ rest ]

  -- highest total first, then by id
  abbrev pub viable_le : Viable → Viable → Bool
  viable_le a b =
      if a.scores.total == b.scores.total
      then locale_le a.listing.id b.listing.id
      else ltb b.scores.total a.scores.total

  module _ {S : Type 0} (port : NegotiationPort S) where
    -- The award of a candidate, if any, and the transcript of its negotiation, if any.
    abbrev pub Try : Type 0
    Try = Option ProcurementAgreement × List NegotiationTranscript

    -- the price and the terms that a negotiation ended with, if it agreed
    abbrev pub conclude :
        ProcurementGoal
        → Viable
        → NegotiationTranscript
        → Option ℕ
        → Option NegotiatedTerms
        → NegotiationResult
        → Try
    conclude goal v t none terms result = (none, t ∷ [])
    conclude goal v t (some price) terms NegotiationResult.walked = (none, t ∷ [])
    conclude goal v t (some price) terms NegotiationResult.agreed =
        (some (agreement_for v.listing goal price v.rail true terms), t ∷ [])

    abbrev pub award_rfq : ProcurementGoal → Viable → RfqRequest → RfqOutcome → Try
    award_rfq goal v req out =
        conclude goal v (rfq_transcript v.listing.id v.ask req out) (price_of_terms out.terms)
          out.terms out.result

    unfoldable pub scalar_path : ProcurementGoal → ℕ → Viable → S → S × Try
    scalar_path goal budget v s =
        let (s', t) = negotiate port config.negotiation v.listing.id v.ask budget s in
        (s', conclude goal v t t.agreed_price none t.result)

    -- the negotiable listing: an RFQ if the goal has a brief and the counterparty takes one
    unfoldable pub negotiable_path :
        ProcurementGoal
        → ℕ
        → Viable
        → S
        → Option RfqRequest
        → Option (S → String → RfqRequest → S × RfqOutcome)
        → S × Try
    negotiable_path goal budget v s (some req) (some negotiate_rfq) =
        let (s', out) = negotiate_rfq s v.listing.id req in (s', award_rfq goal v req out)
    negotiable_path goal budget v s none rfq = scalar_path goal budget v s
    negotiable_path goal budget v s (some req) none = scalar_path goal budget v s

    -- one round of the second loop
    unfoldable pub attempt : ProcurementGoal → ℕ → Viable → S → S × Try
    attempt goal budget v s =
        if v.listing.negotiable
        then negotiable_path goal budget v s goal.rfq port.negotiate_rfq
        else (s, (some (agreement_for v.listing goal v.ask v.rail false none), []))

    -- until a candidate is awarded
    unfoldable pub attempt_all : ProcurementGoal → ℕ → List Viable → S → S × Try
    attempt_all goal budget [] s = (s, (none, []))
    attempt_all goal budget (v ∷ vs) s =
        let (s', (award, ts)) = attempt goal budget v s in
        let (s'', (later, more)) = attempt_all goal budget vs s' in
        elim award [ some a ↦ (s', (some a, ts)) | none ↦ (s'', (later, ts ++ more)) ]

    -- `listings` is what the marketplace answered
    unfoldable pub procure : ProcurementGoal → ℕ → List Listing → S → S × ProcurementDecision
    procure goal budget listings s =
        let (s', (winner, ts)) =
          attempt_all goal budget (sort viable_le (viable_of goal budget listings)) s in
        (
          s',
          record {
            winner = winner;
            candidates = map (λ l. audit_of goal l (screen goal budget l)) listings;
            negotiations = ts;
          },
        )
