-- ===== src/Butler/Procurement/Award.antt =====
-- What the winner of `procure` of roster/procurement-butler/butler.ts is.
use mathlib.Core.Path.{subst}
use dacs_agent_reference.Common.{
  ℕ, ◌+◌, ◌≤◌, ◌<◌, min, String, Bool, true, false, Option, none, some, List, [], ◌∷◌, ◌≡◌, refl,
  inl, inr, ◌⊎◌, arith, All, Bool-cases, Option-cases,
}
use dacs_agent_reference.Common.Sort.{sort, All-sort}
use dacs_agent_reference.Butler.Types.{
  Listing, NegotiatedTerms, NegotiationResult, RfqRequest, RfqOutcome, NegotiationPort,
  ProcurementGoal, ButlerConfig, NegotiationTranscript, ProcurementAgreement,
}
use dacs_agent_reference.Butler.Haggling.{negotiate}
use dacs_agent_reference.Butler.Haggling.Reservation.{
  AcceptsOffers, PriceWithin, negotiate-PriceWithin,
}
use dacs_agent_reference.Butler.Procurement.{
  Viable, agreement_for, viable_of, viable_le, conclude, price_of_terms, award_rfq, rfq_transcript,
  scalar_path, negotiable_path, attempt, attempt_all, procure,
}
use dacs_agent_reference.Butler.Procurement.Candidates.{
  Fits, IsViable, viable_of-IsViable, All-Some,
}

module _ (lower : String → String) (locale_le : String → String → Bool) (config : ButlerConfig)
    (goal : ProcurementGoal) (budget : ℕ) (listings : List Listing) where
  abbrev pub IsCandidate : Viable → Type 0
  IsCandidate v = IsViable lower locale_le config goal budget listings v

  module _ {S : Type 0} (port : NegotiationPort S) where
    -- The award has the terms, and so the price, that the counterparty agreed to for the goal's brief.
    pub record Quoted (listing : Listing) (a : ProcurementAgreement) : Type 0 where
      pub req : RfqRequest
      pub quote : S → String → RfqRequest → S × RfqOutcome
      pub asked_in : S
      pub terms : NegotiatedTerms
      pub negotiable : listing.negotiable ≡ true
      pub briefed : goal.rfq ≡ some req
      pub answers : port.negotiate_rfq ≡ some quote
      pub settled : (quote asked_in listing.id req).1.result ≡ NegotiationResult.agreed
      pub quoted : (quote asked_in listing.id req).1.terms ≡ some terms
      pub recorded : a.agreed_terms ≡ some terms
      pub at_quote : a.price ≡ terms.price

    -- The award came by no brief, and is within the budget.
    pub record Affordable (listing : Listing) (a : ProcurementAgreement) : Type 0 where
      pub within : a.price ≤ budget
      pub unquoted : a.agreed_terms ≡ none
      pub by_offers : (listing.negotiable ≡ false) ⊎ (goal.rfq ≡ none) ⊎ (port.negotiate_rfq ≡ none)

    -- An agreement on a listing of the market that fits the goal, and how its price came about.
    pub record IsAward (a : ProcurementAgreement) : Type 0 where
      pub listing : Listing
      pub fits : Fits lower locale_le config goal budget listings listing a.rail
      pub named : a.listing_id ≡ listing.id
      pub provided : a.provider ≡ listing.provider
      pub priced : Affordable listing a ⊎ Quoted listing a

    abbrev Awarded : Option ProcurementAgreement → Type 0
    Awarded none = Unit
    Awarded (some a) = IsAward a

    award :
        (v : Viable) (price : ℕ) (negotiated : Bool) (terms : Option NegotiatedTerms)
        → IsCandidate v
        → (let a = agreement_for v.listing goal price v.rail negotiated terms in
            Affordable v.listing a ⊎ Quoted v.listing a)
        → IsAward (agreement_for v.listing goal price v.rail negotiated terms)
    award v price negotiated terms h priced = record {
      listing = v.listing;
      fits = h.0;
      named = refl;
      provided = refl;
      priced = priced;
    }

  module _ {S : Type 0} (port : NegotiationPort S)
      (rate : 0 < config.negotiation.concession_rate.part + config.negotiation.concession_rate.rest)
      (discount : 0 < config.negotiation.open_discount.part + config.negotiation.open_discount.rest)
      (fair : AcceptsOffers port) where
    haggled-Awarded :
        (v : Viable) (t : NegotiationTranscript) (price : Option ℕ) (result : NegotiationResult)
        → IsCandidate v
        → (v.listing.negotiable ≡ false) ⊎ (goal.rfq ≡ none) ⊎ (port.negotiate_rfq ≡ none)
        → PriceWithin budget price
        → Awarded port (conclude lower locale_le config port goal v t price none result).0
    haggled-Awarded v t none result h o w = tt
    haggled-Awarded v t (some price) NegotiationResult.walked h o w = tt
    haggled-Awarded v t (some price) NegotiationResult.agreed h o w =
        award port v price true none h (inl (record { within = w; unquoted = refl; by_offers = o }))

    within_budget :
        (ask : ℕ) (price : Option ℕ) → PriceWithin (min budget ask) price → PriceWithin budget price
    within_budget ask none w = tt
    within_budget ask (some price) w = omega arith

    scalar_path-Awarded :
        (v : Viable) (s : S)
        → IsCandidate v
        → (v.listing.negotiable ≡ false) ⊎ (goal.rfq ≡ none) ⊎ (port.negotiate_rfq ≡ none)
        → Awarded port (scalar_path lower locale_le config port goal budget v s).1.0
    unfolding scalar_path
    scalar_path-Awarded v s h o =
        let t = (negotiate port config.negotiation v.listing.id v.ask budget s).1 in
        haggled-Awarded v t t.agreed_price t.result h o (
          within_budget v.ask t.agreed_price (
            negotiate-PriceWithin port config.negotiation v.listing.id v.ask budget s rate discount
              fair))

    -- An outcome of the brief is awarded at its own terms.
    award_rfq-Awarded :
        (v : Viable) (req : RfqRequest) (quote : S → String → RfqRequest → S × RfqOutcome) (s : S)
        → IsCandidate v
        → v.listing.negotiable ≡ true
        → goal.rfq ≡ some req
        → port.negotiate_rfq ≡ some quote
        → Awarded port
            (award_rfq lower locale_le config port goal v req (quote s v.listing.id req).1).0
    award_rfq-Awarded v req quote s h n e f =
        of_outcome (quote s v.listing.id req).1.result (quote s v.listing.id req).1.terms refl refl
      where
        t : NegotiationTranscript
        t = rfq_transcript v.listing.id v.ask req (quote s v.listing.id req).1

        of_outcome :
            (result : NegotiationResult) (terms : Option NegotiatedTerms)
            → (quote s v.listing.id req).1.result ≡ result
            → (quote s v.listing.id req).1.terms ≡ terms
            → Awarded port
                (conclude lower locale_le config port goal v t
                  (price_of_terms terms)
                  terms
                  result).0
        of_outcome result none p q = tt
        of_outcome NegotiationResult.walked (some terms) p q = tt
        of_outcome NegotiationResult.agreed (some terms) p q =
            award port v terms.price true (some terms) h (
              inr (record {
                req = req;
                quote = quote;
                asked_in = s;
                terms = terms;
                negotiable = n;
                briefed = e;
                answers = f;
                settled = p;
                quoted = q;
                recorded = refl;
                at_quote = refl;
              }))

    negotiable_path-Awarded :
        (v : Viable) (s : S) (req : Option RfqRequest)
        (quote : Option (S → String → RfqRequest → S × RfqOutcome))
        → IsCandidate v
        → v.listing.negotiable ≡ true
        → goal.rfq ≡ req
        → port.negotiate_rfq ≡ quote
        → Awarded port (negotiable_path lower locale_le config port goal budget v s req quote).1.0
    unfolding negotiable_path
    negotiable_path-Awarded v s (some req) (some quote) h n e f =
        award_rfq-Awarded v req quote s h n e f
    negotiable_path-Awarded v s none quote h n e f = scalar_path-Awarded v s h (inr (inl e))
    negotiable_path-Awarded v s (some req) none h n e f = scalar_path-Awarded v s h (inr (inr f))

    attempt-Awarded :
        (v : Viable) (s : S)
        → IsCandidate v
        → Awarded port (attempt lower locale_le config port goal budget v s).1.0
    unfolding attempt negotiable_path scalar_path
    attempt-Awarded v s h = elim (Bool-cases v.listing.negotiable) [
      | inl t ↦
          rw (t, attempt) (negotiable_path-Awarded v s goal.rfq port.negotiate_rfq h t refl refl)
      | inr f ↦
          rw (f, attempt)
            (award port v v.ask false none h
              (inl (record { within = h.1 f; unquoted = refl; by_offers = inl f })))
    ]

    attempt_all-Awarded :
        (vs : List Viable) (s : S)
        → All IsCandidate vs
        → Awarded port (attempt_all lower locale_le config port goal budget vs s).1.0
    unfolding attempt_all
    attempt_all-Awarded [] s h = tt
    attempt_all-Awarded (v ∷ vs) s h =
        let tried = attempt lower locale_le config port goal budget v s in
        elim (Option-cases tried.1.0) [
          | inl e ↦ rw (e, attempt_all) (attempt_all-Awarded vs tried.0 h.1)
          | inr (a, e) ↦ rw (e, attempt_all) (subst (Awarded port) e (attempt-Awarded v s h.0))
        ]

    -- Suppose the counterparty never accepts an offer at more than it is offered. If `procure`
    -- awards, then it is to a listing of the market with every required capability, by the first
    -- preferred rail that the listing takes. Either the price is within the budget, and the goal has
    -- no brief, the counterparty takes none, or the listing's price is fixed; or the terms and the
    -- price are those that the counterparty agreed to for that listing when given the goal's brief.
    pub procure-IsAward :
        (s : S) (a : ProcurementAgreement)
        → (procure lower locale_le config port goal budget listings s).1.winner ≡ some a
        → IsAward port a
    unfolding procure
    procure-IsAward s a h = subst (Awarded port) h (
        attempt_all-Awarded
          (sort (viable_le lower locale_le config)
            (viable_of lower locale_le config goal budget listings))
          s
          (All-sort (viable_le lower locale_le config) IsCandidate
            (viable_of lower locale_le config goal budget listings)
            (viable_of-IsViable lower locale_le config goal budget listings listings
              (All-Some listings))))
