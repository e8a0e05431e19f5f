-- ===== src/Butler/Tests.antt =====
-- Runs of roster/procurement-butler with one negotiable listing and a seller that meets each offer
-- half way.
use dacs_agent_reference.Common.{
  ℕ, ◌+◌, min, true, none, some, [], ◌∷◌, ◌≡◌, refl, arith, leb, if◌then◌else◌,
}
use dacs_agent_reference.Common.Sort.{sort}
use dacs_agent_reference.Butler.Money.{whole, concede}
use dacs_agent_reference.Butler.Types.{
  PaymentRail, fixed, Listing, NegotiatedTerms, NegotiationResult, NegotiationResponse, RfqRequest,
  NegotiationPort, NegotiationConfig, ProcurementGoal, ButlerConfig, ProcurementAgreement, rejected,
  AcceptanceCheck,
}
use dacs_agent_reference.Butler.Haggling.{after_offer, play, negotiate}
use dacs_agent_reference.Butler.Haggling.Reservation.{
  IsBounded, AcceptsOffers, PriceWithin, negotiate-IsBounded, negotiate-PriceWithin,
}
use dacs_agent_reference.Butler.Procurement.{
  ask_price_of, best_rail, score, screen_rail, screen, scalar_path, negotiable_path, attempt,
  attempt_all, procure,
}
use dacs_agent_reference.Butler.Procurement.Award.{IsAward, procure-IsAward}
use dacs_agent_reference.Butler.Acceptance.{
  Content, run_checks, accept_checks, accept_deliverable, Verdict, accept_deliverable-Verdict,
}

-- Accepts at 800 cents and above, else counters at 900.
abbrev seller : NegotiationPort (Unit {0})
seller = record {
  respond = λ s id offer r. (
    tt,
    if leb 800 offer then NegotiationResponse.accept offer else NegotiationResponse.counter 900,
  );
  negotiate_rfq = none;
}

-- Accepts, at twice what it is offered.
abbrev greedy : NegotiationPort (Unit {0})
greedy = record {
  respond = λ s id offer r. (tt, NegotiationResponse.accept (offer + offer));
  negotiate_rfq = none;
}

abbrev terms : NegotiationConfig
terms = record {
  open_discount = record { part = 1; rest = 3 };
  concession_rate = record { part = 1; rest = 1 };
  max_rounds = 4;
}

abbrev config : ButlerConfig
config = record {
  rail_preference = PaymentRail.pay_dem ∷ PaymentRail.pay_x402 ∷ PaymentRail.pay_evm_erc8183 ∷ [];
  weights = record {
    price = record { num = 35; den = 100 };
    rail = record { num = 25; den = 100 };
    quality = record { num = 40; den = 100 };
  };
  negotiation = terms;
}

abbrev listing : Listing
listing = record {
  id = "audit";
  provider = "acme";
  capabilities = "sec" ∷ [];
  fees = fixed (whole 1000);
  rails = PaymentRail.pay_x402 ∷ [];
  negotiable = true;
  quality = record {
    rating = whole 4;
    completed_jobs = 10;
    dispute_rate = record { part = 1; rest = 9 };
  };
  acceptance = AcceptanceCheck.min_length 3 ∷ [];
}

abbrev goal : ProcurementGoal
goal = record {
  description = "an audit";
  required_capabilities = "sec" ∷ [];
  estimated_units = none;
  rfq = none;
}

abbrev award : ℕ → ProcurementAgreement
award price = record {
  listing_id = "audit";
  provider = "acme";
  goal = "an audit";
  price = price;
  rail = PaymentRail.pay_x402;
  negotiated = true;
  acceptance = AcceptanceCheck.min_length 3 ∷ [];
  agreed_terms = none;
}

negotiate-IsBounded_example :
    IsBounded seller terms (min 950 1000) (negotiate seller terms "audit" 1000 950 tt).1
negotiate-IsBounded_example =
    negotiate-IsBounded seller terms "audit" 1000 950 tt (omega arith) (omega arith)

seller_fair : AcceptsOffers seller
seller_fair s id offer r price h = ground arith

negotiate-PriceWithin_example :
    PriceWithin (min 950 1000) (negotiate seller terms "audit" 1000 950 tt).1.agreed_price
negotiate-PriceWithin_example =
    negotiate-PriceWithin seller terms "audit" 1000 950 tt (omega arith) (omega arith) seller_fair

-- The second offer, half way from 750 to the reservation, is accepted.
awarded :
    (procure (λ s. s) (λ a b. true) config seller goal 950 (listing ∷ []) tt).1.winner
    ≡ some (award 850)
unfolding procure attempt_all attempt negotiable_path scalar_path negotiate play after_offer concede
    sort screen screen_rail score best_rail ask_price_of
awarded = refl

abbrev quote_terms : NegotiatedTerms
quote_terms = record { tier = "deep"; deadline = "standard"; price = 900 }

-- Answers a brief at 900 cents, and offers as `seller` does.
abbrev desk : NegotiationPort (Unit {0})
desk = record seller {
  negotiate_rfq = some (λ s id req.
      (tt, record { result = NegotiationResult.agreed; terms = some quote_terms; rounds = 3 }));
}

abbrev brief : RfqRequest
brief = record {
  budget = 920;
  acceptable_tiers = "quick" ∷ "deep" ∷ [];
  preferred_tier = "deep";
  preferred_deadline = "standard";
}

abbrev briefed : ProcurementGoal
briefed = record goal { rfq = some brief }

abbrev quoted_award : ProcurementAgreement
quoted_award = record (award 900) { agreed_terms = some quote_terms }

desk_fair : AcceptsOffers desk
desk_fair s id offer r price h = ground arith

quoted :
    (procure (λ s. s) (λ a b. true) config desk briefed 950 (listing ∷ []) tt).1.winner
    ≡ some quoted_award
unfolding procure attempt_all attempt negotiable_path sort screen screen_rail score best_rail
    ask_price_of
quoted = refl

procure-IsAward_example :
    IsAward (λ s. s) (λ a b. true) config briefed 950 (listing ∷ []) desk quoted_award
procure-IsAward_example =
    procure-IsAward (λ s. s) (λ a b. true) config briefed 950 (listing ∷ []) desk (omega arith)
      (omega arith) desk_fair tt quoted_award quoted

-- The greedy seller is paid 1500 cents, out of a budget of 950.
overpaid :
    (procure (λ s. s) (λ a b. true) config greedy goal 950 (listing ∷ []) tt).1.winner
    ≡ some (award 1500)
unfolding procure attempt_all attempt negotiable_path scalar_path negotiate play after_offer concede
    sort screen screen_rail score best_rail ask_price_of
overpaid = refl

abbrev report : Content
report = record { sha256_hex = "ab"; includes = λ needle. true; size = 2 }

report_rejected : accept_deliverable report (award 850) ≡ rejected (AcceptanceCheck.min_length 3) 1
unfolding accept_checks run_checks
report_rejected = refl

accept_deliverable-Verdict_example :
    Verdict report (AcceptanceCheck.min_length 3 ∷ []) (accept_deliverable report (award 850))
accept_deliverable-Verdict_example = accept_deliverable-Verdict report (award 850)
