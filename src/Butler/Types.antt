-- ===== src/Butler/Types.antt =====
-- The types and ports of roster/procurement-butler/types.ts. Descriptions are left out.
use dacs_agent_reference.Common.{ℕ, String, Bool, Option, List}
use dacs_agent_reference.Butler.Money.{Ratio, Share}

pub data PaymentRail : Type 0 where
  pay_dem pay_x402 pay_evm_erc8183 : PaymentRail

pub data FeeSchedule : Type 0 where
  fixed : Ratio → FeeSchedule
  -- the price of a unit, the unit, and the least total
  per_unit : Ratio → String → Ratio → FeeSchedule

pub data AcceptanceCheck : Type 0 where
  sha256 content_includes : String → AcceptanceCheck
  min_length : ℕ → AcceptanceCheck

pub record QualityStats : Type 0 where
  pub rating : Ratio
  pub completed_jobs : ℕ
  pub dispute_rate : Share

pub record Listing : Type 0 where
  pub id : String
  pub provider : String
  pub capabilities : List String
  pub fees : FeeSchedule
  pub rails : List PaymentRail
  pub negotiable : Bool
  pub quality : QualityStats
  pub acceptance : List AcceptanceCheck

pub record NegotiatedTerms : Type 0 where
  pub tier : String
  pub deadline : String
  pub price : ℕ

pub data NegotiationResponse : Type 0 where
  accept counter : ℕ → NegotiationResponse
  reject : NegotiationResponse

pub record RfqRequest : Type 0 where
  pub budget : ℕ
  pub acceptable_tiers : List String
  pub preferred_tier : String
  pub preferred_deadline : String

pub data NegotiationResult : Type 0 where
  agreed walked : NegotiationResult

pub record RfqOutcome : Type 0 where
  pub result : NegotiationResult
  pub terms : Option NegotiatedTerms
  pub rounds : ℕ

-- The counterparty, with a state of its own.
pub record NegotiationPort (S : Type 0) : Type 0 where
  pub respond : S → String → ℕ → ℕ → S × NegotiationResponse
  pub negotiate_rfq : Option (S → String → RfqRequest → S × RfqOutcome)

pub record ProcurementGoal : Type 0 where
  pub description : String
  pub required_capabilities : List String
  pub estimated_units : Option ℕ
  pub rfq : Option RfqRequest

pub record ScoreWeights : Type 0 where
  pub price : Ratio
  pub rail : Ratio
  pub quality : Ratio

pub record NegotiationConfig : Type 0 where
  pub open_discount : Share
  pub concession_rate : Share
  pub max_rounds : ℕ

pub record ButlerConfig : Type 0 where
  pub rail_preference : List PaymentRail
  pub weights : ScoreWeights
  pub negotiation : NegotiationConfig

-- in thousandths
pub record CandidateScores : Type 0 where
  pub price : ℕ
  pub rail : ℕ
  pub quality : ℕ
  pub total : ℕ

-- Why a candidate was dropped.
pub data Exclusion : Type 0 where
  missing : List String → Exclusion
  no_rail over_budget : Exclusion

pub record CandidateAudit : Type 0 where
  pub listing_id : String
  pub provider : String
  pub ask_price : ℕ
  pub excluded : Option Exclusion
  pub scores : Option CandidateScores
  pub chosen_rail : Option PaymentRail

pub data Actor : Type 0 where
  buyer seller : Actor

pub data Action : Type 0 where
  offer counter accept walk : Action

pub record NegotiationRound : Type 0 where
  pub round : ℕ
  pub actor : Actor
  pub action : Action
  pub price : Option ℕ

pub record NegotiationTranscript : Type 0 where
  pub listing_id : String
  pub ask : ℕ
  pub reservation : ℕ
  pub rounds : List NegotiationRound
  pub result : NegotiationResult
  pub agreed_price : Option ℕ
  pub rfq : Option RfqOutcome

pub record ProcurementAgreement : Type 0 where
  pub listing_id : String
  pub provider : String
  pub goal : String
  pub price : ℕ
  pub rail : PaymentRail
  pub negotiated : Bool
  pub acceptance : List AcceptanceCheck
  pub agreed_terms : Option NegotiatedTerms

pub record ProcurementDecision : Type 0 where
  pub winner : Option ProcurementAgreement
  pub candidates : List CandidateAudit
  pub negotiations : List NegotiationTranscript

pub data AcceptanceResult : Type 0 where
  -- how many checks were run
  accepted : ℕ → AcceptanceResult
  -- the check that failed, and how many were run
  rejected : AcceptanceCheck → ℕ → AcceptanceResult
  needs_evaluator : AcceptanceResult
