-- ===== src/Negotiation/Terms.antt =====
-- roster/audit-negotiator/terms.ts, and the price of a deep audit of roster/sec-audit/deep-audit.ts
-- that it calls. Money is a whole number of hundredths of a cent, so the code's test that a price is
-- rounded to cents has its meaning; the numbers of the source that are no such amount (negative, not
-- finite) are refused by that code as 0 is here. Sizes are in lines, a thousandth of a KLOC; margins
-- and the rush multiplier are whole percents. What the source computes in floats is exact here.
pub mod Cleared
use dacs_agent_reference.Common.{
  ℕ, ◌+◌, ◌*◌, ◌/◌, Bool, true, false, not, List, any, if◌then◌else◌, ltb, ◌==◌,
}

pub data AuditTier : Type 0 where
  quick deep : AuditTier

pub data Deadline : Type 0 where
  standard rush : Deadline

pub record AuditTerms : Type 0 where
  pub tier : AuditTier
  pub deadline : Deadline
  pub price : ℕ

-- the `rationale` of a move is left out
pub data NegotiationMove : Type 0 where
  offer counter accept : AuditTerms → NegotiationMove
  reject : NegotiationMove

pub record ScanFacts : Type 0 where
  pub lines : ℕ
  pub has_solidity : Bool
  pub num_tools : ℕ

unfoldable pub tools_for_scan : Bool → ℕ
tools_for_scan has_solidity = 1 + (if has_solidity then 1 else 0)

-- `Math.ceil(kloc)`
abbrev pub ceil_kloc : ℕ → ℕ
ceil_kloc lines = (lines + 999) / 1000

pub record DeskEconomics : Type 0 where
  pub quick_base : ℕ
  pub quick_per_kloc : ℕ
  pub rush_multiplier : ℕ
  pub min_margin_pct : ℕ
  pub list_margin_pct : ℕ

abbrev pub default_economics : DeskEconomics
default_economics = record {
  quick_base = 10000;
  quick_per_kloc = 2500;
  rush_multiplier = 150;
  min_margin_pct = 15;
  list_margin_pct = 60;
}

-- `roundCents` of n / d: the nearest whole cent, a half rounded up
unfoldable pub round_cents_of : ℕ → ℕ → ℕ
round_cents_of n d = (2 * n + 100 * d) / (200 * d) * 100

abbrev pub round_cents : ℕ → ℕ
round_cents n = round_cents_of n 1

pub record DeepAuditPricing : Type 0 where
  pub base : ℕ
  pub per_tool : ℕ
  pub per_kloc : ℕ

unfoldable pub deep_audit_price_for : ℕ → ℕ → DeepAuditPricing → ℕ
unfolding round_cents_of
deep_audit_price_for num_tools lines p =
    round_cents (p.base + p.per_tool * num_tools + p.per_kloc * ceil_kloc lines)

-- `pricing` is DEEP_AUDIT_PRICING
module _ (pricing : DeepAuditPricing) (scan : ScanFacts) (econ : DeskEconomics) where
  abbrev pub base_cost : AuditTier → ℕ
  base_cost AuditTier.deep = deep_audit_price_for scan.num_tools scan.lines pricing
  base_cost AuditTier.quick =
      round_cents (econ.quick_base + econ.quick_per_kloc * ceil_kloc scan.lines)

  -- a hundred times the cost with the rush multiplier
  abbrev pub with_rush : Deadline → ℕ → ℕ
  with_rush Deadline.rush base = base * econ.rush_multiplier
  with_rush Deadline.standard base = base * 100

  unfoldable pub cost_for : AuditTier → Deadline → ℕ
  cost_for tier deadline = round_cents_of (with_rush deadline (base_cost tier)) 100

  unfoldable pub floor_for : AuditTier → Deadline → ℕ
  floor_for tier deadline =
      round_cents_of (cost_for tier deadline * (100 + econ.min_margin_pct)) 100

  unfoldable pub ask_for : AuditTier → Deadline → ℕ
  ask_for tier deadline = round_cents_of (cost_for tier deadline * (100 + econ.list_margin_pct)) 100

pub record SellerGuard : Type 0 where
  pub offered_tiers : List AuditTier
  pub offered_deadlines : List Deadline
  pub floor : AuditTier → Deadline → ℕ

pub record BuyerGuard : Type 0 where
  pub offered_tiers : List AuditTier
  pub offered_deadlines : List Deadline
  pub budget : ℕ
  pub acceptable_tiers : List AuditTier

pub data GuardReason : Type 0 where
  tier_not_offered deadline_not_offered not_positive not_rounded : GuardReason
  below_floor tier_unacceptable over_budget : GuardReason

pub data GuardVerdict : Type 0 where
  ok : GuardVerdict
  refused : GuardReason → GuardVerdict

abbrev pub tier_eq : AuditTier → AuditTier → Bool
tier_eq AuditTier.quick AuditTier.quick = true
tier_eq AuditTier.deep AuditTier.deep = true
tier_eq _ _ = false

abbrev pub deadline_eq : Deadline → Deadline → Bool
deadline_eq Deadline.standard Deadline.standard = true
deadline_eq Deadline.rush Deadline.rush = true
deadline_eq _ _ = false

-- `tiers.includes(tier)`
abbrev pub has_tier : List AuditTier → AuditTier → Bool
has_tier tiers tier = any (tier_eq tier) tiers

abbrev pub has_deadline : List Deadline → Deadline → Bool
has_deadline deadlines deadline = any (deadline_eq deadline) deadlines

unfoldable pub valid_terms_shape : AuditTerms → List AuditTier → List Deadline → GuardVerdict
valid_terms_shape terms tiers deadlines =
    if not (has_tier tiers terms.tier)
    then refused tier_not_offered
    else if not (has_deadline deadlines terms.deadline)
    then refused deadline_not_offered
    else if terms.price == 0
    then refused not_positive
    else if not (round_cents terms.price == terms.price)
    then refused not_rounded
    else ok

unfoldable pub seller_may_settle : AuditTerms → SellerGuard → GuardVerdict
unfolding valid_terms_shape
seller_may_settle terms guard =
    elim (valid_terms_shape terms guard.offered_tiers guard.offered_deadlines) [
      | refused r ↦ refused r
      | ok ↦
          if ltb terms.price (guard.floor terms.tier terms.deadline)
          then refused below_floor
          else ok
    ]

unfoldable pub buyer_may_settle : AuditTerms → BuyerGuard → GuardVerdict
unfolding valid_terms_shape
buyer_may_settle terms guard =
    elim (valid_terms_shape terms guard.offered_tiers guard.offered_deadlines) [
      | refused r ↦ refused r
      | ok ↦
          if not (has_tier guard.acceptable_tiers terms.tier)
          then refused tier_unacceptable
          else if ltb guard.budget terms.price
          then refused over_budget
          else ok
    ]
