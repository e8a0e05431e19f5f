-- ===== src/Negotiation/Terms/Cleared.antt =====
-- What the verdicts of the guards of roster/audit-negotiator say of the terms that they clear.
use mathlib.Core.Path.{subst}
use dacs_agent_reference.Common.{◌≤◌, ◌≡◌, refl, true, [], ◌∷◌, arith}
use dacs_agent_reference.Negotiation.Terms.{
  AuditTier, Deadline, AuditTerms, SellerGuard, BuyerGuard, ok, tier_eq, deadline_eq, has_tier,
  has_deadline, valid_terms_shape, seller_may_settle, buyer_may_settle,
}

tier_eq_sound : (a b : AuditTier) → tier_eq a b ≡ true → a ≡ b
tier_eq_sound AuditTier.quick AuditTier.quick h = refl
tier_eq_sound AuditTier.deep AuditTier.deep h = refl
tier_eq_sound AuditTier.quick AuditTier.deep h = cc
tier_eq_sound AuditTier.deep AuditTier.quick h = cc

deadline_eq_sound : (a b : Deadline) → deadline_eq a b ≡ true → a ≡ b
deadline_eq_sound Deadline.standard Deadline.standard h = refl
deadline_eq_sound Deadline.rush Deadline.rush h = refl
deadline_eq_sound Deadline.standard Deadline.rush h = cc
deadline_eq_sound Deadline.rush Deadline.standard h = cc

-- What the guards' verdicts say of a price, a tier and a deadline.
pub seller_may_settle-le :
    (terms : AuditTerms) (g : SellerGuard)
    → seller_may_settle terms g ≡ ok
    → g.floor terms.tier terms.deadline ≤ terms.price
unfolding seller_may_settle
seller_may_settle-le terms g h = ground arith

pub buyer_may_settle-le :
    (terms : AuditTerms) (g : BuyerGuard) → buyer_may_settle terms g ≡ ok → terms.price ≤ g.budget
unfolding buyer_may_settle
buyer_may_settle-le terms g h = ground arith

pub buyer_may_settle-tier :
    (terms : AuditTerms) (g : BuyerGuard) (tier : AuditTier)
    → g.acceptable_tiers ≡ tier ∷ []
    → buyer_may_settle terms g ≡ ok
    → terms.tier ≡ tier
unfolding buyer_may_settle
buyer_may_settle-tier terms g tier only h = tier_eq_sound terms.tier tier (in_only (ground arith))
  where
    in_only : has_tier g.acceptable_tiers terms.tier ≡ true → tier_eq terms.tier tier ≡ true
    in_only m =
        let k : has_tier (tier ∷ []) terms.tier ≡ true =
          subst (λ ts. has_tier ts terms.tier ≡ true) only m in
        ground arith

pub buyer_may_settle-deadline :
    (terms : AuditTerms) (g : BuyerGuard) (deadline : Deadline)
    → g.offered_deadlines ≡ deadline ∷ []
    → buyer_may_settle terms g ≡ ok
    → terms.deadline ≡ deadline
unfolding buyer_may_settle valid_terms_shape
buyer_may_settle-deadline terms g deadline only h =
    deadline_eq_sound terms.deadline deadline (in_only (ground arith))
  where
    in_only :
        has_deadline g.offered_deadlines terms.deadline ≡ true
        → deadline_eq terms.deadline deadline ≡ true
    in_only m =
        let k : has_deadline (deadline ∷ []) terms.deadline ≡ true =
          subst (λ ds. has_deadline ds terms.deadline ≡ true) only m in
        ground arith
