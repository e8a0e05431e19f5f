-- ===== src/Subcontract/Tests.antt =====
-- A bundle of 300 DEM cents at a low offer, for roster/subcontract/gc.ts.
use dacs_agent_reference.Common.{◌≡◌, refl, true, [], ◌∷◌}
use dacs_agent_reference.Negotiation.Terms.{
  AuditTier, Deadline, offer, round_cents_of, DeepAuditPricing, default_economics, tools_for_scan,
  deep_audit_price_for, ask_for, cost_for, floor_for, valid_terms_shape, seller_may_settle,
  buyer_may_settle,
}
use dacs_agent_reference.Negotiation.Harness.{
  Side, PublicState, on_table_from, guard_emitted_move, close_accept, close_move, emit, take_turn,
  run_from, run_negotiation,
}
use dacs_agent_reference.Negotiation.Policies.{
  seller_guard_for, last_counterparty_move, price_trajectory, projected_reach, concede, final_move,
  answer_terms, answer_move, deterministic_seller, last_turn, opening, raise, settle_or_raise,
  respond, buyer_move, deterministic_buyer,
}
use dacs_agent_reference.Negotiation.Policies.Within.{Emits}
use dacs_agent_reference.Subcontract.Sourcing.{
  SubcontractJob, awarded, run_subcontract, allocation_of, source, bundle_negotiation,
  bundle_cost_of, bundle_floor_of,
}
use dacs_agent_reference.Subcontract.Sourcing.Covered.{
  IsCoveredAward, run_subcontract-IsCoveredAward,
}
use dacs_agent_reference.Subcontract.Bundle.{
  gc_bundle_seller, buyer_position, bundle_ask, bundle_price, bundle_move,
}
use dacs_agent_reference.Subcontract.Bundle.Floor.{IsCovered, gc_bundle_seller-IsCovered}

abbrev low_offer : PublicState
low_offer = record {
  transcript =
      record {
        side = Side.buyer;
        move = offer (record { tier = AuditTier.deep; deadline = Deadline.rush; price = 20000 });
      }
      ∷ [];
  round = 2;
  max_rounds = 3;
}

gc_bundle_seller-IsCovered_example :
    Emits (IsCovered 30000 Deadline.rush) (gc_bundle_seller 30000 Deadline.rush 40 34 low_offer)
unfolding round_cents_of
gc_bundle_seller-IsCovered_example =
    gc_bundle_seller-IsCovered 30000 Deadline.rush 40 34 refl low_offer

-- A job with one specialist, whose quick audit of 2500 lines is part of the bundle.
abbrev pricing : DeepAuditPricing
pricing = record { base = 20000; per_tool = 10000; per_kloc = 5000 }

abbrev job : SubcontractJob
job = record {
  buyer_budget = 200000;
  deadline = Deadline.standard;
  specialists =
      record {
        id = "s1";
        label = "contracts";
        scan = record { lines = 2500; has_solidity = true; num_tools = 2 };
        econ = default_economics;
        required_tier = AuditTier.quick;
      }
      ∷ [];
  coord_margin_pct = 20;
  sourcing_pct = 75;
  max_turns = 6;
}

awarded_price : (run_subcontract pricing job).outcome ≡ awarded 77400
unfolding seller_guard_for tools_for_scan round_cents_of deep_audit_price_for ask_for cost_for
    floor_for valid_terms_shape seller_may_settle buyer_may_settle on_table_from guard_emitted_move
    close_accept close_move emit take_turn run_from run_negotiation last_counterparty_move
    price_trajectory projected_reach concede final_move answer_terms answer_move
    deterministic_seller last_turn opening raise settle_or_raise respond buyer_move
    deterministic_buyer buyer_position bundle_ask bundle_price bundle_move gc_bundle_seller
    allocation_of source bundle_negotiation bundle_cost_of bundle_floor_of run_subcontract
awarded_price = refl

run_subcontract-IsCoveredAward_example :
    IsCoveredAward pricing job (run_subcontract pricing job) 77400
run_subcontract-IsCoveredAward_example =
    run_subcontract-IsCoveredAward pricing job 77400 awarded_price
