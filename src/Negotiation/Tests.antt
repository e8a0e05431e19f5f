-- ===== src/Negotiation/Tests.antt =====
-- A run of roster/audit-negotiator/negotiate.ts: an offer, a lower offer, and an acceptance.
use dacs_agent_reference.Common.{
  String, List, Option, ◌&&◌, ◌==◌, if◌then◌else◌, str_eq, arith, ℕ, false, ◌≡◌, refl, some, [],
  ◌∷◌,
}
use dacs_agent_reference.Negotiation.Terms.{
  AuditTier, Deadline, AuditTerms, offer, counter, accept, ScanFacts, DeepAuditPricing,
  default_economics, below_floor, ask_for, cost_for, SellerGuard, BuyerGuard, seller_may_settle,
  buyer_may_settle, round_cents_of, valid_terms_shape,
}
use dacs_agent_reference.Negotiation.Harness.{
  Side, PublicState, Policy, agreed, walked, out_of_guard, NegotiationConfig, turn_limit,
  run_negotiation, run_from, take_turn, emit, guard_emitted_move, close_move, close_accept,
  on_table_from,
}
use dacs_agent_reference.Negotiation.Policies.{
  SellerBrief, BuyerBrief, deterministic_seller, deterministic_buyer, last_turn,
}
use dacs_agent_reference.Negotiation.Policies.Within.{
  Emits, AtFloor, WithinBudget, deterministic_seller-AtFloor, deterministic_buyer-WithinBudget,
}
use dacs_agent_reference.Negotiation.Wire.{
  MoveKind, WireNegotiationMove, UnsignedEnvelope, ChannelEnvelope, Sdk, WireSigner, encode_move,
  decode_move, seal_envelope, open_envelope,
}
use dacs_agent_reference.Negotiation.Session.{
  SideConfig, SideClose, run_side, side_from, side_step, send_move, own_move, after_move, receive,
  receive_move,
}
use dacs_agent_reference.Negotiation.Session.Authentic.{IsProperSide, run_side-IsProperSide}
use dacs_agent_reference.Negotiation.Agreement.{IsProper, run_negotiation-IsProper}

abbrev quick_for : ℕ → AuditTerms
quick_for price = record { tier = AuditTier.quick; deadline = Deadline.standard; price = price }

abbrev config : NegotiationConfig
config =
    let sell : SellerGuard = record {
      offered_tiers = AuditTier.quick ∷ [];
      offered_deadlines = Deadline.standard ∷ [];
      floor = λ tier deadline. 20000;
    } in
    let buy : BuyerGuard = record {
      offered_tiers = AuditTier.quick ∷ [];
      offered_deadlines = Deadline.standard ∷ [];
      budget = 40000;
      acceptable_tiers = AuditTier.quick ∷ [];
    } in
    record { max_turns = 4; seller_guard = sell; buyer_guard = buy }

abbrev sell : Policy
sell state = elim state.transcript [
  | [] ↦ some (offer (quick_for 60000))
  | t ∷ rest ↦ some (accept (quick_for 30000))
]

abbrev buy : Policy
buy state = some (offer (quick_for 30000))

run_negotiation-IsProper_example :
    IsProper config (turn_limit sell buy config) (run_negotiation sell buy config)
run_negotiation-IsProper_example = run_negotiation-IsProper sell buy config

-- the run agrees on what the buyer offered
agrees : (run_negotiation sell buy config).outcome ≡ agreed (quick_for 30000)
unfolding run_negotiation run_from take_turn emit guard_emitted_move seller_may_settle
    round_cents_of close_move buyer_may_settle close_accept on_table_from valid_terms_shape
agrees = refl

abbrev seller_brief : SellerBrief
seller_brief =
    let scan : ScanFacts = record { lines = 2500; has_solidity = false; num_tools = 1 } in
    record {
      scan = scan;
      guard = config.seller_guard;
      econ = default_economics;
      concession_step = 34;
      anchor_tier = AuditTier.quick;
      anchor_deadline = Deadline.standard;
    }

abbrev buyer_brief : BuyerBrief
buyer_brief = record {
  guard = config.buyer_guard;
  preferred_tier = AuditTier.quick;
  preferred_deadline = Deadline.standard;
  open_discount = 35;
  concession_rate = 50;
}

abbrev desk_pricing : DeepAuditPricing
desk_pricing = record { base = 20000; per_tool = 10000; per_kloc = 5000 }

-- the buyer offered 150 cents, and the seller asked for 250 again
abbrev midway : PublicState
midway = record {
  transcript =
      record { side = Side.seller; move = offer (quick_for 28000) }
      ∷ record { side = Side.buyer; move = offer (quick_for 15000) }
      ∷ record { side = Side.seller; move = counter (quick_for 25000) }
      ∷ [];
  round = 2;
  max_rounds = 3;
}

deterministic_seller-AtFloor_example :
    Emits
      (AtFloor desk_pricing seller_brief)
      (deterministic_seller desk_pricing seller_brief midway)
unfolding round_cents_of ask_for cost_for
deterministic_seller-AtFloor_example =
    deterministic_seller-AtFloor desk_pricing seller_brief (λ t. refl) midway (omega arith)

deterministic_buyer-WithinBudget_example :
    Emits (WithinBudget buyer_brief) (deterministic_buyer buyer_brief midway)
unfolding round_cents_of last_turn
deterministic_buyer-WithinBudget_example =
    deterministic_buyer-WithinBudget buyer_brief refl (omega arith) midway (λ mine e. ground arith)

-- The seller's side of a session, over a channel on which the buyer's offer comes in.
abbrev sdk : Sdk
sdk = record {
  canonical_bytes = λ u. u.sender;
  amount_text = λ price. some (if price == 30000 then "300" else "600");
  positive_amount = λ s. some (if str_eq s "300" then 30000 else 60000);
}

abbrev signer_of : String → WireSigner
signer_of id = record {
  id = id;
  sign = λ bytes. bytes;
  verify = λ bytes signature sender. str_eq bytes signature && str_eq signature sender;
}

-- accepts, and names terms of its own that are below its floor
abbrev careless : Policy
careless state = elim state.transcript [
  | [] ↦ some (offer (quick_for 60000))
  | t ∷ rest ↦ some (accept (quick_for 10000))
]

abbrev side : SideConfig
side = record {
  role = Side.seller;
  channel_id = "c";
  policy = careless;
  may_settle = λ terms. seller_may_settle terms config.seller_guard;
  peer_sender_id = "buyer";
  signer = signer_of "seller";
  max_turns = 4;
}

abbrev the_offer : UnsignedEnvelope
the_offer = record {
  channel_id = "c";
  sequence = 2;
  sender = "buyer";
  type = MoveKind.offer;
  body =
      WireNegotiationMove.offer
        (record { tier = AuditTier.quick; deadline = Deadline.standard; price = "300" });
}

abbrev inbox : List (Option ChannelEnvelope)
inbox = some (record { unsigned = the_offer; signature = "buyer" }) ∷ []

run_side-IsProperSide_example : IsProperSide sdk side (run_side sdk side inbox)
run_side-IsProperSide_example = run_side-IsProperSide sdk side inbox

-- The side agrees on what is on the table, whatever terms its acceptance names,
side_agrees : (run_side sdk side inbox).outcome ≡ SideClose.agreed (quick_for 30000)
unfolding run_side side_from side_step send_move own_move after_move receive receive_move
    seal_envelope encode_move open_envelope decode_move on_table_from seller_may_settle
    valid_terms_shape round_cents_of
side_agrees = refl

-- where the harness in one process refuses those terms.
harness_walks : (run_negotiation careless buy config).outcome ≡ walked (out_of_guard below_floor)
unfolding run_negotiation run_from take_turn emit guard_emitted_move seller_may_settle
    round_cents_of close_move buyer_may_settle close_accept on_table_from valid_terms_shape
harness_walks = refl

-- An envelope of another turn is refused.
replayed :
    (run_side sdk side (
      some (record { unsigned = record the_offer { sequence = 1 }; signature = "buyer" })
      ∷ [])).outcome
    ≡ SideClose.walked
unfolding run_side side_from side_step send_move own_move after_move receive receive_move
    seal_envelope encode_move open_envelope decode_move on_table_from seller_may_settle
    valid_terms_shape round_cents_of
replayed = refl
