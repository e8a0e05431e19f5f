-- ===== src/Negotiation/Harness.antt =====
-- roster/audit-negotiator/negotiate.ts, with the contract of a policy from policies.ts. A policy is a
-- function of the public state; `none` is an error that it throws. The texts of the reasons are
-- constructors.
use dacs_agent_reference.Common.{
  ℕ, zero, suc, ◌+◌, ◌/◌, ◌%◌, max, Bool, true, false, Option, none, some, List, [], ◌∷◌, ◌++◌,
  ◌==◌, if◌then◌else◌,
}
use dacs_agent_reference.Negotiation.Terms.{
  AuditTerms, NegotiationMove, offer, counter, accept, reject, SellerGuard, BuyerGuard, GuardReason,
  GuardVerdict, seller_may_settle, buyer_may_settle,
}

pub data Side : Type 0 where
  seller buyer : Side

pub record Turn : Type 0 where
  pub side : Side
  pub move : NegotiationMove

pub record PublicState : Type 0 where
  pub transcript : List Turn
  pub round : ℕ
  pub max_rounds : ℕ

abbrev pub Policy : Type 0
Policy = PublicState → Option NegotiationMove

pub record NegotiationConfig : Type 0 where
  pub max_turns : ℕ
  pub seller_guard : SellerGuard
  pub buyer_guard : BuyerGuard

pub data CloseReason : Type 0 where
  policy_threw rejected nothing_on_table out_of_turns : CloseReason
  out_of_guard : GuardReason → CloseReason
  fails_guard : GuardVerdict → GuardVerdict → CloseReason

pub data Close : Type 0 where
  agreed : AuditTerms → Close
  walked : CloseReason → Close

pub record NegotiationResult : Type 0 where
  pub outcome : Close
  pub transcript : List Turn
  pub turns : ℕ

abbrev pub other : Side → Side
other Side.seller = Side.buyer
other Side.buyer = Side.seller

abbrev pub side_eq : Side → Side → Bool
side_eq Side.seller Side.seller = true
side_eq Side.buyer Side.buyer = true
side_eq _ _ = false

-- the terms that a turn of the side puts on the table
abbrev pub proposal : NegotiationMove → Option AuditTerms
proposal (offer terms) = some terms
proposal (counter terms) = some terms
proposal (accept terms) = none
proposal reject = none

-- `onTableFrom`: the last offer or counter of a side
unfoldable pub on_table_from : List Turn → Side → Option AuditTerms
on_table_from [] side = none
on_table_from (t ∷ rest) side = elim (on_table_from rest side) [
  | some terms ↦ some terms
  | none ↦ if side_eq t.side side then proposal t.move else none
]

-- the terms that a side would settle on by its own guard
abbrev pub may_settle : NegotiationConfig → Side → AuditTerms → GuardVerdict
may_settle cfg Side.seller terms = seller_may_settle terms cfg.seller_guard
may_settle cfg Side.buyer terms = buyer_may_settle terms cfg.buyer_guard

unfoldable pub guard_emitted_move : NegotiationMove → Side → NegotiationConfig → GuardVerdict
guard_emitted_move (offer terms) side cfg = may_settle cfg side terms
guard_emitted_move (counter terms) side cfg = may_settle cfg side terms
guard_emitted_move (accept terms) side cfg = may_settle cfg side terms
guard_emitted_move reject side cfg = GuardVerdict.ok

abbrev pub finish : Close → List Turn → ℕ → NegotiationResult
finish outcome transcript turns = record {
  outcome = outcome;
  transcript = transcript;
  turns = turns;
}

-- Both guards on the terms that an accept is bound to.
abbrev pub both_clear : AuditTerms → GuardVerdict → GuardVerdict → Close
both_clear table GuardVerdict.ok GuardVerdict.ok = agreed table
both_clear table s b = walked (fails_guard s b)

-- An accept, with the terms that the other side has on the table.
unfoldable pub close_accept : NegotiationConfig → Option AuditTerms → Close
close_accept cfg none = walked nothing_on_table
close_accept cfg (some table) =
    both_clear table (seller_may_settle table cfg.seller_guard)
      (buyer_may_settle table cfg.buyer_guard)

-- How a move that passed its own guard ends the run; `none` lets it go on.
unfoldable pub close_move : NegotiationConfig → Side → List Turn → NegotiationMove → Option Close
close_move cfg side transcript (offer terms) = none
close_move cfg side transcript (counter terms) = none
close_move cfg side transcript (accept terms) =
    some (close_accept cfg (on_table_from transcript (other side)))
close_move cfg side transcript reject = some (walked rejected)

-- How one round of the loop ends: with a result, or with a longer transcript.
pub data Step : Type 0 where
  stop : NegotiationResult → Step
  go : List Turn → Step

-- What the harness does with the move of a side's policy, after `turn` turns.
unfoldable pub emit : NegotiationConfig → Side → ℕ → List Turn → Option NegotiationMove → Step
emit cfg side turn transcript none = stop (finish (walked policy_threw) transcript turn)
emit cfg side turn transcript (some move) = elim (guard_emitted_move move side cfg) [
  | GuardVerdict.refused r ↦ stop (
      finish (walked (out_of_guard r)) (transcript ++ record { side = side; move = reject } ∷ [])
        (turn + 1))
  | GuardVerdict.ok ↦
      let longer = transcript ++ record { side = side; move = move } ∷ [] in
      elim (close_move cfg side longer move) [
        | some c ↦ stop (finish c longer (turn + 1))
        | none ↦ go longer
      ]
]

-- `turn % 2 === 0 ? "seller" : "buyer"`
abbrev pub side_at : ℕ → Side
side_at turn = if turn % 2 == 0 then Side.seller else Side.buyer

-- `sellerRounds` and `buyerRounds`
pub record Rounds : Type 0 where
  pub of_seller : ℕ
  pub of_buyer : ℕ

abbrev pub count_round : Side → Rounds → Rounds
count_round Side.seller r = record r { of_seller = r.of_seller + 1 }
count_round Side.buyer r = record r { of_buyer = r.of_buyer + 1 }

abbrev pub round_of : Side → Rounds → ℕ
round_of Side.seller r = r.of_seller
round_of Side.buyer r = r.of_buyer

module _ (sell buy : Policy) (cfg : NegotiationConfig) where
  -- `Math.max(2, cfg.maxTurns)`
  abbrev pub turn_limit : ℕ
  turn_limit = max 2 cfg.max_turns

  abbrev pub policy_of : Side → Policy
  policy_of Side.seller = sell
  policy_of Side.buyer = buy

  unfoldable pub take_turn : ℕ → Rounds → List Turn → Step
  take_turn turn rounds transcript =
      let side = side_at turn in
      emit cfg side turn transcript (
        policy_of side (record {
          transcript = transcript;
          round = round_of side (count_round side rounds);
          max_rounds = (turn_limit + 1) / 2;
        }))

  -- the loop, with the number of turns that are left
  unfoldable pub run_from : ℕ → ℕ → Rounds → List Turn → NegotiationResult
  run_from zero turn rounds transcript = finish (walked out_of_turns) transcript turn_limit
  run_from (suc left) turn rounds transcript = elim (take_turn turn rounds transcript) [
    | stop result ↦ result
    | go longer ↦ run_from left (turn + 1) (count_round (side_at turn) rounds) longer
  ]

  unfoldable pub run_negotiation : NegotiationResult
  run_negotiation = run_from turn_limit 0 (record { of_seller = 0; of_buyer = 0 }) []
