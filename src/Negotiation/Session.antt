-- ===== src/Negotiation/Session.antt =====
-- roster/negotiation-l2ps/session.ts: one side of a negotiation whose moves cross a channel. `inbox` is what
-- `receive` answers from now on: `none`, or the end of the list, is a timeout or a failure. The texts of
-- the reasons are left out.
pub mod Authentic
use dacs_agent_reference.Common.{
  ℕ, zero, suc, ◌+◌, ◌/◌, ◌%◌, max, String, Bool, true, false, Option, none, some, List, [], ◌∷◌,
  ◌++◌, length, ◌==◌, if◌then◌else◌,
}
use dacs_agent_reference.Negotiation.Terms.{
  AuditTerms, NegotiationMove, offer, counter, accept, reject, GuardVerdict,
}
use dacs_agent_reference.Negotiation.Harness.{Side, Turn, PublicState, Policy, other, on_table_from}
use dacs_agent_reference.Negotiation.Wire.{
  ChannelEnvelope, Sdk, WireSigner, seal_envelope, open_envelope, decode_move,
}

pub record SideConfig : Type 0 where
  pub role : Side
  pub channel_id : String
  pub policy : Policy
  pub may_settle : AuditTerms → GuardVerdict
  pub peer_sender_id : String
  pub signer : WireSigner
  pub max_turns : ℕ

-- `threw` is an error that `runSide` throws.
pub data SideClose : Type 0 where
  agreed : AuditTerms → SideClose
  walked threw : SideClose

pub record NetworkedResult : Type 0 where
  pub outcome : SideClose
  pub transcript : List Turn
  pub envelopes : List ChannelEnvelope

-- the transcript and the envelopes so far
pub record SideLog : Type 0 where
  pub transcript : List Turn
  pub envelopes : List ChannelEnvelope

-- a move that passes a guard's verdict, else a reject
abbrev pub unless_refused : GuardVerdict → NegotiationMove → NegotiationMove
unless_refused GuardVerdict.ok move = move
unless_refused (GuardVerdict.refused reason) move = reject

abbrev pub parity : Side → ℕ
parity Side.seller = 0
parity Side.buyer = 1

abbrev pub push : SideLog → Side → NegotiationMove → ChannelEnvelope → SideLog
push log side move env = record {
  transcript = log.transcript ++ record { side = side; move = move } ∷ [];
  envelopes = log.envelopes ++ env ∷ [];
}

abbrev pub close : SideClose → SideLog → NetworkedResult
close outcome log = record {
  outcome = outcome;
  transcript = log.transcript;
  envelopes = log.envelopes;
}

-- how one round of the loop ends
pub data SideStep : Type 0 where
  stop : NetworkedResult → SideStep
  go : SideLog → List (Option ChannelEnvelope) → SideStep

module _ (sdk : Sdk) (cfg : SideConfig) where
  -- the terms on the table, by this side's guard
  abbrev pub settle_table : Option AuditTerms → SideClose
  settle_table none = walked
  settle_table (some table) = elim (cfg.may_settle table) [
    | GuardVerdict.ok ↦ agreed table
    | GuardVerdict.refused reason ↦ walked
  ]

  abbrev pub settle_from_accept : List Turn → Side → SideClose
  settle_from_accept transcript accepter = settle_table (on_table_from transcript (other accepter))

  abbrev pub may_accept : Option AuditTerms → NegotiationMove → NegotiationMove
  may_accept none move = reject
  may_accept (some table) move = unless_refused (cfg.may_settle table) move

  -- the safety net; `none` is an error that the policy throws
  unfoldable pub own_move : List Turn → Option NegotiationMove → NegotiationMove
  own_move transcript none = reject
  own_move transcript (some (accept terms)) =
      may_accept (on_table_from transcript (other cfg.role)) (accept terms)
  own_move transcript (some (offer terms)) = unless_refused (cfg.may_settle terms) (offer terms)
  own_move transcript (some (counter terms)) = unless_refused (cfg.may_settle terms) (counter terms)
  own_move transcript (some reject) = reject

  -- what a move that is in the log leads to
  unfoldable pub after_move :
      Side → NegotiationMove → SideLog → List (Option ChannelEnvelope) → SideStep
  after_move side reject log inbox = stop (close walked log)
  after_move side (accept terms) log inbox =
      stop (close (settle_from_accept log.transcript side) log)
  after_move side (offer terms) log inbox = go log inbox
  after_move side (counter terms) log inbox = go log inbox

  unfoldable pub send_move : SideLog → NegotiationMove → List (Option ChannelEnvelope) → SideStep
  send_move log move inbox =
      elim (seal_envelope sdk cfg.signer cfg.channel_id (length log.transcript + 1) move) [
        | none ↦ stop (close threw log)
        | some env ↦ after_move cfg.role move (push log cfg.role move env) inbox
      ]

  -- an envelope that came in
  unfoldable pub receive_move : SideLog → ChannelEnvelope → List (Option ChannelEnvelope) → SideStep
  receive_move log env inbox =
      if open_envelope sdk cfg.signer env cfg.channel_id (length log.transcript + 1)
        cfg.peer_sender_id
      then elim (decode_move sdk env.unsigned.body) [
        | none ↦ stop (close walked log)
        | some move ↦ after_move (other cfg.role) move (push log (other cfg.role) move env) inbox
      ]
      else stop (close walked log)

  unfoldable pub receive : SideLog → List (Option ChannelEnvelope) → SideStep
  receive log [] = stop (close walked log)
  receive log (none ∷ inbox) = stop (close walked log)
  receive log (some env ∷ inbox) = receive_move log env inbox

  -- `Math.max(2, cfg.maxTurns)`
  abbrev pub side_turns : ℕ
  side_turns = max 2 cfg.max_turns

  abbrev pub is_my_turn : SideLog → Bool
  is_my_turn log = length log.transcript % 2 == parity cfg.role

  -- one round of the loop, `rounds` the own rounds before it
  unfoldable pub side_step : SideLog → ℕ → List (Option ChannelEnvelope) → SideStep
  side_step log rounds inbox =
      if is_my_turn log
      then send_move log
          (own_move log.transcript (
            cfg.policy (record {
              transcript = log.transcript;
              round = rounds + 1;
              max_rounds = (side_turns + 1) / 2;
            })))
          inbox
      else receive log inbox

  -- the loop, with the number of turns that are left
  unfoldable pub side_from : ℕ → SideLog → ℕ → List (Option ChannelEnvelope) → NetworkedResult
  side_from zero log rounds inbox = close walked log
  side_from (suc left) log rounds inbox = elim (side_step log rounds inbox) [
    | stop result ↦ result
    | go longer rest ↦ side_from left longer (if is_my_turn log then rounds + 1 else rounds) rest
  ]

  unfoldable pub run_side : List (Option ChannelEnvelope) → NetworkedResult
  run_side inbox = side_from side_turns (record { transcript = []; envelopes = [] }) 0 inbox
