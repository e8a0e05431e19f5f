-- ===== src/Negotiation/Wire.antt =====
-- roster/negotiation-l2ps/wire.ts: the signed envelope of a move, and the checks on one that comes in.
-- The time of sending is left out. The SDK's canonical bytes and amounts are the parameters of `Sdk`,
-- and what a signer does those of `Signer`.
use dacs_agent_reference.Common.{
  ℕ, String, Bool, true, false, not, Option, none, some, ◌==◌, if◌then◌else◌, str_eq, is_some,
}
use dacs_agent_reference.Negotiation.Terms.{AuditTier, Deadline, AuditTerms, NegotiationMove}

pub data MoveKind : Type 0 where
  offer counter accept reject : MoveKind

-- terms whose price is a text
pub record WireTerms : Type 0 where
  pub tier : AuditTier
  pub deadline : Deadline
  pub price : String

pub data WireNegotiationMove : Type 0 where
  offer counter accept : WireTerms → WireNegotiationMove
  reject : WireNegotiationMove

pub record UnsignedEnvelope : Type 0 where
  pub channel_id : String
  pub sequence : ℕ
  pub sender : String
  pub type : MoveKind
  pub body : WireNegotiationMove

pub record ChannelEnvelope : Type 0 where
  pub unsigned : UnsignedEnvelope
  pub signature : String

-- `none` is an error that it throws
pub record Sdk : Type 0 where
  pub canonical_bytes : UnsignedEnvelope → String
  pub amount_text : ℕ → Option String
  pub positive_amount : String → Option ℕ

pub record WireSigner : Type 0 where
  pub id : String
  pub sign : String → String
  pub verify : String → String → String → Bool

abbrev pub kind_of : WireNegotiationMove → MoveKind
kind_of (WireNegotiationMove.offer terms) = MoveKind.offer
kind_of (WireNegotiationMove.counter terms) = MoveKind.counter
kind_of (WireNegotiationMove.accept terms) = MoveKind.accept
kind_of WireNegotiationMove.reject = MoveKind.reject

abbrev pub kind_eq : MoveKind → MoveKind → Bool
kind_eq MoveKind.offer MoveKind.offer = true
kind_eq MoveKind.counter MoveKind.counter = true
kind_eq MoveKind.accept MoveKind.accept = true
kind_eq MoveKind.reject MoveKind.reject = true
kind_eq _ _ = false

module _ (sdk : Sdk) where
  abbrev pub encode_terms : AuditTerms → Option WireTerms
  encode_terms terms = elim (sdk.amount_text terms.price) [
    | none ↦ none
    | some price ↦ some (record { tier = terms.tier; deadline = terms.deadline; price = price })
  ]

  abbrev pub on_wire :
      (WireTerms → WireNegotiationMove) → Option WireTerms → Option WireNegotiationMove
  on_wire move none = none
  on_wire move (some terms) = some (move terms)

  unfoldable pub encode_move : NegotiationMove → Option WireNegotiationMove
  encode_move (NegotiationMove.offer terms) = on_wire WireNegotiationMove.offer (encode_terms terms)
  encode_move (NegotiationMove.counter terms) =
      on_wire WireNegotiationMove.counter (encode_terms terms)
  encode_move (NegotiationMove.accept terms) =
      on_wire WireNegotiationMove.accept (encode_terms terms)
  encode_move NegotiationMove.reject = some WireNegotiationMove.reject

  -- `none` is `null`
  abbrev pub decode_terms : WireTerms → Option AuditTerms
  decode_terms terms = elim (sdk.positive_amount terms.price) [
    | none ↦ none
    | some price ↦
        if price == 0
        then none
        else some (record { tier = terms.tier; deadline = terms.deadline; price = price })
  ]

  abbrev pub as_move : (AuditTerms → NegotiationMove) → Option AuditTerms → Option NegotiationMove
  as_move move none = none
  as_move move (some terms) = some (move terms)

  unfoldable pub decode_move : WireNegotiationMove → Option NegotiationMove
  decode_move (WireNegotiationMove.offer terms) = as_move NegotiationMove.offer (decode_terms terms)
  decode_move (WireNegotiationMove.counter terms) =
      as_move NegotiationMove.counter (decode_terms terms)
  decode_move (WireNegotiationMove.accept terms) =
      as_move NegotiationMove.accept (decode_terms terms)
  decode_move WireNegotiationMove.reject = some NegotiationMove.reject

  abbrev pub sign_envelope : WireSigner → UnsignedEnvelope → ChannelEnvelope
  sign_envelope signer unsigned = record {
    unsigned = unsigned;
    signature = signer.sign (sdk.canonical_bytes unsigned);
  }

  -- `none` is the error of a price that is no positive amount
  unfoldable pub seal_envelope : WireSigner → String → ℕ → NegotiationMove → Option ChannelEnvelope
  seal_envelope signer channel_id sequence move = elim (encode_move move) [
    | none ↦ none
    | some body ↦ some (
        sign_envelope signer (record {
          channel_id = channel_id;
          sequence = sequence;
          sender = signer.id;
          type = kind_of body;
          body = body;
        }))
  ]

  -- the verdict on an inbound envelope
  unfoldable pub open_envelope : WireSigner → ChannelEnvelope → String → ℕ → String → Bool
  open_envelope signer env channel_id sequence sender =
      let u = env.unsigned in
      if not (str_eq u.channel_id channel_id)
      then false
      else if not (u.sequence == sequence)
      then false
      else if not (str_eq u.sender sender)
      then false
      else if not (kind_eq u.type (kind_of u.body))
      then false
      else if not (signer.verify (sdk.canonical_bytes u) env.signature sender)
      then false
      else is_some (decode_move u.body)
