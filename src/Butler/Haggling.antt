-- ===== src/Butler/Haggling.antt =====
-- The scalar negotiation of roster/procurement-butler/butler.ts. Sums are in cents.
pub mod Reservation
use dacs_agent_reference.Common.{
  ℕ, zero, suc, ◌*◌, ◌+◌, min, String, Option, none, some, List, [], ◌∷◌, ◌++◌, last?, leb, ◌==◌,
  if◌then◌else◌,
}
use dacs_agent_reference.Butler.Money.{
  Ratio, round_cents, whole, times, smaller, complement, concede,
}
use dacs_agent_reference.Butler.Types.{
  NegotiationResponse, NegotiationPort, NegotiationConfig, Actor, Action, NegotiationRound,
  NegotiationResult, NegotiationTranscript,
}

abbrev pub moved : ℕ → Actor → Action → Option ℕ → NegotiationRound
moved r actor action price = record { round = r; actor = actor; action = action; price = price }

-- the rounds from here on, and the price that they agree on, if any
abbrev pub Rounds : Type 0
Rounds = List NegotiationRound × Option ℕ

module _ {S : Type 0} (port : NegotiationPort S) (config : NegotiationConfig) where
  -- what follows an offer in round `r`: the next position is `next`, and `rest` are the later rounds
  unfoldable pub after_offer : ℕ → ℕ → S → NegotiationResponse → S × Rounds → S × Rounds
  after_offer r next s (NegotiationResponse.accept price) rest =
      (s, (moved r Actor.seller Action.accept (some price) ∷ [], some price))
  after_offer r next s NegotiationResponse.reject rest =
      (s, (moved r Actor.seller Action.walk none ∷ [], none))
  after_offer r next s (NegotiationResponse.counter price) rest =
      let countered = moved r Actor.seller Action.counter (some price) in
      if leb price next
      then (s, (countered ∷ moved r Actor.buyer Action.accept (some price) ∷ [], some price))
      else (rest.0, (countered ∷ rest.1.0, rest.1.1))

  -- the loop: `left` rounds are left, `r` is the number of this one
  unfoldable pub play : String → ℕ → ℕ → ℕ → ℕ → S → S × Rounds
  play id reservation zero r willingness s = (s, ([], none))
  play id reservation (suc left) r willingness s =
      let offer = if left == 0 then reservation else willingness in
      let next = concede config.concession_rate reservation willingness in
      let answered = port.respond s id offer r in
      let rest = play id reservation left (suc r) next answered.0 in
      let (s', (rounds, price)) = after_offer r next answered.0 answered.1 rest in
      (s', (moved r Actor.buyer Action.offer (some offer) ∷ rounds, price))

  -- the round of the last move
  abbrev pub last_round : List NegotiationRound → ℕ
  last_round rounds = elim (last? rounds) [ none ↦ config.max_rounds | some m ↦ m.round ]

  abbrev pub transcript_of : String → ℕ → ℕ → Rounds → NegotiationTranscript
  transcript_of id ask reservation (rounds, some price) = record {
    listing_id = id;
    ask = ask;
    reservation = reservation;
    rounds = rounds;
    result = NegotiationResult.agreed;
    agreed_price = some price;
    rfq = none;
  }
  transcript_of id ask reservation (rounds, none) = record {
    listing_id = id;
    ask = ask;
    reservation = reservation;
    rounds = rounds ++ moved (last_round rounds) Actor.buyer Action.walk none ∷ [];
    result = NegotiationResult.walked;
    agreed_price = none;
    rfq = none;
  }

  -- `roundCents(Math.min(reservation, ask * (1 - openDiscount)))`
  abbrev pub opening : ℕ → ℕ → ℕ
  opening reservation ask =
      round_cents
        (smaller (whole reservation) (times (whole ask) (complement config.open_discount)))

  unfoldable pub negotiate : String → ℕ → ℕ → S → S × NegotiationTranscript
  negotiate id ask budget s =
      let reservation = min budget ask in
      let (s', rounds) = play id reservation config.max_rounds 1 (opening reservation ask) s in
      (s', transcript_of id ask reservation rounds)
