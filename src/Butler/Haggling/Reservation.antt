-- ===== src/Butler/Haggling/Reservation.antt =====
-- The buyer of roster/procurement-butler/butler.ts keeps to its reservation.
use dacs_agent_reference.Common.{
  ℕ, zero, suc, ◌+◌, ◌≤◌, ◌<◌, min, String, Option, none, some, List, [], ◌∷◌, ◌++◌, ◌≡◌, inl, inr,
  refl, arith, All, All-append, Bool-cases, leb, ◌==◌, if◌then◌else◌,
}
use dacs_agent_reference.Butler.Money.{whole, times, complement, concede, concede-le, smaller-le}
use dacs_agent_reference.Butler.Types.{
  NegotiationResponse, NegotiationPort, NegotiationConfig, Actor, Action, NegotiationRound,
  NegotiationTranscript,
}
use dacs_agent_reference.Butler.Haggling.{
  moved, Rounds, after_offer, play, transcript_of, last_round, opening, negotiate,
}

-- The price of a move, if it names one, is within a bound.
abbrev pub PriceWithin : ℕ → Option ℕ → Type 0
PriceWithin bound none = Unit
PriceWithin bound (some price) = price ≤ bound

abbrev pub BuyerWithin : ℕ → Actor → Option ℕ → Type 0
BuyerWithin bound Actor.buyer price = PriceWithin bound price
BuyerWithin bound Actor.seller price = Unit

-- No move of the buyer names a price above the bound.
abbrev pub MovesWithin : ℕ → List NegotiationRound → Type 0
MovesWithin bound rounds = All (λ m. BuyerWithin bound m.actor m.price) rounds

-- The counterparty does not accept at more than it is offered.
abbrev pub AcceptsOffers : {S : Type 0} → NegotiationPort S → Type 0
AcceptsOffers {S} port =
    (s : S) (id : String) (offer r price : ℕ)
    → (port.respond s id offer r).1 ≡ NegotiationResponse.accept price
    → price ≤ offer

module _ {S : Type 0} (port : NegotiationPort S) (config : NegotiationConfig) where
  after_offer-MovesWithin :
      (bound r next : ℕ) (s : S) (answer : NegotiationResponse) (rest : S × Rounds)
      → next ≤ bound
      → MovesWithin bound rest.1.0
      → MovesWithin bound (after_offer port config r next s answer rest).1.0
  unfolding after_offer
  after_offer-MovesWithin bound r next s (NegotiationResponse.accept price) rest n h = (tt, tt)
  after_offer-MovesWithin bound r next s NegotiationResponse.reject rest n h = (tt, tt)
  after_offer-MovesWithin bound r next s (NegotiationResponse.counter price) rest n h =
      elim (Bool-cases (leb price next)) [
        | inl t ↦ rw t (tt, ((ground arith), tt))
        | inr f ↦ rw f (tt, h)
      ]

  after_offer-PriceWithin :
      (bound offer r next : ℕ) (s : S) (answer : NegotiationResponse) (rest : S × Rounds)
      → next ≤ bound
      → ((price : ℕ) → answer ≡ NegotiationResponse.accept price → price ≤ bound)
      → PriceWithin bound rest.1.1
      → PriceWithin bound (after_offer port config r next s answer rest).1.1
  unfolding after_offer
  after_offer-PriceWithin bound offer r next s (NegotiationResponse.accept price) rest n a h =
      a price refl
  after_offer-PriceWithin bound offer r next s NegotiationResponse.reject rest n a h = tt
  after_offer-PriceWithin bound offer r next s (NegotiationResponse.counter price) rest n a h =
      elim (Bool-cases (leb price next)) [ inl t ↦ rw t (ground arith) | inr f ↦ rw f h ]

  -- Positions never pass the reservation, whatever the seller answers.
  module _ (rate : 0 < config.concession_rate.part + config.concession_rate.rest) (id : String)
      (bound : ℕ) where
    offer_le : (left w : ℕ) → w ≤ bound → (if left == 0 then bound else w) ≤ bound
    offer_le left w h = ground arith

    play-MovesWithin :
        (left r w : ℕ) (s : S)
        → w ≤ bound
        → MovesWithin bound (play port config id bound left r w s).1.0
    unfolding play
    play-MovesWithin zero r w s h = tt
    play-MovesWithin (suc left) r w s h =
        let next = concede-le config.concession_rate bound w rate h in
        (
          offer_le left w h,
          after_offer-MovesWithin bound r _ _ _ _ next
              (play-MovesWithin left (suc r) (concede config.concession_rate bound w) _ next),
        )

    play-PriceWithin :
        AcceptsOffers port
        → (left r w : ℕ) (s : S) → w ≤ bound
        → PriceWithin bound (play port config id bound left r w s).1.1
    unfolding play
    play-PriceWithin fair zero r w s h = tt
    play-PriceWithin fair (suc left) r w s h =
        let next = concede-le config.concession_rate bound w rate h in
        let offer = if left == 0 then bound else w in
        let below : offer ≤ bound = offer_le left w h in
        after_offer-PriceWithin bound offer r _ _ _ _ next
          (λ price e. let paid = fair s id offer r price e in omega arith)
          (play-PriceWithin fair left (suc r) (concede config.concession_rate bound w) _ next)

-- How often the buyer offers.
abbrev is_offer : Action → ℕ
is_offer Action.offer = 1
is_offer Action.counter = 0
is_offer Action.accept = 0
is_offer Action.walk = 0

abbrev pub offers : List NegotiationRound → ℕ
offers [] = 0
offers (m ∷ ms) = is_offer m.action + offers ms

offers-append : (ms ns : List NegotiationRound) → offers (ms ++ ns) ≡ offers ms + offers ns
offers-append [] ns = omega arith
offers-append (m ∷ ms) ns = omega (arith, offers-append ms ns)

module _ {S : Type 0} (port : NegotiationPort S) (config : NegotiationConfig) where
  after_offer-offers :
      (r next : ℕ) (s : S) (answer : NegotiationResponse) (rest : S × Rounds)
      → offers (after_offer port config r next s answer rest).1.0 ≤ offers rest.1.0
  unfolding after_offer
  after_offer-offers r next s (NegotiationResponse.accept price) rest = omega arith
  after_offer-offers r next s NegotiationResponse.reject rest = omega arith
  after_offer-offers r next s (NegotiationResponse.counter price) rest =
      elim (Bool-cases (leb price next)) [ inl t ↦ rw t (omega arith) | inr f ↦ rw f (omega arith) ]

  play-offers :
      (id : String) (bound left r w : ℕ) (s : S)
      → offers (play port config id bound left r w s).1.0 ≤ left
  unfolding play
  play-offers id bound zero r w s = omega arith
  play-offers id bound (suc left) r w s =
      let next = concede config.concession_rate bound w in
      let answered = port.respond s id (if left == 0 then bound else w) r in
      let rest = play port config id bound left (suc r) next answered.0 in
      let later = play-offers id bound left (suc r) next answered.0 in
      let here = after_offer-offers r next answered.0 answered.1 rest in omega (arith, later, here)

  -- What a transcript says: no move of the buyer is above the bound, and the offers are as many as
  -- allowed.
  abbrev pub IsBounded : ℕ → NegotiationTranscript → Type 0
  IsBounded bound t = MovesWithin bound t.rounds × (offers t.rounds ≤ config.max_rounds)

  transcript_of-IsBounded :
      (id : String) (ask bound : ℕ) (rounds : Rounds)
      → MovesWithin bound rounds.0
      → offers rounds.0 ≤ config.max_rounds
      → IsBounded bound (transcript_of port config id ask bound rounds)
  transcript_of-IsBounded id ask bound (moves, some price) m o = (m, o)
  transcript_of-IsBounded id ask bound (moves, none) m o = (
    All-append (λ m. BuyerWithin bound m.actor m.price) moves _ m (tt, tt),
    omega (
      arith,
      offers-append moves (moved (last_round port config moves) Actor.buyer Action.walk none ∷ []),
    ),
  )

  transcript_of-PriceWithin :
      (id : String) (ask bound : ℕ) (rounds : Rounds)
      → PriceWithin bound rounds.1
      → PriceWithin bound (transcript_of port config id ask bound rounds).agreed_price
  transcript_of-PriceWithin id ask bound (moves, some price) p = p
  transcript_of-PriceWithin id ask bound (moves, none) p = tt

  module _ (id : String) (ask budget : ℕ) (s : S)
      (rate : 0 < config.concession_rate.part + config.concession_rate.rest)
      (discount : 0 < config.open_discount.part + config.open_discount.rest) where
    opening-le : opening port config (min budget ask) ask ≤ min budget ask
    opening-le =
        smaller-le (min budget ask) (times (whole ask) (complement config.open_discount))
          (omega arith)

    -- In a negotiation the buyer offers `maxRounds` times at most, and it never offers or accepts
    -- more than its reservation, the smaller of the budget and the ask, whatever the seller answers.
    pub negotiate-IsBounded : IsBounded (min budget ask) (negotiate port config id ask budget s).1
    unfolding negotiate
    negotiate-IsBounded =
        let bound = min budget ask in
        let w = opening port config bound ask in
        transcript_of-IsBounded id ask bound (play port config id bound config.max_rounds 1 w s).1
          (play-MovesWithin port config rate id bound config.max_rounds 1 w s opening-le)
          (play-offers id bound config.max_rounds 1 w s)

    -- If the seller never accepts at more than it is offered, then the price that is agreed on, if
    -- any, is not above the reservation.
    pub negotiate-PriceWithin :
        AcceptsOffers port
        → PriceWithin (min budget ask) (negotiate port config id ask budget s).1.agreed_price
    unfolding negotiate
    negotiate-PriceWithin fair =
        let bound = min budget ask in
        let w = opening port config bound ask in
        transcript_of-PriceWithin id ask bound (play port config id bound config.max_rounds 1 w s).1
          (play-PriceWithin port config rate id bound fair config.max_rounds 1 w s opening-le)
