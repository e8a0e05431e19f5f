-- ===== src/Publisher/Rfq/Inventory.antt =====
-- What a reservation and a quote of roster/publisher-agent/rfq.ts are worth: no two reservations of a
-- slot share time, and an agreed quote is one that the buyer's request allows.
use mathlib.Core.Path.{subst}
use native.Mathlib.Omega.{div_any}
use native.Mathlib.Nat.{mul-le-mul_left, min-le_right}
use dacs_agent_reference.Common.{
  ℕ, ◌+◌, ◌*◌, ◌/◌, ◌≤◌, String, Bool, true, false, Option, none, some, List, [], ◌∷◌, ◌++◌, any,
  ltb, ◌≡◌, refl, inl, inr, Bool-cases, str_eq, str_eq_refl, All, find-test, arith,
}
use dacs_agent_reference.Common.Result.{Result, ok, thrown}
use dacs_agent_reference.Publisher.Rfq.{
  PublisherRfqRequest, PublisherSlot, PublisherQuote, placement_eq, RfqError, Quotes, quote_for,
  overlaps, Hashes, Reservation, reserved, not_reserved, release, same_quote, reserve_free,
  reserve_after, reserve, days_for, quote_of, price_slot, build_publisher_quote, agree_on,
  reserve_built, negotiate_publisher_rfq,
}

-- Reservations of one slot never share time.
abbrev pub IsDisjoint : Quotes → Type 0
IsDisjoint [] = Unit
IsDisjoint (q ∷ rest) = All (λ k. overlaps q k ≡ false) rest × IsDisjoint rest

IsDisjoint-snoc :
    (quotes : Quotes) (k : PublisherQuote)
    → IsDisjoint quotes
    → any (λ q. overlaps q k) quotes ≡ false
    → IsDisjoint (quotes ++ k ∷ [])
IsDisjoint-snoc [] k h e = (tt, tt)
IsDisjoint-snoc (q ∷ rest) k h e =
    (after rest h.0 (ground arith), IsDisjoint-snoc rest k h.1 (ground arith))
  where
    after :
        (l : Quotes)
        → All (λ j. overlaps q j ≡ false) l
        → overlaps q k ≡ false
        → All (λ j. overlaps q j ≡ false) (l ++ k ∷ [])
    after [] a c = (c, tt)
    after (j ∷ l) a c = (a.0, after l a.1 c)

All-release :
    (P : PublisherQuote → Type 0) (job_id : String) (l : Quotes)
    → All P l
    → All P (release job_id l)
unfolding release
All-release P job_id [] h = tt
All-release P job_id (q ∷ l) h = elim (Bool-cases (str_eq q.job_id job_id)) [
  | inl e ↦ rw e (All-release P job_id l h.1)
  | inr e ↦ rw e (h.0, All-release P job_id l h.1)
]

-- Giving a reservation back keeps the others disjoint.
pub release-IsDisjoint :
    (job_id : String) (quotes : Quotes) → IsDisjoint quotes → IsDisjoint (release job_id quotes)
unfolding release
release-IsDisjoint job_id [] h = tt
release-IsDisjoint job_id (q ∷ rest) h = elim (Bool-cases (str_eq q.job_id job_id)) [
  | inl e ↦ rw e (release-IsDisjoint job_id rest h.1)
  | inr e ↦
      rw e (
        All-release (λ k. overlaps q k ≡ false) job_id rest h.0,
        release-IsDisjoint job_id rest h.1,
      )
]

module _ (hash : Hashes) where
  reserve-IsDisjoint :
      (quote : PublisherQuote) (quotes : Quotes)
      → IsDisjoint quotes
      → IsDisjoint ((reserve hash quote quotes).0)
  unfolding reserve
  reserve-IsDisjoint quote quotes h = after (quote_for quote.job_id quotes)
    where
      free :
          (b : Bool)
          → any (λ q. overlaps q quote) quotes ≡ b
          → IsDisjoint ((reserve_free hash quote quotes b).0)
      free true e = h
      free false e = IsDisjoint-snoc quotes quote h e

      after : (o : Option PublisherQuote) → IsDisjoint ((reserve_after hash quote quotes o).0)
      after (some q) = h
      after none = free _ refl

  quote_for-snoc :
      (quotes : Quotes) (k : PublisherQuote)
      → quote_for k.job_id quotes ≡ none
      → quote_for k.job_id (quotes ++ k ∷ []) ≡ some k
  unfolding quote_for
  quote_for-snoc [] k e = rw (str_eq_refl k.job_id) refl
  quote_for-snoc (q ∷ rest) k e = elim (Bool-cases (str_eq q.job_id k.job_id)) [
    | inl c ↦ ground arith
    | inr c ↦ rw c (quote_for-snoc rest k (ground arith))
  ]

  -- The reservation under the quote's job, after a reservation that holds.
  abbrev pub IsHeld : PublisherQuote → Quotes → Type 0
  IsHeld quote quotes =
      (k : PublisherQuote) × (quote_for quote.job_id quotes ≡ some k)
      × (str_eq (hash.of_quote k) (hash.of_quote quote) ≡ true)

  reserve-IsHeld :
      (quote : PublisherQuote) (quotes : Quotes)
      → (reserve hash quote quotes).1 ≡ reserved
      → IsHeld quote ((reserve hash quote quotes).0)
  unfolding reserve
  reserve-IsHeld quote quotes = after (quote_for quote.job_id quotes) refl
    where
      free :
          (b : Bool)
          → quote_for quote.job_id quotes ≡ none
          → (reserve_free hash quote quotes b).1 ≡ reserved
          → IsHeld quote ((reserve_free hash quote quotes b).0)
      free true e h = cc
      free false e h = (quote, quote_for-snoc quotes quote e, str_eq_refl (hash.of_quote quote))

      same : (b : Bool) → same_quote hash b ≡ reserved → b ≡ true
      same true h = refl
      same false h = cc

      after :
          (o : Option PublisherQuote)
          → quote_for quote.job_id quotes ≡ o
          → (reserve_after hash quote quotes o).1 ≡ reserved
          → IsHeld quote ((reserve_after hash quote quotes o).0)
      after (some q) e h = (q, e, same _ h)
      after none e h = free _ e h

  -- What the request allows.
  pub record IsWithin (request : PublisherRfqRequest) (q : PublisherQuote) : Type 0 where
    pub affordable : q.price_dem ≤ request.budget_dem
    pub long_enough : request.minimum_duration_days ≤ q.duration_days
    pub not_longer : q.duration_days ≤ request.preferred_duration_days
    pub placed : placement_eq q.placement request.preferred_placement ≡ true
    pub runs : q.ends_at ≡ q.starts_at + q.duration_days * 86400000
    pub bound :
        (q.creative_hash ≡ hash.of_creative request.creative)
        × (q.request_hash ≡ hash.of_request request)

  quote_of-IsWithin :
      (job_id domain : String) (request : PublisherRfqRequest) (now : ℕ) (s : PublisherSlot)
      → placement_eq s.placement request.preferred_placement ≡ true
      → ltb (days_for hash request s.daily_rate_dem) request.minimum_duration_days ≡ false
      → IsWithin request (quote_of hash job_id domain request now s)
  unfolding quote_of
  quote_of-IsWithin job_id domain request now s e h =
      let bought = div_any request.budget_dem s.daily_rate_dem in
      let most =
        mul-le-mul_left s.daily_rate_dem
          (min-le_right request.preferred_duration_days (request.budget_dem / s.daily_rate_dem)) in
      record {
        affordable = omega (arith, bought, most);
        long_enough = ground arith;
        not_longer = omega arith;
        placed = e;
        runs = refl;
        bound = (refl, refl);
      }

  price_slot-IsWithin :
      (job_id domain : String) (request : PublisherRfqRequest) (now : ℕ) (o : Option PublisherSlot)
      (q : PublisherQuote)
      → ((s : PublisherSlot)
          → o ≡ some s
          → placement_eq s.placement request.preferred_placement ≡ true)
      → price_slot hash job_id domain request now o ≡ ok q
      → IsWithin request q
  unfolding price_slot
  price_slot-IsWithin job_id domain request now none q k h = cc
  price_slot-IsWithin job_id domain request now (some s) q k h =
      let parts : (ltb (days_for hash request s.daily_rate_dem) request.minimum_duration_days
            ≡ false)
          × (quote_of hash job_id domain request now s ≡ q) =
        ground arith in
      subst (λ r. IsWithin request r) (parts.1)
        (quote_of-IsWithin job_id domain request now s (k s refl) (parts.0))

  build-IsWithin :
      (job_id domain : String) (request : PublisherRfqRequest) (slots : List PublisherSlot)
      (now : ℕ) (q : PublisherQuote)
      → build_publisher_quote hash job_id domain request slots now ≡ ok q
      → IsWithin request q
  unfolding build_publisher_quote
  build-IsWithin job_id domain request slots now q h =
      price_slot-IsWithin job_id domain request now _ q
        (λ s e. find-test (λ s. placement_eq s.placement request.preferred_placement) slots s e) h

  -- What an answer to a request is worth.
  abbrev pub IsDeal : PublisherRfqRequest → Quotes → Result RfqError PublisherQuote → Type 0
  IsDeal request quotes (ok q) = IsWithin request q × IsHeld q quotes
  IsDeal request quotes (thrown e) = Unit

  -- On an inventory whose reservations of a slot never share time, a request for a quote leaves
  -- such an inventory; and an agreed quote costs at most the budget, runs for at least the
  -- minimum and at most the preferred days, from its start to its end, in the preferred
  -- placement, is bound to the request and its creative, and is held under its job.
  pub negotiate_publisher_rfq-IsDeal :
      (job_id domain : String) (request : PublisherRfqRequest) (slots : List PublisherSlot)
      (now : ℕ) (quotes : Quotes)
      → IsDisjoint quotes
      → IsDisjoint ((negotiate_publisher_rfq hash job_id domain request slots now quotes).0)
        × IsDeal request
            ((negotiate_publisher_rfq hash job_id domain request slots now quotes).0)
            ((negotiate_publisher_rfq hash job_id domain request slots now quotes).1)
  unfolding negotiate_publisher_rfq
  negotiate_publisher_rfq-IsDeal job_id domain request slots now quotes d =
      built (build_publisher_quote hash job_id domain request slots now) refl
    where
      agreed :
          (q : PublisherQuote) (out : Quotes × Reservation)
          → IsWithin request q
          → IsDisjoint (out.0)
          → (out.1 ≡ reserved → IsHeld q (out.0))
          → IsDisjoint ((agree_on hash q out).0)
            × IsDeal request ((agree_on hash q out).0) ((agree_on hash q out).1)
      agreed q (after, reserved) w i h = (i, (w, h refl))
      agreed q (after, not_reserved e) w i h = (i, tt)

      built :
          (r : Result RfqError PublisherQuote)
          → build_publisher_quote hash job_id domain request slots now ≡ r
          → IsDisjoint ((reserve_built hash quotes r).0)
            × IsDeal request ((reserve_built hash quotes r).0) ((reserve_built hash quotes r).1)
      built (thrown e) h = (d, tt)
      built (ok q) h =
          agreed q (reserve hash q quotes) (build-IsWithin job_id domain request slots now q h)
            (reserve-IsDisjoint q quotes d) (reserve-IsHeld q quotes)
