-- ===== src/Publisher/Rfq.antt =====
-- roster/publisher-agent/rfq.ts: a quote for an advertising slot and the inventory's reservations, with
-- the types of types.ts that they use. DEM amounts are cents, as `demCents` reads them (NaN, which
-- the later tests do not all catch, is not in the model: budgets come parsed). Times are in
-- milliseconds. The hash of a value is a parameter.
pub mod Inventory
use dacs_agent_reference.Common.{
  ℕ, ◌+◌, ◌*◌, ◌/◌, min, String, Bool, true, false, ◌&&◌, Option, none, some, List, [], ◌∷◌, ◌++◌,
  any, find, map, ltb, ◌==◌, if◌then◌else◌, str_eq,
}
use dacs_agent_reference.Common.Result.{Result, ok, thrown, ◌>>=◌, throw_if, ◌>>◌}

pub data AdPlacement : Type 0 where
  homepage_banner sidebar_card : AdPlacement

abbrev pub placement_eq : AdPlacement → AdPlacement → Bool
placement_eq homepage_banner homepage_banner = true
placement_eq sidebar_card sidebar_card = true
placement_eq _ _ = false

pub record AdCreative : Type 0 where
  pub headline : String
  pub body : String
  pub cta : String
  pub destination_url : String

pub record PublisherRfqRequest : Type 0 where
  pub creative : AdCreative
  pub preferred_placement : AdPlacement
  pub preferred_duration_days : ℕ
  pub minimum_duration_days : ℕ
  pub budget_dem : ℕ

pub record PublisherSlot : Type 0 where
  pub slot_id : String
  pub placement : AdPlacement
  pub daily_rate_dem : ℕ
  pub public_path : String

pub record PublisherQuote : Type 0 where
  pub job_id : String
  pub domain : String
  pub slot_id : String
  pub placement : AdPlacement
  pub duration_days : ℕ
  pub price_dem : ℕ
  pub starts_at : ℕ
  pub ends_at : ℕ
  pub expires_at : ℕ
  pub creative_hash : String
  pub request_hash : String

pub data RfqError : Type 0 where
  no_inventory invalid_rate budget_too_small job_reused slot_taken : RfqError

-- Reservations by job id, a `Map`: the oldest first.
abbrev pub Quotes : Type 0
Quotes = List PublisherQuote

unfoldable pub quote_for : String → Quotes → Option PublisherQuote
quote_for job_id quotes = find (λ q. str_eq q.job_id job_id) quotes

-- Two reservations of one slot that share time.
unfoldable pub overlaps : PublisherQuote → PublisherQuote → Bool
overlaps quote input =
    str_eq quote.slot_id input.slot_id
    && (ltb quote.starts_at input.ends_at && ltb input.starts_at quote.ends_at)

-- `hashPublisherValue` of the values that the code hashes
pub record Hashes : Type 0 where
  pub of_quote : PublisherQuote → String
  pub of_creative : AdCreative → String
  pub of_request : PublisherRfqRequest → String

pub data Reservation : Type 0 where
  reserved : Reservation
  not_reserved : RfqError → Reservation

-- `release`
unfoldable pub release : String → Quotes → Quotes
release job_id [] = []
release job_id (q ∷ rest) =
    if str_eq q.job_id job_id then release job_id rest else q ∷ release job_id rest

module _ (hash : Hashes) where
  -- a job that holds a reservation may only repeat its quote
  abbrev pub same_quote : Bool → Reservation
  same_quote true = reserved
  same_quote false = not_reserved job_reused

  abbrev pub reserve_free : PublisherQuote → Quotes → Bool → Quotes × Reservation
  reserve_free input quotes true = (quotes, not_reserved slot_taken)
  reserve_free input quotes false = (quotes ++ input ∷ [], reserved)

  abbrev pub reserve_after : PublisherQuote → Quotes → Option PublisherQuote → Quotes × Reservation
  reserve_after input quotes (some q) =
      (quotes, same_quote (str_eq (hash.of_quote q) (hash.of_quote input)))
  reserve_after input quotes none =
      reserve_free input quotes (any (λ quote. overlaps quote input) quotes)

  unfoldable pub reserve : PublisherQuote → Quotes → Quotes × Reservation
  reserve input quotes = reserve_after input quotes (quote_for input.job_id quotes)

  -- the days that the budget buys, at most the preferred ones
  abbrev pub days_for : PublisherRfqRequest → ℕ → ℕ
  days_for request rate = min request.preferred_duration_days (request.budget_dem / rate)

  unfoldable pub quote_of :
      String → String → PublisherRfqRequest → ℕ → PublisherSlot → PublisherQuote
  quote_of job_id domain request now slot =
      let days = days_for request slot.daily_rate_dem in
      record {
        job_id = job_id;
        domain = domain;
        slot_id = slot.slot_id;
        placement = slot.placement;
        duration_days = days;
        price_dem = slot.daily_rate_dem * days;
        starts_at = now + 60000;
        ends_at = now + 60000 + days * 86400000;
        expires_at = now + 5 * 60000;
        creative_hash = hash.of_creative request.creative;
        request_hash = hash.of_request request;
      }

  unfoldable pub price_slot :
      String
      → String
      → PublisherRfqRequest
      → ℕ
      → Option PublisherSlot
      → Result RfqError PublisherQuote
  price_slot job_id domain request now none = thrown no_inventory
  price_slot job_id domain request now (some slot) =
      throw_if (slot.daily_rate_dem == 0) invalid_rate
      >> (throw_if (ltb (days_for request slot.daily_rate_dem) request.minimum_duration_days)
            budget_too_small
          >> ok (quote_of job_id domain request now slot))

  unfoldable pub build_publisher_quote :
      String
      → String
      → PublisherRfqRequest
      → List PublisherSlot
      → ℕ
      → Result RfqError PublisherQuote
  build_publisher_quote job_id domain request slots now =
      price_slot job_id domain request now
        (find (λ s. placement_eq s.placement request.preferred_placement) slots)

  abbrev pub agree_on :
      PublisherQuote → Quotes × Reservation → Quotes × Result RfqError PublisherQuote
  agree_on quote (quotes, reserved) = (quotes, ok quote)
  agree_on quote (quotes, not_reserved e) = (quotes, thrown e)

  abbrev pub reserve_built :
      Quotes → Result RfqError PublisherQuote → Quotes × Result RfqError PublisherQuote
  reserve_built quotes (thrown e) = (quotes, thrown e)
  reserve_built quotes (ok quote) = agree_on quote (reserve quote quotes)

  -- the agreed quote, and the inventory after it
  unfoldable pub negotiate_publisher_rfq :
      String
      → String
      → PublisherRfqRequest
      → List PublisherSlot
      → ℕ
      → Quotes
      → Quotes × Result RfqError PublisherQuote
  negotiate_publisher_rfq job_id domain request slots now quotes =
      reserve_built quotes (build_publisher_quote job_id domain request slots now)
