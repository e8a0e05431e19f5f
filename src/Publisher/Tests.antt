-- ===== src/Publisher/Tests.antt =====
-- A request for a banner to the publisher of roster/publisher-agent, on an inventory that holds one reservation.
use dacs_agent_reference.Common.{[], ◌∷◌}
use dacs_agent_reference.Publisher.Rfq.{
  homepage_banner, AdCreative, PublisherRfqRequest, PublisherSlot, Hashes, Quotes,
  negotiate_publisher_rfq,
}
use dacs_agent_reference.Publisher.Rfq.Inventory.{
  IsDisjoint, IsDeal, negotiate_publisher_rfq-IsDeal,
}

abbrev hashes : Hashes
hashes = record {
  of_quote = λ q. q.job_id;
  of_creative = λ c. c.headline;
  of_request = λ r. r.creative.headline;
}

abbrev request : PublisherRfqRequest
request =
    let creative : AdCreative = record {
      headline = "Audits";
      body = "On demand";
      cta = "Try it";
      destination_url = "https://example.org/";
    } in
    record {
      creative = creative;
      preferred_placement = homepage_banner;
      preferred_duration_days = 7;
      minimum_duration_days = 2;
      budget_dem = 1000;
    }

abbrev slot : PublisherSlot
slot = record {
  slot_id = "s1";
  placement = homepage_banner;
  daily_rate_dem = 300;
  public_path = "/";
}

abbrev held : Quotes
held =
    record {
      job_id = "old";
      domain = "example.org";
      slot_id = "s1";
      placement = homepage_banner;
      duration_days = 1;
      price_dem = 300;
      starts_at = 0;
      ends_at = 1000;
      expires_at = 500;
      creative_hash = "a";
      request_hash = "b";
    }
    ∷ []

negotiate_publisher_rfq-IsDeal_example :
    IsDisjoint (negotiate_publisher_rfq hashes "job" "example.org" request (slot ∷ []) 5000 held).0
    × IsDeal hashes request
        (negotiate_publisher_rfq hashes "job" "example.org" request (slot ∷ []) 5000 held).0
        (negotiate_publisher_rfq hashes "job" "example.org" request (slot ∷ []) 5000 held).1
negotiate_publisher_rfq-IsDeal_example =
    negotiate_publisher_rfq-IsDeal hashes "job" "example.org" request (slot ∷ []) 5000 held (tt, tt)
