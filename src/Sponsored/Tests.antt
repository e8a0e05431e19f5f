-- ===== src/Sponsored/Tests.antt =====
-- Calls on the store of roster/sponsored-post/idempotency.ts for one job.
use dacs_agent_reference.Common.{◌+◌, ◌≤◌, none, some, List, [], ◌∷◌, ◌≡◌, refl}
use dacs_agent_reference.Sponsored.Idempotency.{PublishedSponsoredPost, complete}
use dacs_agent_reference.Sponsored.Idempotency.Once.{
  StoreCall, beginning, completing, rejecting, publications, rejections, publications_le,
  publications-is_complete,
}

abbrev post : PublishedSponsoredPost
post = record {
  post_id = "1";
  text = "hello";
  handle = "desk";
  url = "https://example.org/1";
  published_at = 9;
}

abbrev calls : List StoreCall
calls =
    beginning "job" "hash" 1
    ∷ beginning "job" "hash" 2
    ∷ rejecting "job" "hash"
    ∷ beginning "job" "hash" 3
    ∷ completing "job" "hash" post none
    ∷ beginning "job" "hash" 4
    ∷ []

publications_le_example : publications "job" calls (λ id. none) ≤ 1 + rejections "job" calls
publications_le_example = publications_le "job" calls (λ id. none)

publications-is_complete_example :
    publications "job" calls (λ id. some (complete "hash" post none)) ≡ 0
publications-is_complete_example =
    publications-is_complete "job" calls (λ id. some (complete "hash" post none)) refl
