-- ===== src/Sponsored/Idempotency.antt =====
-- roster/sponsored-post/idempotency.ts: the store that lets a paid job publish once, with the
-- published post of types.ts. A store is a function of the job id, as its `Map` is.
pub mod Once
use dacs_agent_reference.Common.{
  ℕ, String, Bool, true, false, Option, none, some, if◌then◌else◌, str_eq, update, ◌&&◌,
}

-- The literal fields `paidPartnership` and `madeWithAi` are left out.
pub record PublishedSponsoredPost : Type 0 where
  pub post_id : String
  pub text : String
  pub handle : String
  pub url : String
  pub published_at : ℕ

pub data SponsoredPostJobState : Type 0 where
  publishing : (request_hash : String) → ℕ → SponsoredPostJobState
  complete :
      (request_hash : String) → PublishedSponsoredPost → Option String → SponsoredPostJobState

pub data BeginPublication : Type 0 where
  new pending : BeginPublication
  done : PublishedSponsoredPost → Option String → BeginPublication
  -- the error that `begin` throws
  reused : BeginPublication

abbrev pub Jobs : Type 0
Jobs = String → Option SponsoredPostJobState

abbrev pub hash_of : SponsoredPostJobState → String
hash_of (publishing h t) = h
hash_of (complete h post r) = h

abbrev pub answer : SponsoredPostJobState → BeginPublication
answer (publishing h t) = pending
answer (complete h post r) = done post r

-- `begin` at the state of its job, with `Date.now()`
unfoldable pub begin_at :
    String → String → ℕ → Jobs → Option SponsoredPostJobState → Jobs × BeginPublication
begin_at job_id request_hash now jobs none =
    (update jobs job_id (some (publishing request_hash now)), new)
begin_at job_id request_hash now jobs (some state) =
    (jobs, if str_eq (hash_of state) request_hash then answer state else reused)

unfoldable pub begin : String → String → ℕ → Jobs → Jobs × BeginPublication
begin job_id request_hash now jobs = begin_at job_id request_hash now jobs (jobs job_id)

abbrev pub matches : String → Option SponsoredPostJobState → Bool
matches request_hash none = false
matches request_hash (some state) = str_eq (hash_of state) request_hash

-- `complete`; `false` says that it throws.
unfoldable pub complete_job :
    String → String → PublishedSponsoredPost → Option String → Jobs → Jobs × Bool
complete_job job_id request_hash post decision_ref jobs =
    if matches request_hash (jobs job_id)
    then (update jobs job_id (some (complete request_hash post decision_ref)), true)
    else (jobs, false)

abbrev pub is_publishing : String → Option SponsoredPostJobState → Bool
is_publishing request_hash none = false
is_publishing request_hash (some (publishing h t)) = str_eq h request_hash
is_publishing request_hash (some (complete h post r)) = false

unfoldable pub release_rejected : String → String → Jobs → Jobs
release_rejected job_id request_hash jobs =
    if is_publishing request_hash (jobs job_id) then update jobs job_id none else jobs
