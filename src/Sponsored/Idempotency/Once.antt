-- ===== src/Sponsored/Idempotency/Once.antt =====
-- A job of roster/sponsored-post/idempotency.ts publishes once, and a completed one stays so.
use dacs_agent_reference.Common.{
  ℕ, ◌+◌, ◌≤◌, String, Bool, true, false, Option, none, some, List, [], ◌∷◌, ◌≡◌, refl, sym, ap,
  ◌∙◌, inl, inr, if◌then◌else◌, str_eq, str-cases, update, arith,
}
use dacs_agent_reference.Sponsored.Idempotency.{
  PublishedSponsoredPost, SponsoredPostJobState, publishing, complete, BeginPublication, new,
  pending, done, reused, Jobs, hash_of, answer, begin_at, begin, matches, complete_job,
  is_publishing, release_rejected,
}

pub data StoreCall : Type 0 where
  beginning : String → String → ℕ → StoreCall
  completing : String → String → PublishedSponsoredPost → Option String → StoreCall
  rejecting : String → String → StoreCall

-- The store after a call, and whether the call lets the job publish.
unfoldable pub step : String → StoreCall → Jobs → Jobs
step job (beginning id hash now) jobs = (begin id hash now jobs).0
step job (completing id hash post r) jobs = (complete_job id hash post r jobs).0
step job (rejecting id hash) jobs = release_rejected id hash jobs

abbrev is_new : BeginPublication → ℕ
is_new new = 1
is_new pending = 0
is_new (done post r) = 0
is_new reused = 0

abbrev count : Bool → ℕ
count true = 1
count false = 0

abbrev grants : String → StoreCall → Jobs → ℕ
grants job (beginning id hash now) jobs =
    if str_eq id job then is_new ((begin id hash now jobs).1) else 0
grants job (completing id hash post r) jobs = 0
grants job (rejecting id hash) jobs = 0

-- How often a run of calls lets a job publish.
unfoldable pub publications : String → List StoreCall → Jobs → ℕ
publications job [] jobs = 0
publications job (c ∷ rest) jobs = grants job c jobs + publications job rest (step job c jobs)

abbrev rejects : String → StoreCall → ℕ
rejects job (beginning id hash now) = 0
rejects job (completing id hash post r) = 0
rejects job (rejecting id hash) = count (str_eq id job)

unfoldable pub rejections : String → List StoreCall → ℕ
rejections job [] = 0
rejections job (c ∷ rest) = rejects job c + rejections job rest

abbrev held : Option SponsoredPostJobState → ℕ
held none = 0
held (some s) = 1

begin-counts :
    (job id hash : String) (now : ℕ) (jobs : Jobs) (o : Option SponsoredPostJobState)
    → jobs id ≡ o
    → (if str_eq id job then is_new ((begin_at id hash now jobs o).1) else 0) + held (jobs job)
      ≤ held ((begin_at id hash now jobs o).0 job)
unfolding begin_at
begin-counts job id hash now jobs none e = elim (str-cases id job) [
  | inl (q, same) ↦ rw (q, ap jobs (sym same) ∙ e) (omega arith)
  | inr (q, other) ↦ rw q (omega arith)
]
begin-counts job id hash now jobs (some state) e =
    omega (arith, quiet (str_eq id job) (str_eq (hash_of state) hash) state)
  where
    quiet :
        (b c : Bool) (state : SponsoredPostJobState)
        → (if b then is_new (if c then answer state else reused) else 0) ≤ 0
    quiet false c state = omega arith
    quiet true false state = omega arith
    quiet true true (publishing h t) = omega arith
    quiet true true (complete h post r) = omega arith

complete-counts :
    (job id hash : String) (post : PublishedSponsoredPost) (r : Option String) (jobs : Jobs)
    → held (jobs job) ≤ held ((complete_job id hash post r jobs).0 job)
unfolding complete_job
complete-counts job id hash post r jobs = kept (matches hash (jobs id))
  where
    written :
        held (jobs job) ≤ held (if str_eq id job then some (complete hash post r) else jobs job)
    written = bounded (str_eq id job) (jobs job)
      where
        bounded :
            (b : Bool) (o : Option SponsoredPostJobState)
            → held o ≤ held (if b then some (complete hash post r) else o)
        bounded true none = omega arith
        bounded true (some s) = omega arith
        bounded false o = omega arith

    kept :
        (b : Bool)
        → held (jobs job)
          ≤ held (
              (if◌then◌else◌ {A = Jobs × Bool} b
                  (update jobs id (some (complete hash post r)), true)
                  (jobs, false)).0
                job)
    kept true = written
    kept false = omega arith

reject-counts :
    (job id hash : String) (jobs : Jobs)
    → held (jobs job) ≤ count (str_eq id job) + held (release_rejected id hash jobs job)
unfolding release_rejected
reject-counts job id hash jobs = kept (is_publishing hash (jobs id))
  where
    dropped :
        (b : Bool) (o : Option SponsoredPostJobState)
        → held o ≤ count b + held (if b then none else o)
    dropped true none = omega arith
    dropped true (some s) = omega arith
    dropped false o = omega arith

    kept :
        (b : Bool)
        → held (jobs job)
          ≤ count (str_eq id job) + held ((if b then update jobs id none else jobs) job)
    kept true = dropped (str_eq id job) (jobs job)
    kept false = omega arith

step-counts :
    (job : String) (c : StoreCall) (jobs : Jobs)
    → grants job c jobs + held (jobs job) ≤ rejects job c + held (step job c jobs job)
unfolding step begin
step-counts job (beginning id hash now) jobs =
    omega (arith, begin-counts job id hash now jobs (jobs id) refl)
step-counts job (completing id hash post r) jobs =
    omega (arith, complete-counts job id hash post r jobs)
step-counts job (rejecting id hash) jobs = omega (arith, reject-counts job id hash jobs)

publications-held_le :
    (job : String) (calls : List StoreCall) (jobs : Jobs)
    → publications job calls jobs + held (jobs job) ≤ 1 + rejections job calls
unfolding publications rejections
publications-held_le job [] jobs = at_most_one (jobs job)
  where
    at_most_one : (o : Option SponsoredPostJobState) → 0 + held o ≤ 1 + 0
    at_most_one none = omega arith
    at_most_one (some s) = omega arith
publications-held_le job (c ∷ rest) jobs =
    omega (arith, publications-held_le job rest (step job c jobs), step-counts job c jobs)

-- Over any sequence of calls on the store, a job is let to publish at most once more than a
-- rejection of it is reported.
pub publications_le :
    (job : String) (calls : List StoreCall) (jobs : Jobs)
    → publications job calls jobs ≤ 1 + rejections job calls
publications_le job calls jobs = omega (arith, publications-held_le job calls jobs)

abbrev pub is_complete : Option SponsoredPostJobState → Bool
is_complete none = false
is_complete (some (publishing h t)) = false
is_complete (some (complete h post r)) = true

step-is_complete :
    (job : String) (c : StoreCall) (jobs : Jobs)
    → is_complete (jobs job) ≡ true
    → (grants job c jobs ≡ 0) × (is_complete (step job c jobs job) ≡ true)
unfolding step begin begin_at complete_job release_rejected
step-is_complete job (beginning id hash now) jobs h = elim (str-cases id job) [
  | inl (q, same) ↦ let at : jobs id ≡ jobs job = ap jobs same in ground arith
  | inr (q, other) ↦ ground arith
]
step-is_complete job (completing id hash post r) jobs h = ground arith
step-is_complete job (rejecting id hash) jobs h = elim (str-cases id job) [
  | inl (q, same) ↦ let at : jobs id ≡ jobs job = ap jobs same in ground arith
  | inr (q, other) ↦ ground arith
]

-- Once its post is recorded, a job is never let to publish again, rejections or not.
pub publications-is_complete :
    (job : String) (calls : List StoreCall) (jobs : Jobs)
    → is_complete (jobs job) ≡ true
    → publications job calls jobs ≡ 0
unfolding publications
publications-is_complete job [] jobs h = refl
publications-is_complete job (c ∷ rest) jobs h =
    let once = step-is_complete job c jobs h in
    omega (arith, once.0, publications-is_complete job rest (step job c jobs) once.1)
