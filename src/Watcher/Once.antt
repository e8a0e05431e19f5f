-- ===== src/Watcher/Once.antt =====
-- What the decisions of roster/dacs/watcher.ts say when no two transfers overlap.
use mathlib.Core.Path.{subst}
use dacs_agent_reference.Common.{
  ℕ, suc, ◌+◌, ◌≤◌, true, false, Option, none, some, List, [], ◌∷◌, ◌≡◌, ◌≢◌, refl, inl, inr, arith,
  All, All-map, any, length, ltb, Bool-cases, Option-cases,
}
use dacs_agent_reference.Common.Codes.{Text, text_eq, text_eq_refl}
use dacs_agent_reference.Watcher.{
  DemTransfer, DealPort, ParkReason, WatchDecision, delivered, skipped_replay, parked, WatcherState,
  is_handled, log, handle, Part, decided, goes_on, job_id_from_memo, did_from_demos_addr, arrive,
  check_params, look, settle, after_look, on_transfer, watch,
}

-- A delivery was paid for at the listing price.
abbrev pub IsPaid : ℕ → WatchDecision → Type 0
IsPaid price (delivered job from amount ref) = price ≤ amount
IsPaid price (skipped_replay job) = Unit
IsPaid price (parked job reason) = Unit

-- The job of a delivery is marked as handled.
abbrev IsMarked : List Text → WatchDecision → Type 0
IsMarked handled (delivered job from amount ref) = any (λ h. text_eq h job) handled ≡ true
IsMarked handled (skipped_replay job) = Unit
IsMarked handled (parked job reason) = Unit

-- It is no delivery of the job.
abbrev pub IsNotOf : Text → WatchDecision → Type 0
IsNotOf job (delivered j from amount ref) = j ≢ job
IsNotOf job (skipped_replay j) = Unit
IsNotOf job (parked j reason) = Unit

abbrev pub IsFirst : WatchDecision → List WatchDecision → Type 0
IsFirst (delivered job from amount ref) ds = All (IsNotOf job) ds
IsFirst (skipped_replay job) ds = Unit
IsFirst (parked job reason) ds = Unit

-- No job is delivered twice.
abbrev pub OncePerJob : List WatchDecision → Type 0
OncePerJob [] = Unit
OncePerJob (d ∷ ds) = IsFirst d ds × OncePerJob ds

-- What a part of the watcher keeps.
record IsSound (price : ℕ) (s : WatcherState) : Type 0 where
  pub paid : All (IsPaid price) s.decisions
  pub once : OncePerJob s.decisions
  pub marked : All (IsMarked s.handled) s.decisions

IsMarked-cons :
    (job : Text) (hs : List Text) (d : WatchDecision) → IsMarked hs d → IsMarked (job ∷ hs) d
IsMarked-cons job hs (delivered j from amount ref) h = ground arith
IsMarked-cons job hs (skipped_replay j) h = tt
IsMarked-cons job hs (parked j reason) h = tt

-- What is marked is not of a job that is not handled.
IsMarked-IsNotOf :
    (job : Text) (hs : List Text) (d : WatchDecision)
    → any (λ h. text_eq h job) hs ≡ false
    → IsMarked hs d
    → IsNotOf job d
IsMarked-IsNotOf job hs (delivered j from amount ref) f m = λ same.
    let there : any (λ h. text_eq h job) hs ≡ true =
      subst (λ k. any (λ h. text_eq h k) hs ≡ true) same m in
    absurd (ground arith)
IsMarked-IsNotOf job hs (skipped_replay j) f m = tt
IsMarked-IsNotOf job hs (parked j reason) f m = tt

-- A decision that is no delivery.
parked-IsSound :
    (price : ℕ) (s : WatcherState) (job : Option Text) (reason : ParkReason)
    → IsSound price s
    → IsSound price (log s (parked job reason))
parked-IsSound price s job reason h = record {
  paid = (tt, h.paid);
  once = (tt, h.once);
  marked = (tt, h.marked);
}

skipped-IsSound :
    (price : ℕ) (s : WatcherState) (job : Text)
    → IsSound price s
    → IsSound price (log s (skipped_replay job))
skipped-IsSound price s job h = record {
  paid = (tt, h.paid);
  once = (tt, h.once);
  marked = (tt, h.marked);
}

handle-IsSound :
    (price : ℕ) (s : WatcherState) (job : Text) → IsSound price s → IsSound price (handle s job)
handle-IsSound price s job h = record {
  paid = h.paid;
  once = h.once;
  marked = All-map {P = IsMarked s.handled} (IsMarked-cons job s.handled) s.decisions h.marked;
}

delivered-IsSound :
    (price : ℕ) (s : WatcherState) (job from ref : Text) (amount : ℕ)
    → is_handled s job ≡ false
    → price ≤ amount
    → IsSound price s
    → IsSound price (log (handle s job) (delivered job from amount ref))
delivered-IsSound price s job from ref amount new enough h = record {
  paid = (enough, h.paid);
  once = (
    All-map {P = IsMarked s.handled} (λ d m. IsMarked-IsNotOf job s.handled d new m) s.decisions
        h.marked,
    h.once,
  );
  marked = (rw (text_eq_refl job) refl, (handle-IsSound price s job h).marked);
}

module _ {W P : Type 0} (port : DealPort W P) (price : ℕ) where
  -- The watcher is sound after a transfer, and has one decision more.
  Follows : WatcherState → WatcherState → Type 0
  Follows s s' = IsSound price s' × (length s'.decisions ≡ suc (length s.decisions))

  settle-Follows :
      (job : Text) (t : DemTransfer) (s : WatcherState) (ref : Option Text)
      → is_handled s job ≡ false
      → price ≤ t.amount
      → IsSound price s
      → Follows s (settle port price job t s ref)
  unfolding settle Follows
  settle-Follows job t s none new enough h =
      (parked-IsSound price s (some job) ParkReason.failed h, refl)
  settle-Follows job t s (some ref) new enough h =
      (delivered-IsSound price s job t.from ref t.amount new enough h, refl)

  -- a part that decides, or goes on with a payment that is enough
  abbrev GoesWell : DemTransfer → WatcherState → Part P → Type 0
  GoesWell t s (decided s') = Follows s s'
  GoesWell t s (goes_on params) = price ≤ t.amount

  check_params-GoesWell :
      (job : Text) (t : DemTransfer) (s : WatcherState) (o : Option (Option P))
      → IsSound price s
      → GoesWell t s (check_params port price job t s o)
  unfolding check_params Follows
  check_params-GoesWell job t s none h =
      (parked-IsSound price s (some job) ParkReason.no_agreement h, refl)
  check_params-GoesWell job t s (some none) h =
      (parked-IsSound price s (some job) ParkReason.no_params h, refl)
  check_params-GoesWell job t s (some (some params)) h = elim (Bool-cases (ltb t.amount price)) [
    | inl low ↦
        rw (low, check_params) (parked-IsSound price s (some job) ParkReason.underpaid h, refl)
    | inr enough ↦ rw (enough, check_params) (ground arith)
  ]

  look-GoesWell :
      (job : Text) (t : DemTransfer) (s : WatcherState) (w : W)
      → IsSound price s
      → GoesWell t s (look port price job t s w)
  unfolding look Follows
  look-GoesWell job t s w h = elim (Bool-cases (port.is_delivered w job)) [
    | inl there ↦
        rw (there, look)
          (skipped-IsSound price (handle s job) job (handle-IsSound price s job h), refl)
    | inr new ↦
        rw (new, look)
          (elim (Option-cases (did_from_demos_addr t.from)) [
            | inl e ↦ rw e (parked-IsSound price s (some job) ParkReason.no_did h, refl)
            | inr (did, e) ↦ rw e (check_params-GoesWell job t s (port.agreement w did job) h)
          ])
  ]

  after_look-Follows :
      (job : Text) (t : DemTransfer) (s : WatcherState) (w : W) (part : Part P)
      → is_handled s job ≡ false
      → IsSound price s
      → GoesWell t s part
      → Follows s (after_look port price job t s w part).0
  after_look-Follows job t s w (decided s') new h g = g
  after_look-Follows job t s w (goes_on params) new h g =
      settle-Follows job t s (port.deliver w job params).1 new g h

  on_transfer-Follows :
      (t : DemTransfer) (s : WatcherState) (w : W)
      → IsSound price s
      → Follows s (on_transfer port price t s w).0
  unfolding on_transfer arrive Follows
  on_transfer-Follows t s w h = elim (Option-cases (job_id_from_memo t.memo)) [
    | inl e ↦ rw (e, on_transfer, arrive) (parked-IsSound price s none ParkReason.untagged h, refl)
    | inr (job, e) ↦ elim (Bool-cases (is_handled s job)) [
      | inl again ↦ rw (e, on_transfer, arrive, again) (skipped-IsSound price s job h, refl)
      | inr new ↦
          rw (e, on_transfer, arrive, new)
            (after_look-Follows job t s w (look port price job t s w) new h
              (look-GoesWell job t s w h))
    ]
  ]

  watch-Follows :
      (ts : List DemTransfer) (s : WatcherState) (w : W)
      → IsSound price s
      → let s' = (watch port price ts s w).0 in
        IsSound price s' × (length s'.decisions ≡ length ts + length s.decisions)
  unfolding watch Follows
  watch-Follows [] s w h = (h, omega arith)
  watch-Follows (t ∷ ts) s w h =
      let next = on_transfer port price t s w in
      let (sound, one) = on_transfer-Follows t s w h in
      let (rest, more) = watch-Follows ts next.0 next.1 sound in (rest, omega (arith, one, more))

  -- Over transfers that do not overlap, a new watcher makes one decision for each, delivers only
  -- for at least the listing price, and delivers no job twice, whatever the substrate answers.
  pub watch-OncePerJob :
      (ts : List DemTransfer) (w : W)
      → let ds = (watch port price ts (record { handled = []; decisions = [] }) w).0.decisions in
        (length ds ≡ length ts) × All (IsPaid price) ds × OncePerJob ds
  watch-OncePerJob ts w =
      let (sound, count) =
        watch-Follows ts (record { handled = []; decisions = [] }) w
          (record { paid = tt; once = tt; marked = tt }) in
      (omega (arith, count), sound.paid, sound.once)
