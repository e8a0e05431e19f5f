-- ===== src/Watcher/Tests.antt =====
-- Runs of roster/dacs/watcher.ts on two payments for one job.
use dacs_agent_reference.Common.{none, some, List, [], ◌∷◌, ◌≡◌, refl, All, any, length}
use dacs_agent_reference.Common.Codes.{Text, codes, text_eq}
use dacs_agent_reference.Watcher.{
  DemTransfer, DealPort, WatchDecision, delivered, skipped_replay, parked, untagged, WatcherState,
  goes_on, job_id_from_memo, did_from_demos_addr, arrive, check_params, look, settle, on_transfer,
  watch,
}
use dacs_agent_reference.Watcher.Once.{IsPaid, OncePerJob, watch-OncePerJob}

-- The world is the list of the jobs that a delivery is anchored of.
abbrev port : DealPort (List Text) (Unit {0})
port = record {
  is_delivered = λ w job. any (λ j. text_eq j job) w;
  agreement = λ w did job. some (some tt);
  deliver = λ w job params. (job ∷ w, some (codes "ref"));
}

abbrev payer : Text
payer = codes "0x00112233445566778899aabbccddeeff00112233445566778899AABBCCDDEEFF"

abbrev payment : DemTransfer
payment = record { from = payer; amount = 120; memo = codes "DACS:j1" }

abbrev gift : DemTransfer
gift = record { from = payer; amount = 500; memo = codes "for you" }

abbrev new : WatcherState
new = record { handled = []; decisions = [] }

abbrev sale : WatchDecision
sale = delivered (codes "j1") payer 120 (codes "ref")

one_after_the_other :
    (watch port 100 (payment ∷ gift ∷ payment ∷ []) new []).0.decisions
    ≡ skipped_replay (codes "j1") ∷ parked none untagged ∷ sale ∷ []
unfolding watch on_transfer arrive look check_params settle job_id_from_memo did_from_demos_addr
one_after_the_other = refl

watch-OncePerJob_example :
    let ds = (watch port 100 (payment ∷ gift ∷ payment ∷ []) new []).0.decisions in
    (length ds ≡ 3) × All (IsPaid 100) ds × OncePerJob ds
watch-OncePerJob_example = watch-OncePerJob port 100 (payment ∷ gift ∷ payment ∷ []) []

-- Two payments that are both looked at before a delivery has ended are both delivered.
overlapping :
    (arrive payment new ≡ goes_on (codes "j1"))
    × (look port 100 (codes "j1") payment new [] ≡ goes_on tt)
    × ((settle port 100
          (codes "j1")
          payment
          (settle port 100 (codes "j1") payment new (some (codes "ref")))
          (some (codes "ref"))).decisions
        ≡ sale ∷ sale ∷ [])
unfolding arrive look check_params settle job_id_from_memo did_from_demos_addr
overlapping = (refl, refl, refl)
