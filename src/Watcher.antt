-- ===== src/Watcher.antt =====
-- roster/dacs/watcher.ts: the seller's watcher, which turns payments that come in into deliveries. A
-- transfer is handled in the parts between two waits, so that parts of several transfers may be
-- interleaved; reads of the substrate are taken to answer. The words of a reason are constructors.
pub mod Once
mod Tests
use dacs_agent_reference.Common.{
  ℕ, Bool, true, false, ◌&&◌, ◌||◌, ◌+◌, Option, none, some, List, [], ◌∷◌, ◌++◌, map, any, every,
  length, leb, ltb, ◌==◌, if◌then◌else◌,
}
use dacs_agent_reference.Common.Codes.{Text, codes, text_eq}

pub record DemTransfer : Type 0 where
  pub from : Text
  pub amount : ℕ
  pub memo : Text

-- what `startsWith` and `slice` leave of a text behind a prefix
abbrev pub behind : Text → Text → Option Text
behind [] s = some s
behind (c ∷ p) [] = none
behind (c ∷ p) (d ∷ s) = if c == d then behind p s else none

-- `none` is `null` or the empty job id, which the watcher treats alike
unfoldable pub job_id_from_memo : Text → Option Text
job_id_from_memo memo = elim (behind (codes "DACS:") memo) [
  | none ↦ none
  | some job ↦ elim job [ [] ↦ none | ◌∷◌ c rest ↦ some (c ∷ rest) ]
]

abbrev pub is_hex : ℕ → Bool
is_hex c = (leb b'0' c && leb c b'9') || (leb b'a' c && leb c b'f') || (leb b'A' c && leb c b'F')

abbrev pub lower : ℕ → ℕ
lower c = if leb b'A' c && leb c b'Z' then c + 32 else c

-- `/^0x([0-9a-fA-F]{64})$/`
unfoldable pub did_from_demos_addr : Text → Option Text
did_from_demos_addr addr = elim (behind (codes "0x") addr) [
  | none ↦ none
  | some hex ↦
      if length hex == 64 && every is_hex hex
      then some (codes "did:demos:agent:" ++ map lower hex)
      else none
]

-- The substrate and the seller's adapter, over the world's state; `P` are a job's params.
pub record DealPort (W P : Type 0) : Type 0 where
  -- a delivery of the job is anchored
  pub is_delivered : W → Text → Bool
  -- the buyer's agreement on the job, and its params
  pub agreement : W → Text → Text → Option (Option P)
  -- the reference of the delivery; `none` is an error that it throws
  pub deliver : W → Text → P → W × Option Text

pub data ParkReason : Type 0 where
  untagged no_did no_agreement no_params underpaid failed : ParkReason

pub data WatchDecision : Type 0 where
  delivered : Text → Text → ℕ → Text → WatchDecision
  skipped_replay : Text → WatchDecision
  parked : Option Text → ParkReason → WatchDecision

-- The decisions are the newest first.
pub record WatcherState : Type 0 where
  pub handled : List Text
  pub decisions : List WatchDecision

abbrev pub is_handled : WatcherState → Text → Bool
is_handled s job = any (λ h. text_eq h job) s.handled

abbrev pub log : WatcherState → WatchDecision → WatcherState
log s d = record s { decisions = d ∷ s.decisions }

abbrev pub handle : WatcherState → Text → WatcherState
handle s job = record s { handled = job ∷ s.handled }

-- How a part ends: the transfer is decided, or it goes on after a wait.
pub data Part (A : Type 0) : Type 0 where
  decided : WatcherState → Part A
  goes_on : A → Part A

-- up to the first wait
unfoldable pub arrive : DemTransfer → WatcherState → Part Text
arrive t s = elim (job_id_from_memo t.memo) [
  | none ↦ decided (log s (parked none untagged))
  | some job ↦ if is_handled s job then decided (log s (skipped_replay job)) else goes_on job
]

module _ {W P : Type 0} (port : DealPort W P) (listing_price : ℕ) where
  unfoldable pub check_params : Text → DemTransfer → WatcherState → Option (Option P) → Part P
  check_params job t s none = decided (log s (parked (some job) no_agreement))
  check_params job t s (some none) = decided (log s (parked (some job) no_params))
  check_params job t s (some (some params)) =
      if ltb t.amount listing_price
      then decided (log s (parked (some job) underpaid))
      else goes_on params

  -- the reads, up to the delivery
  unfoldable pub look : Text → DemTransfer → WatcherState → W → Part P
  look job t s w =
      if port.is_delivered w job
      then decided (log (handle s job) (skipped_replay job))
      else elim (did_from_demos_addr t.from) [
        | none ↦ decided (log s (parked (some job) no_did))
        | some did ↦ check_params job t s (port.agreement w did job)
      ]

  -- the delivery has ended
  unfoldable pub settle : Text → DemTransfer → WatcherState → Option Text → WatcherState
  settle job t s none = log s (parked (some job) failed)
  settle job t s (some ref) = log (handle s job) (delivered job t.from t.amount ref)

  abbrev pub after_look : Text → DemTransfer → WatcherState → W → Part P → WatcherState × W
  after_look job t s w (decided s') = (s', w)
  after_look job t s w (goes_on params) =
      let (w', ref) = port.deliver w job params in (settle job t s ref, w')

  abbrev pub after_arrive : DemTransfer → WatcherState → W → Part Text → WatcherState × W
  after_arrive t s w (decided s') = (s', w)
  after_arrive t s w (goes_on job) = after_look job t s w (look job t s w)

  -- `onTransfer`, where no other transfer comes between its parts
  unfoldable pub on_transfer : DemTransfer → WatcherState → W → WatcherState × W
  on_transfer t s w = after_arrive t s w (arrive t s)

  -- transfers one after the other
  unfoldable pub watch : List DemTransfer → WatcherState → W → WatcherState × W
  watch [] s w = (s, w)
  watch (t ∷ ts) s w = let (s', w') = on_transfer t s w in watch ts s' w'
