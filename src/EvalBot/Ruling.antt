-- ===== src/EvalBot/Ruling.antt =====
-- roster/evalbot/verdict.ts and ruling.ts, with the types of types.ts. Scores, weights, aggregates and
-- thresholds count hundredths, the precision that `round2` keeps, and their arithmetic is exact.
-- Hashing and signatures are a parameter.
pub mod Fair
use dacs_agent_reference.Common.{
  ℕ, ◌+◌, ◌-◌, ◌*◌, ◌/◌, String, Bool, true, false, not, ◌&&◌, ◌||◌, Option, none, some, List, [],
  ◌∷◌, any, every, ltb, leb, ◌==◌, if◌then◌else◌, str_eq, is_some,
}

pub data CriterionKind : Type 0 where
  mechanical subjective : CriterionKind

pub record CriterionResult : Type 0 where
  pub criterion_id : String
  pub kind : CriterionKind
  pub weight : ℕ
  pub scored : Bool
  pub score : Option ℕ
  pub reason : String

pub data Verdict : Type 0 where
  accept reject indeterminate : Verdict

pub data RulingMode : Type 0 where
  full rubric_only : RulingMode

-- What a rubric says of the verdict.
pub record Rubric : Type 0 where
  pub accept_threshold : ℕ
  pub indeterminate_band : Option ℕ

pub record UnsignedRuling : Type 0 where
  pub job_id : String
  pub evaluator_did : String
  pub evaluator_public_key : String
  pub verdict : Verdict
  pub aggregate : Option ℕ
  pub per_criterion : List CriterionResult
  pub mode : RulingMode
  pub issued_at : String

pub record EvaluationRuling : Type 0 where
  pub unsigned : UnsignedRuling
  pub ruling_hash : String
  pub signature : String

pub record AggregationResult : Type 0 where
  pub aggregate : Option ℕ
  pub total_weight : ℕ
  pub scored_weight : ℕ

-- The sums of the loop in `aggregateScores`.
pub record Sums : Type 0 where
  pub total_weight : ℕ
  pub scored_weight : ℕ
  pub weighted_sum : ℕ

abbrev pub add_score : ℕ → Bool → Option ℕ → Sums → Sums
add_score weight true (some score) s = record {
  total_weight = weight + s.total_weight;
  scored_weight = weight + s.scored_weight;
  weighted_sum = score * weight + s.weighted_sum;
}
add_score weight _ _ s = record s { total_weight = weight + s.total_weight }

unfoldable pub sum_scores : List CriterionResult → Sums
sum_scores [] = record { total_weight = 0; scored_weight = 0; weighted_sum = 0 }
sum_scores (r ∷ rest) = add_score r.weight r.scored r.score (sum_scores rest)

-- `round2` of a quotient, half up
abbrev pub rounded : ℕ → ℕ → ℕ
rounded sum weight = (2 * sum + weight) / (2 * weight)

unfoldable pub aggregate_scores : List CriterionResult → AggregationResult
aggregate_scores results =
    let s = sum_scores results in
    record {
      aggregate =
          if ltb 0 s.scored_weight then some (rounded s.weighted_sum s.scored_weight) else none;
      total_weight = s.total_weight;
      scored_weight = s.scored_weight;
    }

-- too little was scored: `unscored > total / 2`
unfoldable pub is_undecided : AggregationResult → Bool
is_undecided agg =
    not (is_some agg.aggregate) || ltb agg.total_weight (2 * (agg.total_weight - agg.scored_weight))

abbrev pub distance : ℕ → ℕ → ℕ
distance a b = (a - b) + (b - a)

abbrev pub band_of : Option ℕ → ℕ
band_of none = 0
band_of (some band) = band

-- The verdict on an aggregate that is there.
abbrev pub verdict_on : Option ℕ → Rubric → Verdict
verdict_on none rubric = indeterminate
verdict_on (some a) rubric =
    if ltb 0 (band_of rubric.indeterminate_band)
      && leb (distance a rubric.accept_threshold) (band_of rubric.indeterminate_band)
    then indeterminate
    else if leb rubric.accept_threshold a
    then accept
    else reject

unfoldable pub decide_verdict : AggregationResult → Rubric → Verdict
decide_verdict agg rubric =
    if is_undecided agg then indeterminate else verdict_on agg.aggregate rubric

abbrev pub verdict_eq : Verdict → Verdict → Bool
verdict_eq accept accept = true
verdict_eq reject reject = true
verdict_eq indeterminate indeterminate = true
verdict_eq _ _ = false

abbrev pub mode_eq : RulingMode → RulingMode → Bool
mode_eq full full = true
mode_eq rubric_only rubric_only = true
mode_eq _ _ = false

abbrev pub aggregate_eq : Option ℕ → Option ℕ → Bool
aggregate_eq none none = true
aggregate_eq (some a) (some b) = a == b
aggregate_eq _ _ = false

-- The bounds of a criterion's score, and that an unscored one carries none.
abbrev pub score_ok : Bool → Option ℕ → Bool
score_ok true (some s) = leb s 10000
score_ok true none = false
score_ok false (some s) = false
score_ok false none = true

unfoldable pub criterion_ok : CriterionResult → Bool
criterion_ok c = ltb 0 c.weight && score_ok c.scored c.score

abbrev pub left_unscored : CriterionKind → Bool → Bool
left_unscored mechanical scored = false
left_unscored subjective scored = not scored

unfoldable pub mode_of : List CriterionResult → RulingMode
mode_of results = if any (λ c. left_unscored c.kind c.scored) results then rubric_only else full

abbrev pub rubric_ok : Verdict → AggregationResult → Option Rubric → Bool
rubric_ok v agg none = true
rubric_ok v agg (some rubric) = verdict_eq v (decide_verdict agg rubric)

-- `verifyRulingConsistency`, without the reason that it gives
unfoldable pub is_consistent : UnsignedRuling → Option Rubric → Bool
is_consistent ruling rubric =
    let agg = aggregate_scores ruling.per_criterion in
    every criterion_ok ruling.per_criterion
    && (aggregate_eq agg.aggregate ruling.aggregate
        && (mode_eq ruling.mode (mode_of ruling.per_criterion)
            && ((not (is_undecided agg) || verdict_eq ruling.verdict indeterminate)
                && rubric_ok ruling.verdict agg rubric)))

-- SHA-256 of canonical JSON and ed25519. `verifies key hash signature` is false where the
-- verification throws.
pub record Crypto : Type 0 where
  pub ruling_hash : UnsignedRuling → String
  pub verifies : String → String → String → Bool

-- A signer: its key, and `signHash`.
pub record RulingSigner : Type 0 where
  pub public_key : String
  pub sign_hash : String → String

module _ (crypto : Crypto) where
  -- `signRuling`; `none` is the error that it throws
  unfoldable pub sign_ruling : UnsignedRuling → RulingSigner → Option EvaluationRuling
  sign_ruling unsigned signer =
      if str_eq unsigned.evaluator_public_key signer.public_key
      then some (record {
        unsigned = unsigned;
        ruling_hash = crypto.ruling_hash unsigned;
        signature = signer.sign_hash (crypto.ruling_hash unsigned);
      })
      else none

  -- whether `verifyRuling` finds a ruling valid
  unfoldable pub verify_ruling : EvaluationRuling → String → Option Rubric → Bool
  verify_ruling r key rubric =
      str_eq r.ruling_hash (crypto.ruling_hash r.unsigned)
      && (crypto.verifies key r.ruling_hash r.signature && is_consistent r.unsigned rubric)
