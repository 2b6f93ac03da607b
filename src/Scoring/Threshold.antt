-- ===== src/Scoring/Threshold.antt =====
-- `ThresholdPolicy.decide`, and the veto at the end of `WonderScorer.score`
-- (backend/src/wandermind/cognitive/scoring.py).
pub mod Laws
use wander_mind.Prelude.{Bool, ◌&&◌, ◌||◌, ltb, leb, if◌then◌else◌}
use wander_mind.Float.{Float, f0_25, f0_45, f0_58, f0_85, f0_80, f0_75}
use wander_mind.Models.Enums.{ThresholdDecision}
use wander_mind.Models.Enums.ThresholdDecision.{reject, keep_candidate, deep_explore, surface}
use wander_mind.Models.Thought.{WonderScores}

pub record ThresholdPolicy : Type 0 where
  pub reject_below : Float
  pub explore_above : Float
  pub surface_above : Float

abbrev pub default_thresholds : ThresholdPolicy
default_thresholds = record { reject_below = f0_25; explore_above = f0_45; surface_above = f0_58 }

unfoldable pub decide : ThresholdPolicy → Float → ThresholdDecision
decide p score =
    if ltb score p.reject_below
    then reject
    else if leb p.surface_above score
    then surface
    else if leb p.explore_above score
    then deep_explore
    else keep_candidate

-- `redundancy >= 0.85 or arbitrariness >= 0.8 or hallucination_risk >= 0.75`
unfoldable pub has_penalty : WonderScores → Bool
has_penalty s =
    leb f0_85 s.redundancy || leb f0_80 s.arbitrariness || leb f0_75 s.hallucination_risk

abbrev is_surface : ThresholdDecision → Bool
is_surface surface = Bool.true
is_surface _ = Bool.false

-- The decision that `score` returns beside the scores.
unfoldable pub final_decision : ThresholdPolicy → WonderScores → ThresholdDecision
unfolding decide has_penalty
final_decision p s =
    let decision = decide p s.total in
    if is_surface decision && has_penalty s then deep_explore else decision
