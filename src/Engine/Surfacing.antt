-- ===== src/Engine/Surfacing.antt =====
-- Whether the run of backend/src/wandermind/cognitive/engine.py promotes a scored candidate, and the
-- guard that it hit if not.
use wander_mind.Prelude.{
  Bool, true, false, ◌&&◌, ◌||◌, Option, none, some, [], is_some, not, ltb, leb, if◌then◌else◌,
}
use wander_mind.Float.{Float, f0_10, f0_40, f0_60, f0_75, f0_80, f0_85}
use wander_mind.Models.Enums.{
  ThresholdDecision, Verdict, GuardReason, candidate_convergence, arbitrariness_guard,
  hallucination_guard, novelty_exhausted,
}
use wander_mind.Models.Thought.{CandidateReviewResult, WonderScores}
use wander_mind.Engine.Review.{explores, distinct, revision_ready}

abbrev pub is_pass : Verdict → Bool
is_pass Verdict.pass = true
is_pass _ = false

abbrev is_surface : ThresholdDecision → Bool
is_surface ThresholdDecision.surface = true
is_surface _ = false

abbrev is_deep_explore : ThresholdDecision → Bool
is_deep_explore ThresholdDecision.deep_explore = true
is_deep_explore _ = false

unfoldable pub passes : CandidateReviewResult → Bool
unfolding distinct
passes review =
    is_pass review.verdict
    && leb review.factual_risk f0_40
    && leb review.uncertainty f0_60
    && leb 2 (distinct [] review.supporting_source_refs)

unfoldable pub review_repaired : Option CandidateReviewResult → ThresholdDecision → Bool
review_repaired review decision = revision_ready review && explores decision

-- `has_reviewer` is `self.candidate_reviewer is not None`.
unfoldable pub review_passed : Bool → Option CandidateReviewResult → ThresholdDecision → Bool
unfolding review_repaired passes
review_passed false review decision = true
review_passed true none decision = false
review_passed true (some review) decision = passes review || review_repaired (some review) decision

unfoldable pub review_assisted_surface :
    Bool → Option CandidateReviewResult → ThresholdDecision → Bool
unfolding review_passed
review_assisted_surface has_reviewer review decision =
    is_deep_explore decision
    && has_reviewer
    && is_some review
    && review_passed has_reviewer review decision

-- The condition of promotion. `framed` is `has_arbitrary_framing(seed.content)`.
unfoldable pub surfaces :
    Bool → Bool → Bool → WonderScores → ThresholdDecision → Option CandidateReviewResult → Bool
unfolding review_assisted_surface review_passed
surfaces has_reviewer verified framed scores decision review =
    let passed = review_passed has_reviewer review decision in
    (is_surface decision || review_assisted_surface has_reviewer review decision)
    && ltb scores.redundancy f0_85
    && (ltb scores.arbitrariness f0_80 || (verified && passed && not framed))
    && ltb scores.hallucination_risk f0_75
    && passed

unfoldable pub guard_reason : WonderScores → Float → Option GuardReason
guard_reason scores novelty_gain =
    if leb f0_85 scores.redundancy
    then some candidate_convergence
    else if leb f0_80 scores.arbitrariness
    then some arbitrariness_guard
    else if leb f0_75 scores.hallucination_risk
    then some hallucination_guard
    else if ltb novelty_gain f0_10
    then some novelty_exhausted
    else none
