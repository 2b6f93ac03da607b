-- ===== src/Engine/Promote.antt =====
-- The end of the loop body of `run` in backend/src/wandermind/cognitive/engine.py: the wonder that a
-- candidate becomes, or the guard that it hit.
pub mod Gate
use wander_mind.Prelude.{
  ℕ, ◌+◌, Text, text, Bool, false, ◌&&◌, ◌||◌, Option, none, some, List, [], ◌∷◌, ◌++◌, length,
  is_some, leb, if◌then◌else◌,
}
use wander_mind.Float.{Float, f1_0, f2_0, f3_0}
use wander_mind.Exec.{pure, gets, modify, ◌>>=◌, ◌>>◌}
use wander_mind.Models.Enums.{
  CandidateStatus, ThresholdDecision, WonderStatus, PromotionBasis, runtime_revision,
  runtime_review, score_threshold, GuardReason, patch_switch_budget, candidate_convergence,
  arbitrariness_guard, hallucination_guard, novelty_exhausted,
}
use wander_mind.Models.Enums.CognitiveState.{wander, persist, surface}
use wander_mind.Models.Thought.{
  Candidate, CandidateReviewResult, RuntimeRevision, Wonder, WonderScores,
}
use wander_mind.Models.Quality.{ReviewMetadata}
use wander_mind.Models.Session.{
  high_value_found, target_wonders_reached, no_improvement_patience_exhausted,
}
use wander_mind.Scoring.Markers.{has_arbitrary_framing}
use wander_mind.Engine.Components.{Components}
use wander_mind.Engine.State.{RunState, Run, wonder_row, ask}
use wander_mind.Engine.Record.{no_fields, transition_to}
use wander_mind.Engine.Admit.{Outcome, again, leave, break_loop, complete_now, bump}
use wander_mind.Engine.Review.{Judged, given_or, update_candidate}
use wander_mind.Engine.Surfacing.{review_repaired, review_assisted_surface, surfaces, guard_reason}

-- `any("\u4e00" <= character <= "\u9fff" for character in statement)`
unfoldable pub has_cjk : Text → Bool
has_cjk [] = false
has_cjk (c ∷ cs) = (leb 0x4e00 c && leb c 0x9fff) || has_cjk cs

unfoldable pub why_interesting : Text → Text
unfolding has_cjk
why_interesting statement =
    if has_cjk statement
    then text "它在保持不确定性的同时建立了可解释、可验证的跨领域连接。"
    else text
        "It forms an explainable, testable cross-domain connection while preserving uncertainty."

unfoldable pub basis : Bool → Option CandidateReviewResult → ThresholdDecision → PromotionBasis
unfolding review_repaired review_assisted_surface
basis has_reviewer review decision =
    if review_repaired review decision
    then runtime_revision
    else if review_assisted_surface has_reviewer review decision
    then runtime_review
    else score_threshold

abbrev basis_text : PromotionBasis → Text
basis_text runtime_revision = text "candidate was repaired into a low-risk testable hypothesis"
basis_text runtime_review = text "candidate passed independent review after deep exploration"
basis_text score_threshold = text "candidate passed the configured surface threshold"

abbrev guard_text : GuardReason → Text
guard_text patch_switch_budget = text "patch_switch_budget"
guard_text candidate_convergence = text "candidate_convergence"
guard_text arbitrariness_guard = text "arbitrariness_guard"
guard_text hallucination_guard = text "hallucination_guard"
guard_text novelty_exhausted = text "novelty_exhausted"

abbrev decision_text : ThresholdDecision → Text
decision_text ThresholdDecision.reject = text "reject"
decision_text ThresholdDecision.keep_candidate = text "keep_candidate"
decision_text ThresholdDecision.deep_explore = text "deep_explore"
decision_text ThresholdDecision.surface = text "surface"

abbrev short_reason : Option GuardReason → ThresholdDecision → Text
short_reason none decision = text "candidate decision was " ++ decision_text decision
short_reason (some g) decision =
    text "candidate hit " ++ guard_text g ++ text "; trying a different knowledge pair"

abbrev evidence : (CandidateReviewResult → List Text) → Option CandidateReviewResult → List Text
evidence f none = []
evidence f (some review) = f review

abbrev original_of : PromotionBasis → Option RuntimeRevision → Option Text
original_of runtime_revision (some r) = some r.original_statement
original_of _ _ = none

unfoldable pub explanation_of : Option CandidateReviewResult → Text → Text
unfolding given_or
explanation_of none explanation = explanation
explanation_of (some review) explanation = given_or review.expanded_idea explanation

-- `stagnant_candidates = n`, in the local and in the metadata.
unfoldable pub set_stagnant : ℕ → RunState → RunState
set_stagnant n s = record s {
  stagnant_candidates = n;
  session = record (s.session) {
    metadata = record (s.session.metadata) { stagnant_candidates = n };
  };
}

unfoldable pub add_wonder : Wonder → RunState → RunState
add_wonder wonder s = record s {
  wonders = s.wonders ++ wonder ∷ [];
  session = record (s.session) {
    trace = record (s.session.trace) {
      final_wonder_ids = s.session.trace.final_wonder_ids ++ wonder.id ∷ [];
    };
  };
}

-- `review.model_dump(mode="json") if review else None`
unfoldable pub dumped : Option CandidateReviewResult → Option ReviewMetadata
dumped none = none
dumped (some r) = some (record {
  verdict = r.verdict;
  uncertainty = some r.uncertainty;
  factual_risk = some r.factual_risk;
  supporting_source_refs = some r.supporting_source_refs;
  revised_statement = r.revised_statement;
  expanded_idea = r.expanded_idea;
})

unfoldable pub store_wonder : Wonder → RunState → RunState
store_wonder wonder s = record s { writes = wonder_row wonder ∷ s.writes }

unfoldable pub hit_guard : Option GuardReason → Candidate → RunState → RunState
unfolding update_candidate
hit_guard none candidate s = s
hit_guard (some g) candidate s =
    update_candidate (record candidate { quality_guard = some g })
      (record s { quality_guards = bump g s.quality_guards })

module _ (w : Components) where
  unfoldable pub confidence : WonderScores → Option CandidateReviewResult → Float
  confidence scores none = w.ops.over (w.ops.add scores.coherence scores.evidence_potential) f2_0
  confidence scores (some review) =
      w.ops.over
        (w.ops.add (w.ops.add scores.coherence scores.evidence_potential)
          (w.ops.minus f1_0 review.uncertainty))
        f3_0

  unfoldable pub new_wonder : Judged → Option CandidateReviewResult → ℕ → ℕ → RunState → Wonder
  unfolding basis why_interesting explanation_of confidence
  new_wonder j review id now s = record {
    id = id;
    session_id = s.session.id;
    seed_id = s.seed.id;
    candidate_id = some j.candidate.id;
    wonder_type = j.candidate.candidate_type;
    statement = j.candidate.statement;
    explanation = explanation_of review j.candidate.explanation;
    why_interesting = why_interesting j.candidate.statement;
    source_items = j.candidate.source_items;
    connection_path = j.candidate.wander_path;
    supporting_evidence = evidence (λ r. r.supporting_evidence) review;
    counter_evidence = evidence (λ r. r.counter_evidence) review;
    assumptions = j.operator_result.assumptions;
    questions = j.operator_result.questions;
    scores = j.scores;
    confidence = confidence j.scores review;
    status = WonderStatus.active;
    parent_wonder_id = none;
    runtime_review = dumped review;
    promotion_basis = some (basis (is_some w.candidate_reviewer) review j.decision);
    evaluation = none;
    original_statement =
        original_of (basis (is_some w.candidate_reviewer) review j.decision)
          j.candidate.runtime_revision;
    autopilot_promoted_knowledge_id = none;
    autopilot_quality_gate = none;
    autopilot_promotion_skipped = none;
    autopilot_promotion_retracted = false;
    autopilot_campaign_id = none;
    last_feedback = none;
    child_wonder_id = none;
    created_at = now;
  }

  unfoldable pub continue_after_surface : Run Outcome
  continue_after_surface = do
    transition_to w wander "continue_after_surface"
        (text "depth target requires comparing more independently reviewed candidates") no_fields
    pure again

  -- What follows a surfaced wonder: the end of the run, or another round.
  unfoldable pub after_surface : Run Outcome
  unfolding continue_after_surface
  after_surface = do
    s ← gets (λ s. s)
    let reached_depth_target =
        leb s.session.budget.min_candidates (length s.candidates)
        && leb s.session.budget.target_wonders (length s.wonders)
    if s.session.budget.stop_on_first_wonder
        then pure (leave (complete_now high_value_found))
        else (if reached_depth_target
            then pure (leave (complete_now target_wonders_reached))
            else continue_after_surface)

  unfoldable pub promote : Judged → Option CandidateReviewResult → Run Outcome
  promote j review = do
    let ids = j.candidate.id ∷ []
    transition_to w persist "promote_candidate"
        (basis_text (basis (is_some w.candidate_reviewer) review j.decision))
        (record no_fields { candidate_ids = ids })
    id ← ask w.uuid4
    now ← ask w.now
    s ← gets (λ s. s)
    let wonder = new_wonder j review id now s
    modify (store_wonder wonder)
    modify (update_candidate (record (j.candidate) { status = CandidateStatus.promoted }))
    modify (add_wonder wonder)
    transition_to w surface "surface_wonder" wonder.statement
        (record no_fields { item_ids = wonder.source_items; candidate_ids = ids })
    modify (set_stagnant 0)
    after_surface

  -- A candidate that is not promoted counts towards the patience of the run.
  unfoldable pub fall_short : Judged → Float → Run Outcome
  fall_short j novelty_gain = do
    modify (hit_guard (guard_reason j.scores novelty_gain) j.candidate)
    modify (λ s. set_stagnant (s.stagnant_candidates + 1) s)
    transition_to w wander "continue_wandering"
        (short_reason (guard_reason j.scores novelty_gain) j.decision) no_fields
    s ← gets (λ s. s)
    let out_of_patience =
        leb s.session.budget.min_candidates (length s.candidates)
        && leb s.session.budget.max_stagnant_candidates s.stagnant_candidates
    pure (if out_of_patience then leave (break_loop no_improvement_patience_exhausted) else again)

  unfoldable pub conclude : Judged → Bool → Option CandidateReviewResult → Float → Run Outcome
  conclude j verified review novelty_gain = do
    s ← gets (λ s. s)
    if surfaces (is_some w.candidate_reviewer) verified
          (has_arbitrary_framing w.casefold s.seed.content) j.scores j.decision review
        then promote j review
        else fall_short j novelty_gain
