-- ===== src/Runtimes/Review.antt =====
-- `RuntimeCandidateReviewer` of backend/src/wandermind/application/candidate_runtime_service.py, over the
-- tracked runtime. The prompts' texts and the validation of a JSON answer against its model are
-- parameters.
use wander_mind.Prelude.{ℕ, Text, text, none, some, List, [], ◌∷◌, ◌++◌, map, ltb, if◌then◌else◌}
use wander_mind.Float.{f0_0, f1_0}
use wander_mind.Exec.{pure, ◌>>=◌}
use wander_mind.Models.Enums.{Verdict}
use wander_mind.Models.Thought.{Candidate, KnowledgeItem, CandidateReviewResult}
use wander_mind.Quality.{distinct_ids}
use wander_mind.Runtimes.{
  RuntimeException, validation_error, RuntimeTask, session_uuid, run_with_retry,
}
use wander_mind.Runtimes.Tracked.{Tracked, error_name, run_task}
use wander_mind.Runtimes.Sessions.{is_answer_error, except, with_session, validated}
use wander_mind.Runtimes.Sanitize.{
  ReviewEvidenceClaim, Reviewing, Sanitized, sanitize_review, with_room,
}

module _ (w : Reviewing) where
  -- A result that rejects, with the defaults of the model.
  unfoldable pub rejection : Text → ℕ → CandidateReviewResult
  rejection weakness runtime_calls = record {
    revised_statement = none;
    expanded_idea = none;
    supporting_evidence = [];
    counter_evidence = [];
    supporting_source_refs = [];
    counter_source_refs = [];
    source_refs = [];
    uncertainty = f1_0;
    weaknesses = weakness ∷ [];
    obviousness = f0_0;
    factual_risk = f1_0;
    alternative_explanations = [];
    verdict = Verdict.reject;
    runtime_calls = runtime_calls;
  }

  unfoldable pub failed_review : RuntimeException → CandidateReviewResult
  unfolding rejection error_name
  failed_review error = rejection (text "Agent Runtime review failed: " ++ error_name error) 1

  unfoldable pub reviewed_result : Sanitized → CandidateReviewResult
  unfolding distinct_ids
  reviewed_result r = record {
    revised_statement = r.output.revised_statement;
    expanded_idea = some r.output.expanded_idea;
    supporting_evidence = map (λ (c : ReviewEvidenceClaim). c.claim) r.output.supporting_evidence;
    counter_evidence = map (λ (c : ReviewEvidenceClaim). c.claim) r.output.counter_evidence;
    supporting_source_refs = r.supporting_refs;
    counter_source_refs = r.counter_refs;
    source_refs = distinct_ids [] (r.supporting_refs ++ r.counter_refs);
    uncertainty = r.output.uncertainty;
    weaknesses = r.output.weaknesses;
    obviousness = r.output.obviousness;
    factual_risk = r.output.factual_risk;
    alternative_explanations = r.output.alternative_explanations;
    verdict = r.output.verdict;
    runtime_calls = 1;
  }

  unfoldable pub review_task : Candidate → List KnowledgeItem → RuntimeTask
  review_task candidate context = record {
    prompt = w.review_prompt candidate context;
    wander_session_id = some (session_uuid candidate.session_id);
  }

  unfoldable pub ask_review : ℕ → Candidate → List KnowledgeItem → Tracked CandidateReviewResult
  unfolding review_task run_task sanitize_review with_room reviewed_result validated run_with_retry
  ask_review max_retries candidate context = do
    result ← run_with_retry (run_task w.adapter (review_task candidate context)) max_retries
    output ← λ s. (validated validation_error (w.validate_review result.structured), s)
    sanitized ← λ s. (validated validation_error (with_room (sanitize_review w output context)), s)
    pure (reviewed_result sanitized)

  -- `RuntimeCandidateReviewer.review`
  unfoldable pub review : ℕ → Candidate → List KnowledgeItem → ℕ → Tracked CandidateReviewResult
  unfolding rejection failed_review with_session except is_answer_error ask_review
  review max_retries candidate context max_runtime_calls =
      if ltb max_runtime_calls 1
      then pure (rejection (text "Runtime budget did not permit candidate review.") 0)
      else with_session w.adapter "candidate_review" failed_review
          (except is_answer_error failed_review (ask_review max_retries candidate context))
