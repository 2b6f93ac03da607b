-- ===== src/Wonders.antt =====
-- `WonderPromotionService` and `FeedbackService` of
-- backend/src/wandermind/application/wonder_service.py, over the in-memory repositories.
pub mod Earned
pub mod Judged
use wander_mind.Repositories.Bundle.{
  RepositoryBundle, Candidate_entity, Wonder_entity, Feedback_entity,
}
use wander_mind.Prelude.{
  ℕ, Text, text, Bool, true, false, Option, none, some, List, [], is_empty, min, ltb, leb, length,
  ◌&&◌, if◌then◌else◌,
}
use wander_mind.Float.{Float, FloatOps, f0_45, f1_0, f2_0}
use wander_mind.Exec.{Result, ok, err, Exec, pure, raise, gets, ◌>>=◌, ◌>>◌}
use wander_mind.Models.Enums.{CandidateStatus, WonderStatus, FeedbackAction}
use wander_mind.Models.Thought.{Candidate, Wonder, WonderScores}
use wander_mind.Models.Graph.{Feedback}
use wander_mind.Models.Evaluation.{ExplorerOutput, CriticVerdict, DeepEvaluationResult}
use wander_mind.Repositories.Store.{StoreError, key_error, validation_error, get, create, update}

abbrev pub Storing : Type 0 → Type 0
Storing A = Exec StoreError RepositoryBundle A

abbrev set_candidates :
    Result StoreError (List Candidate)
    → RepositoryBundle
    → Result StoreError (Unit {0}) × RepositoryBundle
set_candidates (ok candidates) s = (ok tt, record s { candidates = candidates })
set_candidates (err e) s = (err e, s)

abbrev set_wonders :
    Result StoreError (List Wonder)
    → RepositoryBundle
    → Result StoreError (Unit {0}) × RepositoryBundle
set_wonders (ok wonders) s = (ok tt, record s { wonders = wonders })
set_wonders (err e) s = (err e, s)

abbrev set_feedback :
    Result StoreError (List Feedback)
    → RepositoryBundle
    → Result StoreError (Unit {0}) × RepositoryBundle
set_feedback (ok feedback) s = (ok tt, record s { feedback = feedback })
set_feedback (err e) s = (err e, s)

unfoldable pub update_candidate : Candidate → Storing (Unit {0})
unfolding update
update_candidate candidate s = set_candidates (update candidate s.candidates) s

unfoldable pub create_wonder : Wonder → Storing (Unit {0})
unfolding create
create_wonder wonder s = set_wonders (create wonder s.wonders) s

unfoldable pub update_wonder : Wonder → Storing (Unit {0})
unfolding update
update_wonder wonder s = set_wonders (update wonder s.wonders) s

unfoldable pub create_feedback : Feedback → Storing (Unit {0})
unfolding create
create_feedback feedback s = set_feedback (create feedback s.feedback) s

-- `evaluation.critic.verdict is not CriticVerdict.PASS`, negated.
unfoldable pub is_pass : CriticVerdict → Bool
is_pass CriticVerdict.pass = true
is_pass _ = false

unfoldable pub expanded : Option ExplorerOutput → Text → Text
expanded none explanation = explanation
expanded (some explorer) explanation = explorer.expanded_idea

unfoldable pub follow_ups : Option ExplorerOutput → List Text
follow_ups none = []
follow_ups (some explorer) = explorer.follow_up_questions

unfoldable pub set_status : CandidateStatus → Candidate → Candidate
set_status status candidate = record candidate { status = status }

unfoldable pub reject_candidate : Candidate → Storing (Option Wonder)
unfolding set_status update_candidate
reject_candidate candidate = do
  update_candidate (set_status CandidateStatus.rejected candidate)
  pure none

unfoldable pub store_wonder : Wonder → Candidate → Storing (Option Wonder)
unfolding set_status create_wonder update_candidate
store_wonder wonder candidate = do
  create_wonder wonder
  update_candidate (set_status CandidateStatus.promoted candidate)
  pure (some wonder)

-- The bounds that `Wonder(...)` validates; that of the constant `why_interesting` holds.
unfoldable pub is_valid_wonder : Wonder → Bool
is_valid_wonder wonder =
    leb 1 (length wonder.statement)
    && leb (length wonder.statement) 10000
    && leb 1 (length wonder.explanation)
    && leb (length wonder.explanation) 30000
    && leb 1 (length wonder.source_items)
    && leb wonder.confidence f1_0

-- The constructor raises before anything is stored.
unfoldable pub store_valid : Wonder → Candidate → Storing (Option Wonder)
unfolding is_valid_wonder store_wonder
store_valid wonder candidate =
    if is_valid_wonder wonder then store_wonder wonder candidate else raise validation_error

module _ (ops : FloatOps) where
  unfoldable pub confidence_of : WonderScores → List ℕ → Float
  confidence_of scores source_refs =
      let confidence = ops.over (ops.add scores.coherence scores.evidence_potential) f2_0 in
      if is_empty source_refs then min confidence f0_45 else confidence

  -- The wonder that is made of a candidate, with its id and the time.
  unfoldable pub wonder_of : ℕ → ℕ → Candidate → WonderScores → DeepEvaluationResult → Wonder
  unfolding confidence_of expanded follow_ups
  wonder_of id now candidate scores evaluation = record {
    id = id;
    session_id = candidate.session_id;
    seed_id = candidate.seed_id;
    candidate_id = some candidate.id;
    wonder_type = candidate.candidate_type;
    statement = candidate.statement;
    explanation = expanded evaluation.explorer candidate.explanation;
    why_interesting =
        text "The candidate passed independent critique and the configured score threshold.";
    source_items = candidate.source_items;
    connection_path = candidate.wander_path;
    supporting_evidence = evaluation.evidence.supporting_evidence;
    counter_evidence = evaluation.evidence.counter_evidence;
    assumptions = [];
    questions = follow_ups evaluation.explorer;
    scores = scores;
    confidence = confidence_of scores evaluation.evidence.source_refs;
    status = WonderStatus.active;
    parent_wonder_id = none;
    runtime_review = none;
    promotion_basis = none;
    evaluation = some (record {
      source_refs = evaluation.evidence.source_refs;
      critic = evaluation.critic;
      evidence_status = evaluation.evidence.status;
    });
    original_statement = none;
    autopilot_promoted_knowledge_id = none;
    autopilot_quality_gate = none;
    autopilot_promotion_skipped = none;
    autopilot_promotion_retracted = false;
    autopilot_campaign_id = none;
    last_feedback = none;
    child_wonder_id = none;
    created_at = now;
  }

  abbrev pub promote_scored :
      Float
      → ℕ
      → ℕ
      → Candidate
      → DeepEvaluationResult
      → Option WonderScores
      → Storing (Option Wonder)
  unfolding is_pass wonder_of store_valid reject_candidate
  promote_scored threshold id now candidate evaluation none = pure none
  promote_scored threshold id now candidate evaluation (some scores) =
      if ltb scores.total threshold
      then pure none
      else (if is_pass evaluation.critic.verdict
          then store_valid (wonder_of id now candidate scores evaluation) candidate
          else reject_candidate candidate)

  -- `WonderPromotionService.promote`
  unfoldable pub promote :
      Float → ℕ → ℕ → Candidate → DeepEvaluationResult → Storing (Option Wonder)
  unfolding promote_scored
  promote threshold id now candidate evaluation =
      promote_scored threshold id now candidate evaluation candidate.scores

-- The status of a wonder after feedback; the other actions leave it.
unfoldable pub status_after : FeedbackAction → WonderStatus → WonderStatus
status_after FeedbackAction.save status = WonderStatus.saved
status_after FeedbackAction.save_for_later status = WonderStatus.saved
status_after FeedbackAction.not_interesting status = WonderStatus.dismissed
status_after FeedbackAction.already_knew status = WonderStatus.dismissed
status_after FeedbackAction.obvious status = WonderStatus.dismissed
status_after FeedbackAction.random status = WonderStatus.dismissed
status_after FeedbackAction.too_random status = WonderStatus.dismissed
status_after FeedbackAction.wrong status = WonderStatus.dismissed
status_after FeedbackAction.irrelevant status = WonderStatus.dismissed
status_after FeedbackAction.continue status = WonderStatus.incubating
status_after FeedbackAction.continue_explore status = WonderStatus.incubating
status_after FeedbackAction.inspired_new_idea status = WonderStatus.incubating
status_after _ status = status

unfoldable pub judged_wonder : FeedbackAction → Wonder → Wonder
unfolding status_after
judged_wonder action wonder = record wonder {
  status = status_after action wonder.status;
  last_feedback = some action;
}

abbrev pub submit_found : Feedback → Option Wonder → Storing Feedback
unfolding judged_wonder update_wonder create_feedback
submit_found feedback none = raise key_error
submit_found feedback (some wonder) = do
  update_wonder (judged_wonder feedback.action wonder)
  create_feedback feedback
  pure feedback

-- `FeedbackService.submit`
unfoldable pub submit : Feedback → Storing Feedback
unfolding submit_found get
submit feedback = do
  s ← gets (λ (s : RepositoryBundle). s)
  submit_found feedback (get feedback.wonder_id s.wonders)
