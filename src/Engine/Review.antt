-- ===== src/Engine/Review.antt =====
-- The body of the loop of `run` in backend/src/wandermind/cognitive/engine.py, from the score of a
-- candidate to the end of its independent review and revision.
use wander_mind.Prelude.{
  ℕ, Text, text, Bool, true, false, ◌&&◌, Option, none, some, List, [], ◌∷◌, ◌++◌, length,
  insert_new, is_empty, not, set_last, ltb, leb, if◌then◌else◌,
}
use wander_mind.Float.{f0_35, f0_60}
use wander_mind.Exec.{pure, gets, modify, ◌>>=◌, ◌>>◌}
use wander_mind.Models.Enums.{CandidateStatus, ThresholdDecision, Verdict}
use wander_mind.Models.Enums.CognitiveState.{score, explore, critique}
use wander_mind.Models.Thought.{
  KnowledgeItem, OperatorResult, Candidate, CandidateReviewResult, WonderScores, RuntimeRevision,
  skipped, reviewed,
}
use wander_mind.Models.Session.{evaluation_error, component_error}
use wander_mind.Engine.Components.{Components}
use wander_mind.Engine.State.{RunState, Run, candidate_row, attempt}
use wander_mind.Engine.Record.{no_fields, record_step, transition_to}
use wander_mind.Engine.Explore.{Found, spend_calls, save_calls}

-- A candidate with what its scoring gave.
pub record Judged : Type 0 where
  pub candidate : Candidate
  pub operator_result : OperatorResult
  pub scores : WonderScores
  pub decision : ThresholdDecision

-- `candidate.status` after a decision.
unfoldable pub status_of : ThresholdDecision → CandidateStatus
status_of ThresholdDecision.reject = CandidateStatus.rejected
status_of ThresholdDecision.keep_candidate = CandidateStatus.filtered
status_of _ = CandidateStatus.promising

-- `candidate.status` after a verdict.
unfoldable pub status_of_verdict : Verdict → CandidateStatus
status_of_verdict Verdict.reject = CandidateStatus.rejected
status_of_verdict Verdict.revise = CandidateStatus.filtered
status_of_verdict _ = CandidateStatus.explored

-- `decision in {ThresholdDecision.DEEP_EXPLORE, ThresholdDecision.SURFACE}`
unfoldable pub explores : ThresholdDecision → Bool
explores ThresholdDecision.deep_explore = true
explores ThresholdDecision.surface = true
explores _ = false

abbrev pub is_revise : Verdict → Bool
is_revise Verdict.revise = true
is_revise _ = false

abbrev verdict_text : Verdict → Text
verdict_text Verdict.pass = text "pass"
verdict_text Verdict.revise = text "revise"
verdict_text Verdict.reject = text "reject"
verdict_text Verdict.other = text "other"

-- `len(set(refs))`
unfoldable pub distinct : List ℕ → List ℕ → ℕ
distinct seen [] = length seen
distinct seen (r ∷ refs) = distinct (insert_new seen r) refs

-- The truth value of an optional string.
unfoldable pub is_given : Option Text → Bool
is_given none = false
is_given (some t) = not (is_empty t)

-- The list holds the object that was appended last, so a change of the candidate shows in it.
unfoldable pub set_candidate : Candidate → RunState → RunState
set_candidate candidate s = record s { candidates = set_last s.candidates candidate }

-- A change followed by `candidates.update(candidate)`.
unfoldable pub update_candidate : Candidate → RunState → RunState
update_candidate candidate s = record s {
  candidates = set_last s.candidates candidate;
  writes = candidate_row candidate ∷ s.writes;
}

unfoldable pub revision_ready : Option CandidateReviewResult → Bool
unfolding distinct is_given
revision_ready none = false
revision_ready (some review) =
    is_revise review.verdict
    && leb review.factual_risk f0_35
    && leb review.uncertainty f0_60
    && leb 2 (distinct [] review.supporting_source_refs)
    && is_given review.revised_statement
    && is_given review.expanded_idea

-- `value or fallback`
unfoldable pub given_or : Option Text → Text → Text
given_or none fallback = fallback
given_or (some t) fallback = if is_empty t then fallback else t

module _ (w : Components) where
  -- A score of the candidate, stored with its decision and the status that follows.
  unfoldable pub score_candidate : Found → Candidate → OperatorResult → Run Judged
  score_candidate found candidate operator_result = do
    s ← gets (λ s. s)
    scored ← attempt evaluation_error (λ t.
        w.score t candidate operator_result s.seed (found.left ∷ found.right ∷ [])
          found.association)
    let updated = record candidate {
      scores = some scored.0;
      threshold_decision = some scored.1;
      status = status_of scored.1;
    }
    modify (update_candidate updated)
    pure (record {
      candidate = updated;
      operator_result = operator_result;
      scores = scored.0;
      decision = scored.1;
    })

  -- The independent review: the state `explore`, the call, the verdict, the state `critique`.
  unfoldable pub review_with :
      (ℕ → Candidate → List KnowledgeItem → Option CandidateReviewResult)
      → Found
      → Judged
      → Run (Judged × Option CandidateReviewResult)
  review_with reviewer found j = do
    let step = record no_fields { candidate_ids = j.candidate.id ∷ [] }
    transition_to w explore "runtime_candidate_review"
        (text "an independent Agent Runtime reviewer checked evidence and weaknesses") step
    review ← attempt component_error (λ t. reviewer t j.candidate (found.left ∷ found.right ∷ []))
    modify (spend_calls review.runtime_calls)
    modify save_calls
    let updated = record (j.candidate) {
      status = status_of_verdict review.verdict;
      runtime_review = reviewed review;
    }
    modify (update_candidate updated)
    transition_to w critique "runtime_review_completed"
        (text "Agent Runtime critic verdict: " ++ verdict_text review.verdict) step
    pure (record j { candidate = updated }, some review)

  unfoldable pub skip_review : Judged → Run (Judged × Option CandidateReviewResult)
  skip_review j = do
    let updated = record (j.candidate) { runtime_review = skipped }
    modify (update_candidate updated)
    record_step w score "runtime_review_skipped"
        (text "runtime budget could not fund an independent candidate review")
        (record no_fields { candidate_ids = j.candidate.id ∷ [] })
    pure (record j { candidate = updated }, none)

  -- A review is due for a candidate worth exploring, and made if the budget has a call left.
  unfoldable pub review_candidate :
      Option (ℕ → Candidate → List KnowledgeItem → Option CandidateReviewResult)
      → Found
      → Judged
      → Run (Judged × Option CandidateReviewResult)
  unfolding review_with skip_review
  review_candidate none found j = pure (j, none)
  review_candidate (some reviewer) found j = do
    s ← gets (λ s. s)
    if explores j.decision
        then (if ltb s.runtime_calls_used s.session.budget.max_runtime_calls
            then review_with reviewer found j
            else skip_review j)
        else pure (j, none)

  unfoldable pub revision : Judged → Judged → RuntimeRevision
  revision j k = record {
    original_statement = j.candidate.statement;
    original_explanation = j.candidate.explanation;
    original_scores = j.scores;
    revised_scores = k.scores;
  }

  unfoldable pub revise_with : Found → Judged → CandidateReviewResult → Run Judged
  revise_with found j review = do
    let statement = given_or review.revised_statement j.candidate.statement
    let explanation = given_or review.expanded_idea j.candidate.explanation
    let revised_result = record (j.operator_result) {
      statement = statement;
      explanation = explanation;
    }
    let revised = record (j.candidate) { statement = statement; explanation = explanation }
    modify (set_candidate revised)
    k ← score_candidate found revised revised_result
    let updated = record (k.candidate) { runtime_revision = some (revision j k) }
    modify (update_candidate updated)
    pure (record k { candidate = updated })

  -- A ready revision replaces the text of the candidate, which is scored again.
  unfoldable pub revise_candidate : Found → Judged → Option CandidateReviewResult → Run Judged
  unfolding revise_with revision
  revise_candidate found j none = pure j
  revise_candidate found j (some review) =
      if revision_ready (some review) then revise_with found j review else pure j
