-- ===== src/DeepEvaluation/Services.antt =====
-- `ExplorerService`, `EvidenceService`, `CriticService` and `DeepEvaluationService` of
-- backend/src/wandermind/application/explore_service.py.
use wander_mind.Prelude.{
  ℕ, ◌+◌, Text, text, Bool, false, ◌&&◌, Option, none, some, ◌⊎◌, inl, inr, List, [], ◌∷◌, ltb,
  if◌then◌else◌,
}
use wander_mind.Float.{f0_0, f1_0}
use wander_mind.Exec.{pure, ◌>>=◌}
use wander_mind.Models.Thought.{Candidate, KnowledgeItem}
use wander_mind.Models.Evaluation.{
  EvaluationStatus, ExplorerOutput, EvidenceOutput, CriticVerdict, CriticOutput,
  DeepEvaluationResult,
}
use wander_mind.Runtimes.{
  RuntimeErrorBase, RuntimeException, runtime_error, validation_error, RuntimeTask, run_with_retry,
}
use wander_mind.Runtimes.Tracked.{Tracked, error_name, run_task}
use wander_mind.Runtimes.Sessions.{is_runtime_error, is_answer_error, except, in_session, validated}
use wander_mind.DeepEvaluation.{Evaluating, sanitize_evidence}
use wander_mind.DeepEvaluation.Prompts.{
  explorer_task, evidence_task, critic_task, critic_unavailable,
}

-- `EvidenceOutput(uncertainty=1.0, status=FAILED, error=...)`
unfoldable pub no_evidence : Text → EvidenceOutput
no_evidence error = record {
  supporting_evidence = [];
  counter_evidence = [];
  source_refs = [];
  uncertainty = f1_0;
  status = EvaluationStatus.failed;
  error = some error;
}

-- `CriticOutput(weakness=[...], factual_risk=1.0, verdict=REJECT)`
unfoldable pub no_critique : Text → CriticOutput
no_critique weakness = record {
  weakness = weakness ∷ [];
  obviousness = f0_0;
  over_analogy = false;
  factual_risk = f1_0;
  alternative_explanation = [];
  verdict = CriticVerdict.reject;
}

-- What the `try` of `collect` leaves: the answer of its handler, or evidence that is to be sanitized.
unfoldable pub collected : List KnowledgeItem → EvidenceOutput ⊎ EvidenceOutput → EvidenceOutput
unfolding sanitize_evidence
collected context (inl failed) = failed
collected context (inr evidence) = sanitize_evidence evidence context

module _ (w : Evaluating) where
  -- The task with its retries, and the validation of the answer.
  unfoldable pub ask :
      {A : Type 0} → ℕ → RuntimeTask → (Text → Option A) → RuntimeException → Tracked A
  unfolding run_with_retry run_task validated
  ask max_retries task validate error = do
    result ← run_with_retry (run_task w.adapter task) max_retries
    λ s. (validated error (validate result.structured), s)

  -- `ExplorerService.explore`
  unfoldable pub explore : Candidate → List KnowledgeItem → Tracked ExplorerOutput
  unfolding in_session ask explorer_task
  explore candidate context = in_session w.adapter "explorer" (
      ask w.explorer_retries (explorer_task w candidate context) w.validate_explorer
        (runtime_error RuntimeErrorBase.malformed_output))

  unfoldable pub ask_evidence :
      Candidate → List KnowledgeItem → Tracked (EvidenceOutput ⊎ EvidenceOutput)
  unfolding ask evidence_task
  ask_evidence candidate context = do
    evidence ←
        ask w.evidence_retries (evidence_task w candidate context) w.validate_evidence
          validation_error
    pure (inr evidence)

  -- `EvidenceService.collect`
  unfoldable pub collect : Candidate → List KnowledgeItem → Tracked EvidenceOutput
  unfolding in_session except is_answer_error no_evidence error_name ask_evidence collected
  collect candidate context = do
    r ← in_session w.adapter "evidence" (
        except is_answer_error (λ e. inl (no_evidence (error_name e)))
          (ask_evidence candidate context))
    pure (collected context r)

  -- `CriticService.critique`
  unfoldable pub critique : Candidate → EvidenceOutput → Tracked CriticOutput
  unfolding in_session except is_answer_error no_critique critic_unavailable ask critic_task
  critique candidate evidence = in_session w.adapter "critic" (
      except is_answer_error (λ e. no_critique (critic_unavailable candidate))
        (ask w.critic_retries (critic_task w candidate evidence) w.validate_critic
          validation_error))

  unfoldable pub explore_some : Candidate → List KnowledgeItem → Tracked (Option ExplorerOutput)
  unfolding explore
  explore_some candidate context = do output ← explore candidate context; pure (some output)

  -- Under `suppress(RuntimeErrorBase)`.
  unfoldable pub explore_if :
      Bool → Candidate → List KnowledgeItem → Tracked (Option ExplorerOutput)
  unfolding except is_runtime_error explore_some
  explore_if wanted candidate context =
      if wanted
      then except is_runtime_error (λ e. none) (explore_some candidate context)
      else pure none

  unfoldable pub collect_if : Bool → Candidate → List KnowledgeItem → Tracked EvidenceOutput
  unfolding collect no_evidence
  collect_if affordable candidate context =
      if affordable
      then collect candidate context
      else pure (no_evidence (text "runtime_budget_exhausted"))

  unfoldable pub critique_if : Bool → Candidate → EvidenceOutput → Tracked CriticOutput
  unfolding critique no_critique
  critique_if affordable candidate evidence =
      if affordable
      then critique candidate evidence
      else pure (no_critique (text "Runtime budget did not permit an independent critic."))

  -- `DeepEvaluationService.evaluate`; a negative number of calls is as 0.
  unfoldable pub evaluate : Candidate → List KnowledgeItem → ℕ → Bool → Tracked DeepEvaluationResult
  unfolding explore_if collect_if critique_if
  evaluate candidate context max_runtime_calls include_explorer = do
    let explored = include_explorer && ltb 0 max_runtime_calls
    explorer ← explore_if explored candidate context
    let calls_used = if explored then 1 else 0
    let affordable = ltb calls_used max_runtime_calls
    evidence ← collect_if affordable candidate context
    let calls_used = if affordable then calls_used + 1 else calls_used
    critic ← critique_if (ltb calls_used max_runtime_calls) candidate evidence
    pure (record { explorer = explorer; evidence = evidence; critic = critic })
