-- ===== src/Tests/Deep.antt =====
-- Instances of what is proved of deep evaluations, of wonders made of them, and of runs that ask the
-- agent runtime.
use wander_mind.Repositories.Bundle.{
  RuntimeSession_entity, Candidate_entity, Wonder_entity, Feedback_entity,
}
use wander_mind.Prelude.{◌+◌, true, false, none, some, [], ◌∷◌, length, min}
use wander_mind.Float.{f0_0, f0_25}
use wander_mind.Exec.{ok}
use wander_mind.Models.Thought.{Candidate, KnowledgeItem}
use wander_mind.Models.Evaluation.{
  EvaluationStatus, EvidenceOutput, CriticVerdict, CriticOutput, DeepEvaluationResult,
}
use wander_mind.Repositories.Store.{get}
use wander_mind.Runtimes.Opened.{Refused}
use wander_mind.Runtimes.Handled.{Ends}
use wander_mind.DeepEvaluation.{Evaluating}
use wander_mind.DeepEvaluation.Services.{evaluate}
use wander_mind.DeepEvaluation.Sound.{IsSound, evaluate-IsSound}
use wander_mind.Wonders.{submit}
use wander_mind.Wonders.Judged.{Judges, submit-Judges}
use wander_mind.Tests.Sample.{item, scores}
use wander_mind.Tests.Stores.{runtime_session, candidate, comment, bundle}
use wander_mind.Tests.Agents.{adapter, answer, tracking}

-- Evidence with a reference twice, and a critic that passes.
abbrev found_evidence : EvidenceOutput
found_evidence = record {
  supporting_evidence = (69 ∷ []) ∷ [];
  counter_evidence = [];
  source_refs = 5 ∷ 5 ∷ [];
  uncertainty = f0_25;
  status = EvaluationStatus.completed;
  error = none;
}

abbrev critic : CriticOutput
critic = record {
  weakness = [];
  obviousness = f0_0;
  over_analogy = false;
  factual_risk = f0_25;
  alternative_explanation = [];
  verdict = CriticVerdict.pass;
}

-- Each session is a new one, and each task is answered at once.
abbrev evaluating : Evaluating
evaluating = record {
  adapter = record adapter {
    start_session = λ t purpose. ok (record runtime_session { id = 90 + t });
    run_task = λ t task. ok answer;
  };
  explorer_retries = 1;
  evidence_retries = 1;
  critic_retries = 1;
  context_payload = λ items. [];
  dump_evidence = λ e. [];
  validate_explorer = λ t. none;
  validate_evidence = λ t. some found_evidence;
  validate_critic = λ t. some critic;
}

abbrev sourced_item : KnowledgeItem
sourced_item = record (item 1) { source_ref = some 5 }

evaluate-IsSound_example :
    Ends
      (length tracking.runtime_sessions + min 3 3)
      (IsSound (sourced_item ∷ []) 3 true)
      (Refused evaluating.adapter)
      (evaluate evaluating candidate (sourced_item ∷ []) 3 true tracking).0
      (evaluate evaluating candidate (sourced_item ∷ []) 3 true tracking).1
evaluate-IsSound_example = evaluate-IsSound evaluating candidate (sourced_item ∷ []) 3 true tracking

abbrev scored : Candidate
scored = record candidate {
  scores = some scores;
  statement = 65 ∷ [];
  explanation = 66 ∷ [];
  source_items = 1 ∷ [];
}

abbrev evaluated : DeepEvaluationResult
evaluated = record {
  explorer = none;
  evidence = record found_evidence { source_refs = 5 ∷ [] };
  critic = critic;
}

submit-Judges_example :
    Judges
      (record comment { id = 91 })
      (get 60 bundle.wonders)
      bundle
      (submit (record comment { id = 91 }) bundle)
submit-Judges_example = submit-Judges (record comment { id = 91 }) bundle
