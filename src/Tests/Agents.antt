-- ===== src/Tests/Agents.antt =====
-- Instances of what is proved of tasks in an agent runtime.
use wander_mind.Repositories.Bundle.{
  KnowledgeItem_entity, KnowledgeEdge_entity, Seed_entity, Wonder_entity, Candidate_entity,
  WanderSession_entity, Feedback_entity, RuntimeSession_entity,
}
use wander_mind.Prelude.{ℕ, zero, suc, sym, ap, ◌∙◌, ◌≡◌, refl, none, some, [], ◌∷◌, ◌+◌}
use wander_mind.Float.{f0_0, f0_25}
use wander_mind.Exec.{Result, ok, err}
use wander_mind.Models.Enums.{Verdict}
use wander_mind.Repositories.Store.{get}
use wander_mind.Runtimes.{
  Adapter, RuntimeException, runtime_error, RuntimeErrorBase, RuntimeTask, RuntimeTaskResult,
  run_with_retry,
}
use wander_mind.Runtimes.Tracked.{Tracking, run_task, count_or}
use wander_mind.Runtimes.Charges.{CountsOne}
use wander_mind.Runtimes.Attempts.{Retried, run_with_retry-Retried}
use wander_mind.Runtimes.Sanitize.{Reviewing, CandidateReviewOutput}
use wander_mind.Runtimes.Review.{review}
use wander_mind.Runtimes.Grounded.{Promised, review-Promised}
use wander_mind.Tests.Sample.{item}
use wander_mind.Tests.Stores.{runtime_session, candidate}

abbrev pub answer : RuntimeTaskResult
answer = record {
  structured = [];
  usage = record {
    runtime_calls = none;
    duration_seconds = none;
    input_tokens = some 5;
    output_tokens = some 7;
    total_tokens = some 12;
    provider = none;
  };
}

-- The first task runs out of time.
abbrev flaky : ℕ → Result RuntimeException RuntimeTaskResult
flaky zero = err (runtime_error RuntimeErrorBase.timeout)
flaky (suc n) = ok answer

abbrev pub adapter : Adapter
adapter = record {
  add = λ a b. a;
  now = λ t. t;
  elapsed = λ t. f0_25;
  start_session = λ t purpose. ok runtime_session;
  run_task = λ t task. flaky t;
  close_session = λ t. ok tt;
}

abbrev pub tracking : Tracking
tracking = record { asked = 0; session = runtime_session; runtime_sessions = runtime_session ∷ [] }

abbrev task : RuntimeTask
task = record { prompt = 65 ∷ []; wander_session_id = none }

abbrev counted : Result RuntimeException RuntimeTaskResult → ℕ
unfolding count_or
counted (ok r) = count_or r.usage.runtime_calls 1
counted (err e) = 1

flaky-counted : (t : ℕ) → counted (flaky t) ≡ 1
unfolding counted count_or
flaky-counted zero = refl
flaky-counted (suc n) = refl

adapter-CountsOne : CountsOne adapter
unfolding CountsOne counted
adapter-CountsOne t r a e = sym (ap counted e) ∙ flaky-counted t

run_with_retry-Retried_example :
    Retried adapter task adapter-CountsOne 1 tracking
      (run_with_retry (run_task adapter task) 1 tracking)
unfolding get
run_with_retry-Retried_example =
    run_with_retry-Retried adapter task adapter-CountsOne 1 tracking refl

abbrev output : CandidateReviewOutput
output = record {
  revised_statement = none;
  expanded_idea = [];
  supporting_evidence =
      record { claim = []; source_ref = 101 } ∷ record { claim = []; source_ref = 102 } ∷ [];
  counter_evidence = [];
  uncertainty = f0_25;
  weaknesses = [];
  obviousness = f0_0;
  factual_risk = f0_25;
  alternative_explanations = [];
  verdict = Verdict.pass;
}

abbrev pub reviewing : Reviewing
reviewing = record {
  adapter = adapter;
  knowledge_ref = λ id. 100 + id;
  review_prompt = λ c items. 65 ∷ [];
  synthesis_prompt = λ c draft. 65 ∷ [];
  validate_review = λ t. some output;
  validate_synthesis = λ t. none;
}

review-Promised_example :
    Promised reviewing
      (item 1 ∷ item 2 ∷ [])
      (review reviewing 1 candidate (item 1 ∷ item 2 ∷ []) 1 tracking).0
review-Promised_example = review-Promised reviewing (item 1 ∷ item 2 ∷ []) 1 candidate 1 tracking
