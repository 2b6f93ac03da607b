-- ===== src/Runtimes/Synthesis.antt =====
-- `RuntimeCandidateSynthesizer` of backend/src/wandermind/application/candidate_runtime_service.py, over
-- the tracked runtime.
use wander_mind.Prelude.{ℕ, Text, text, true, false, Option, none, some}
use wander_mind.Exec.{gets, ◌>>=◌}
use wander_mind.Models.Thought.{OperatorContext, OperatorResult, CandidateSynthesisResult}
use wander_mind.Models.Runtime.{RuntimeSession}
use wander_mind.Engine.Review.{given_or}
use wander_mind.Runtimes.{
  RuntimeErrorBase, RuntimeException, runtime_error, RuntimeTask, RuntimeUsage, SessionRef,
  run_with_retry,
}
use wander_mind.Runtimes.Tracked.{Tracking, Tracked, error_name, run_task}
use wander_mind.Runtimes.Sanitize.{CandidateSynthesisOutput, Reviewing}
use wander_mind.Runtimes.Sessions.{is_answer_error, caught, with_session, validated}

module _ (w : Reviewing) where
  unfoldable pub synthesis_task : OperatorContext → OperatorResult → SessionRef → RuntimeTask
  synthesis_task context draft session = record {
    prompt = w.synthesis_prompt context draft;
    wander_session_id = some session;
  }

  -- The draft goes on unchanged where the runtime fails; a provider is named once there is a session.
  unfoldable pub unverified :
      OperatorResult → Option Text → RuntimeException → CandidateSynthesisResult
  unfolding error_name
  unverified draft provider error = record {
    operator_result = draft;
    runtime_calls = 1;
    verified = false;
    provider = provider;
    error = some (error_name error);
  }

  -- `_string_usage(usage, "provider") or session.provider`
  unfoldable pub used_provider : Option Text → RuntimeSession → Text
  unfolding given_or
  used_provider provider session = given_or provider (text session.provider)

  unfoldable pub synthesized :
      OperatorResult
      → CandidateSynthesisOutput
      → RuntimeUsage
      → RuntimeSession
      → CandidateSynthesisResult
  unfolding used_provider
  synthesized draft output usage session = record {
    operator_result = record {
      wonder_type = draft.wonder_type;
      statement = output.statement;
      explanation = output.explanation;
      assumptions = output.assumptions;
      questions = output.questions;
    };
    runtime_calls = 1;
    verified = true;
    provider = some (used_provider usage.provider session);
    error = none;
  }

  unfoldable pub ask_synthesis :
      ℕ → OperatorContext → OperatorResult → SessionRef → Tracked CandidateSynthesisResult
  unfolding synthesis_task run_task synthesized validated run_with_retry
  ask_synthesis max_retries context draft session = do
    result ← run_with_retry (run_task w.adapter (synthesis_task context draft session)) max_retries
    output ← λ s. (
      validated (runtime_error RuntimeErrorBase.malformed_output)
          (w.validate_synthesis result.structured),
      s,
    )
    gets (λ (s : Tracking). synthesized draft output result.usage s.session)

  -- The handler after a session was started, which names its provider.
  unfoldable pub keep_draft :
      OperatorResult → Tracked CandidateSynthesisResult → Tracked CandidateSynthesisResult
  unfolding unverified is_answer_error
  keep_draft draft m s =
      let (r, s') = m s in
      (caught is_answer_error (unverified draft (some (text s'.session.provider))) r, s')

  -- `RuntimeCandidateSynthesizer.synthesize`
  unfoldable pub synthesize :
      ℕ → OperatorContext → OperatorResult → SessionRef → Tracked CandidateSynthesisResult
  unfolding with_session unverified keep_draft ask_synthesis
  synthesize max_retries context draft session =
      with_session w.adapter "candidate_synthesis" (unverified draft none)
        (keep_draft draft (ask_synthesis max_retries context draft session))
