-- ===== src/Runtimes/Tracked.antt =====
-- `TrackedRuntimeAdapter` of backend/src/wandermind/infrastructure/tracked_runtime.py. The session that
-- its caller holds is part of the state, since the methods change it. Logs and metrics, `stream_task`,
-- and of the records `provider` and `last_usage` of a cost and the message of an error are left out.
use wander_mind.Repositories.Bundle.{
  KnowledgeItem_entity, KnowledgeEdge_entity, Seed_entity, Wonder_entity, Candidate_entity,
  WanderSession_entity, Feedback_entity, RuntimeSession_entity,
}
use wander_mind.Prelude.{ℕ, ◌+◌, Text, text, String, true, Option, none, some, List}
use wander_mind.Float.{Float, f0_0}
use wander_mind.Exec.{Result, ok, err, Exec, pure, raise, lift, gets, modify, ◌>>=◌, ◌>>◌}
use wander_mind.Models.Runtime.{RuntimeSession}
use wander_mind.Repositories.Store.{StoreError, create, update}
use wander_mind.Runtimes.{
  Adapter, RuntimeErrorBase, RuntimeException, other_exception, RuntimeTask, RuntimeUsage,
  RuntimeTaskResult, SessionRef, session_uuid, not_a_uuid,
}

pub record Tracking : Type 0 where
  pub asked : ℕ
  pub session : RuntimeSession
  pub runtime_sessions : List RuntimeSession

abbrev pub Tracked : Type 0 → Type 0
Tracked A = Exec RuntimeException Tracking A

-- `previous + value` where there is a value; a missing previous one is 0.
unfoldable pub plus_count : Option ℕ → Option ℕ → Option ℕ
plus_count previous none = previous
plus_count none (some value) = some value
plus_count (some a) (some value) = some (a + value)

unfoldable pub count_or : Option ℕ → ℕ → ℕ
count_or none default = default
count_or (some a) default = a

unfoldable pub set_default : {A : Type 0} → Option A → A → Option A
set_default none default = some default
set_default (some a) default = some a

unfoldable pub error_name : RuntimeException → Text
error_name (RuntimeException.runtime_error RuntimeErrorBase.unavailable) =
    text "RuntimeUnavailableError"
error_name (RuntimeException.runtime_error RuntimeErrorBase.timeout) = text "RuntimeTimeoutError"
error_name (RuntimeException.runtime_error RuntimeErrorBase.interrupted) =
    text "RuntimeInterruptedError"
error_name (RuntimeException.runtime_error RuntimeErrorBase.malformed_output) =
    text "RuntimeMalformedOutputError"
error_name (RuntimeException.runtime_error (RuntimeErrorBase.execution again)) =
    text "RuntimeExecutionError"
error_name RuntimeException.validation_error = text "ValidationError"
error_name RuntimeException.other_exception = text "Exception"

-- `_bind_wander_session`
unfoldable pub bind_wander_session : Option SessionRef → RuntimeSession → RuntimeSession
bind_wander_session none session = session
bind_wander_session (some (session_uuid id)) session = record session {
  wander_session_id = some id;
}
bind_wander_session (some not_a_uuid) session = record session { invalid_wander_session_id = true }

unfoldable pub saved : Result StoreError (List RuntimeSession) → Tracked (Unit {0})
saved (ok sessions) s = (ok tt, record s { runtime_sessions = sessions })
saved (err error) s = (err other_exception, s)

-- `repository.create(session)` and `repository.update(session)`
unfoldable pub create_session : Tracked (Unit {0})
unfolding saved create
create_session s = saved (create s.session s.runtime_sessions) s

unfoldable pub update_session : Tracked (Unit {0})
unfolding saved update
update_session s = saved (update s.session s.runtime_sessions) s

unfoldable pub set_session : (RuntimeSession → RuntimeSession) → Tracking → Tracking
set_session f s = record s { session = f s.session }

unfoldable pub count_question : Tracking → Tracking
count_question s = record s { asked = s.asked + 1 }

module _ (w : Adapter) where
  abbrev plus_seconds : Option Float → Option Float → Option Float
  plus_seconds previous none = previous
  plus_seconds none (some value) = some (w.add f0_0 value)
  plus_seconds (some a) (some value) = some (w.add a value)

  unfoldable pub touch : ℕ → RuntimeSession → RuntimeSession
  touch t session = record session { last_used_at = w.now t; updated_at = w.now t }

  -- `_record_usage`
  unfoldable pub record_usage : ℕ → RuntimeUsage → RuntimeSession → RuntimeSession
  unfolding touch plus_count
  record_usage t usage session = touch t (record session {
    cost = record {
      runtime_calls = plus_count session.cost.runtime_calls usage.runtime_calls;
      failures = session.cost.failures;
      duration_seconds = plus_seconds session.cost.duration_seconds usage.duration_seconds;
      input_tokens = plus_count session.cost.input_tokens usage.input_tokens;
      output_tokens = plus_count session.cost.output_tokens usage.output_tokens;
      total_tokens = plus_count session.cost.total_tokens usage.total_tokens;
    };
  })

  -- `_record_failure`
  unfoldable pub record_failure : ℕ → Float → RuntimeException → RuntimeSession → RuntimeSession
  unfolding touch error_name plus_count
  record_failure t duration error session = touch t (record session {
    cost = record (session.cost) {
      runtime_calls = plus_count session.cost.runtime_calls (some 1);
      failures = plus_count session.cost.failures (some 1);
      duration_seconds = plus_seconds session.cost.duration_seconds (some duration);
    };
    last_error = some (error_name error);
  })

  -- The defaults that `run_task` puts into `usage`.
  unfoldable pub completed_usage : RuntimeSession → Float → RuntimeUsage → RuntimeUsage
  unfolding set_default
  completed_usage session duration usage = record usage {
    runtime_calls = set_default usage.runtime_calls 1;
    provider = set_default usage.provider (text session.provider);
    duration_seconds = set_default usage.duration_seconds duration;
  }

  unfoldable pub finish_task :
      ℕ → Result RuntimeException RuntimeTaskResult → Tracked RuntimeTaskResult
  unfolding record_failure record_usage completed_usage set_session update_session
  finish_task t (err error) = do
    modify (set_session (record_failure t (w.elapsed t) error))
    update_session
    raise error
  finish_task t (ok result) = do
    s ← gets (λ (s : Tracking). s)
    let usage = completed_usage s.session (w.elapsed t) result.usage
    modify (set_session (record_usage t usage))
    update_session
    pure (record result { usage = usage })

  unfoldable pub run_task : RuntimeTask → Tracked RuntimeTaskResult
  unfolding bind_wander_session set_session count_question finish_task
  run_task task = do
    modify (set_session (bind_wander_session task.wander_session_id))
    s ← gets (λ (s : Tracking). s)
    modify count_question
    finish_task s.asked (w.run_task s.asked task)

  unfoldable pub start_session : String → Tracked (Unit {0})
  unfolding set_session count_question create_session
  start_session purpose = do
    s ← gets (λ (s : Tracking). s)
    modify count_question
    session ← lift (w.start_session s.asked purpose)
    modify (set_session (λ old. session))
    create_session

  unfoldable pub close_session : Tracked (Unit {0})
  unfolding set_session count_question touch update_session
  close_session = do
    s ← gets (λ (s : Tracking). s)
    modify count_question
    lift (w.close_session s.asked)
    modify (set_session (touch s.asked))
    update_session
