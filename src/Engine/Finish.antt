-- ===== src/Engine/Finish.antt =====
-- `_stop`, `_complete` and `_rank_result` of backend/src/wandermind/cognitive/engine.py, and the
-- handler of an exception at the end of `run`.
use wander_mind.Prelude.{
  ℕ, Text, text, Bool, true, false, ◌&&◌, ◌||◌, Option, none, some, List, ◌∷◌, map, length, ltb,
  ◌==◌, if◌then◌else◌, ◌++◌,
}
use wander_mind.Prelude.Sort.{sort_desc}
use wander_mind.Exec.{pure, gets, modify, ◌>>=◌, ◌>>◌}
use wander_mind.Models.Enums.{SessionStatus, SeedStatus}
use wander_mind.Models.Enums.CognitiveState.{stopped, failed}
use wander_mind.Models.Thought.{Seed, Candidate, Wonder}
use wander_mind.Models.Session.{
  WanderSession, WanderError, StopReason, insufficient_knowledge, no_retrieval_candidates,
  manual_stop, search_space_exhausted, time_budget_exhausted, runtime_budget_exhausted,
  candidate_budget_exhausted, step_budget_exhausted, no_improvement_patience_exhausted,
  high_value_found, target_wonders_reached, failure, embedding_error, operator_execution_error,
  evaluation_error, invalid_state_transition, value_error, component_error, background_failure,
}
use wander_mind.Machine.{legal_transitions}
use wander_mind.Engine.Components.{Components}
use wander_mind.Engine.State.{RunState, Run, seed_row, write, save_session, ask}
use wander_mind.Engine.Record.{no_fields, transition_to}

pub record WanderRunResult : Type 0 where
  pub session : WanderSession
  pub candidates : List Candidate
  pub wonders : List Wonder

-- The key `(wonder.scores.total, wonder.confidence)`, compared as a tuple.
unfoldable pub ranks_below : Wonder → Wonder → Bool
ranks_below a b =
    ltb a.scores.total b.scores.total
    || (a.scores.total == b.scores.total && ltb a.confidence b.confidence)

abbrev wonder_ids : List Wonder → List ℕ
wonder_ids wonders = map (λ (x : Wonder). x.id) wonders

-- `_rank_result` writes the ranking into the session and returns it.
unfoldable pub rank_session : List Wonder → RunState → RunState
rank_session ranked s = record s {
  session = record (s.session) {
    trace = record (s.session.trace) { final_wonder_ids = wonder_ids ranked };
    metadata = record (s.session.metadata) { ranked_wonder_count = length ranked };
  };
}

unfoldable pub rank_result : Run WanderRunResult
unfolding rank_session
rank_result = do
  before ← gets (λ s. s)
  let ranked = sort_desc ranks_below before.wonders
  modify (rank_session ranked)
  s ← gets (λ s. s)
  pure (record { session = s.session; candidates = s.candidates; wonders = ranked })

-- `completed`: every reason but three.
unfoldable pub is_completed : StopReason → Bool
is_completed insufficient_knowledge = false
is_completed no_retrieval_candidates = false
is_completed manual_stop = false
is_completed _ = true

abbrev error_text : WanderError → Text
error_text embedding_error = text "EmbeddingError"
error_text operator_execution_error = text "OperatorExecutionError"
error_text evaluation_error = text "EvaluationError"
error_text invalid_state_transition = text "InvalidStateTransition"
error_text value_error = text "ValueError"
error_text component_error = text "Exception"

abbrev reason_text : StopReason → Text
reason_text insufficient_knowledge = text "insufficient_knowledge"
reason_text no_retrieval_candidates = text "no_retrieval_candidates"
reason_text manual_stop = text "manual_stop"
reason_text search_space_exhausted = text "search_space_exhausted"
reason_text time_budget_exhausted = text "time_budget_exhausted"
reason_text runtime_budget_exhausted = text "runtime_budget_exhausted"
reason_text candidate_budget_exhausted = text "candidate_budget_exhausted"
reason_text step_budget_exhausted = text "step_budget_exhausted"
reason_text no_improvement_patience_exhausted = text "no_improvement_patience_exhausted"
reason_text high_value_found = text "high_value_found"
reason_text target_wonders_reached = text "target_wonders_reached"
reason_text (failure e) = error_text e
reason_text (background_failure reason) = text "failure:" ++ reason

-- `session.ended_at`, then `session.status`, then `trace.stop_reason`.
unfoldable pub end_session : ℕ → SessionStatus → StopReason → RunState → RunState
end_session now status reason s = record s {
  session = record (s.session) {
    ended_at = some now;
    status = status;
    trace = record (s.session.trace) { stop_reason = some reason };
  };
}

module _ (w : Components) where
  -- `if target in self._legal_targets(machine): await self._transition(...)`
  unfoldable pub stop_if_legal : StopReason → Run (Unit {0})
  stop_if_legal reason = do
    s ← gets (λ s. s)
    if legal_transitions s.machine stopped
        then transition_to w stopped (if is_completed reason then "complete" else "stop")
            (reason_text reason) no_fields
        else pure tt

  -- The seed as the repository has it, marked as used.
  unfoldable pub use_seed : Option Seed → Run (Unit {0})
  use_seed none = pure tt
  use_seed (some seed) = do
    now ← ask w.now
    write (seed_row (record seed { status = SeedStatus.used; last_used_at = some now }))

  unfoldable pub reload_seed : Bool → Run (Unit {0})
  unfolding use_seed
  reload_seed false = pure tt
  reload_seed true = do
    s ← gets (λ s. s)
    seed ← ask (λ t. w.get_seed t s.session.seed_id)
    use_seed seed

  unfoldable pub stop : StopReason → Run WanderRunResult
  unfolding reload_seed
  stop reason = do
    stop_if_legal reason
    now ← ask w.now
    modify (
        end_session now
          (if is_completed reason then SessionStatus.completed else SessionStatus.stopped) reason)
    reload_seed (is_completed reason)
    result ← rank_result
    save_session
    pure result

  unfoldable pub mark_seed_used : ℕ → RunState → RunState
  mark_seed_used now s =
      let seed = record (s.seed) { status = SeedStatus.used; last_used_at = some now } in
      record s { seed = seed; writes = seed_row seed ∷ s.writes }

  -- The action of its transition is always "complete".
  unfoldable pub complete : StopReason → Run WanderRunResult
  unfolding mark_seed_used
  complete reason = do
    stop_if_legal reason
    now ← ask w.now
    modify (end_session now SessionStatus.completed reason)
    used_at ← ask w.now
    modify (mark_seed_used used_at)
    result ← rank_result
    save_session
    pure result

  unfoldable pub fail_if_legal : WanderError → Run (Unit {0})
  fail_if_legal error = do
    s ← gets (λ s. s)
    if legal_transitions s.machine failed
        then transition_to w failed "session_failed" (error_text error) no_fields
        else pure tt

  -- `except Exception as error`, up to the `raise`.
  unfoldable pub handle_error : WanderError → Run (Unit {0})
  handle_error error = do
    fail_if_legal error
    now ← ask w.now
    modify (end_session now SessionStatus.failed (failure error))
    save_session
