-- ===== src/Engine/Record.antt =====
-- `_record`, `_transition`, `_legal_targets` and `_cancel_requested` of
-- backend/src/wandermind/cognitive/engine.py.
use wander_mind.Prelude.{
  ℕ, ◌+◌, Text, String, Bool, true, ◌||◌, Option, none, some, [], ◌∷◌, ◌++◌, length, false,
}
use wander_mind.Exec.{◌>>=◌, Result, ok, err, pure}
use wander_mind.Models.Enums.{CognitiveState, SessionStatus}
use wander_mind.Models.Session.{StepFields, WanderStep, WanderSession, invalid_state_transition}
use wander_mind.Machine.{InvalidStateTransition, transition}
use wander_mind.Engine.Reason.{bounded_trace_reason}
use wander_mind.Engine.Components.{Components}
use wander_mind.Engine.State.{Run, session_row, ask}

abbrev pub no_fields : StepFields
no_fields = record {
  item_ids = [];
  operator = none;
  distance = none;
  novelty_gain = none;
  relevance = none;
  collision_score = none;
  candidate_ids = [];
}

-- `session.trace.steps.append(step)`, with `session.updated_at`
unfoldable pub append_step : WanderSession → WanderStep → ℕ → WanderSession
append_step session step now = record session {
  trace = record (session.trace) { steps = session.trace.steps ++ step ∷ [] };
  updated_at = now;
}

unfoldable pub is_stopped : SessionStatus → Bool
is_stopped SessionStatus.stopped = true
is_stopped _ = false

unfoldable pub cancel_of : Option (SessionStatus × Bool) → Bool
unfolding is_stopped
cancel_of none = true
cancel_of (some (status, cancel_requested)) = is_stopped status || cancel_requested

module _ (w : Components) where
  -- `reason` has at most 2,000 characters, the default of `_bounded_trace_reason`.
  unfoldable pub record_step : CognitiveState → String → Text → StepFields → Run (Unit {0})
  unfolding append_step
  record_step state action reason step_fields s =
      let step : WanderStep = record {
        index = length s.session.trace.steps;
        state = state;
        action = action;
        reason = bounded_trace_reason w.sha256_hex 2000 reason;
        fields = step_fields;
      } in
      let session = append_step s.session step (w.now s.tick) in
      (
        ok tt,
        record s { session = session; tick = s.tick + 1; writes = session_row session ∷ s.writes },
      )

  -- What follows `machine.transition(target)`.
  unfoldable pub enter :
      CognitiveState
      → String
      → Text
      → StepFields
      → Result InvalidStateTransition CognitiveState
      → Run (Unit {0})
  enter target action reason step_fields (err e) s = (err invalid_state_transition, s)
  enter target action reason step_fields (ok state) s =
      record_step target action reason step_fields
        (record s { machine = state; session = record (s.session) { state = target } })

  unfoldable pub transition_to : CognitiveState → String → Text → StepFields → Run (Unit {0})
  unfolding enter
  transition_to target action reason step_fields s =
      enter target action reason step_fields (transition s.machine target) s

  unfoldable pub cancel_requested : Run Bool
  unfolding cancel_of
  cancel_requested = do stored ← ask w.stored_session; pure (cancel_of stored)
