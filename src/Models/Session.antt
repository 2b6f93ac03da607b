-- ===== src/Models/Session.antt =====
-- `WanderSession`, its trace and its steps (backend/src/wandermind/models/session.py).
use wander_mind.Prelude.{ℕ, Text, String, Bool, true, false, Option, List, not, ◌&&◌, is_some}
use wander_mind.Float.{Float}
use wander_mind.Models.Enums.{CognitiveState, SessionStatus, GuardReason}
use wander_mind.Models.Budget.{WanderBudget}

-- What ends a run by an exception, by the exception's class; `component_error` stands for any
-- other exception that a component lets out.
pub data WanderError : Type 0 where
  embedding_error operator_execution_error evaluation_error invalid_state_transition value_error
        component_error :
      WanderError

-- `trace.stop_reason`
pub data StopReason : Type 0 where
  insufficient_knowledge no_retrieval_candidates manual_stop search_space_exhausted
        time_budget_exhausted runtime_budget_exhausted candidate_budget_exhausted
        step_budget_exhausted no_improvement_patience_exhausted high_value_found
        target_wonders_reached :
      StopReason
  failure : WanderError → StopReason
  background_failure : Text → StopReason

-- The optional fields of a step.
pub record StepFields : Type 0 where
  pub item_ids : List ℕ
  pub operator : Option String
  pub distance : Option Float
  pub novelty_gain : Option Float
  pub relevance : Option Float
  pub collision_score : Option Float
  pub candidate_ids : List ℕ

pub record WanderStep : Type 0 where
  pub index : ℕ
  pub state : CognitiveState
  pub action : String
  pub reason : Text
  pub fields : StepFields

pub record WanderTrace : Type 0 where
  pub steps : List WanderStep
  pub patches : List ℕ
  pub operators : List String
  pub candidate_ids : List ℕ
  pub final_wonder_ids : List ℕ
  pub stop_reason : Option StopReason

-- A counter that is missing from the dictionary is read as 0.
pub record SessionMetadata : Type 0 where
  pub recovery_count : ℕ
  pub cancel_requested : Bool
  pub recovered_after_restart : Bool
  pub patch_membership_count : ℕ
  pub patch_switches : ℕ
  pub wander_moves : ℕ
  pub runtime_calls_used : ℕ
  pub stagnant_candidates : ℕ
  pub quality_guards : List (GuardReason × ℕ)
  pub ranked_wonder_count : ℕ

pub record WanderSession : Type 0 where
  pub id : ℕ
  pub seed_id : ℕ
  pub state : CognitiveState
  pub budget : WanderBudget
  pub status : SessionStatus
  pub trace : WanderTrace
  pub started_at : Option ℕ
  pub ended_at : Option ℕ
  pub updated_at : ℕ
  pub metadata : SessionMetadata

-- `status in terminal`
unfoldable pub is_terminal_status : SessionStatus → Bool
is_terminal_status SessionStatus.completed = true
is_terminal_status SessionStatus.stopped = true
is_terminal_status SessionStatus.failed = true
is_terminal_status _ = false

-- `validate_terminal_timestamps`: what every construction and every assignment checks.
unfoldable pub validate_terminal_timestamps : WanderSession → Bool
unfolding is_terminal_status
validate_terminal_timestamps s = not (is_terminal_status s.status && not (is_some s.ended_at))
