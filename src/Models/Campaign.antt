-- ===== src/Models/Campaign.antt =====
-- `AutopilotCampaign` of backend/src/wandermind/models/autopilot.py.
use wander_mind.Prelude.{ℕ, Text, Bool, Option, none, false}
use wander_mind.Models.Enums.{AutopilotStatus}
use wander_mind.Models.Budget.{WanderBudget}
use wander_mind.Models.Session.{StopReason}

-- `last_error`: two fixed strings, the stop reason of a failed session, or the message of an
-- exception that left a tick.
pub data CampaignError : Type 0 where
  current_session_missing insufficient_knowledge : CampaignError
  session_failed : StopReason → CampaignError
  loop_error : Text → CampaignError

pub record CampaignMetadata : Type 0 where
  pub auto_started : Bool
  pub current_mode : Option Text
  pub current_pair_key : Option Text
  pub last_session_id : Option ℕ
  pub last_stop_reason : Option StopReason
  pub last_cycle_candidates : Option ℕ
  pub last_cycle_wonders : Option ℕ
  pub last_cycle_runtime_calls : Option ℕ
  pub last_cycle_promoted_knowledge : Option ℕ
  pub quality_gate_version : Option ℕ
  pub active_generated_knowledge : Option ℕ
  pub rejected_generated_knowledge : Option ℕ

abbrev pub empty_metadata : CampaignMetadata
empty_metadata = record {
  auto_started = false;
  current_mode = none;
  current_pair_key = none;
  last_session_id = none;
  last_stop_reason = none;
  last_cycle_candidates = none;
  last_cycle_wonders = none;
  last_cycle_runtime_calls = none;
  last_cycle_promoted_knowledge = none;
  quality_gate_version = none;
  active_generated_knowledge = none;
  rejected_generated_knowledge = none;
}

pub record AutopilotCampaign : Type 0 where
  pub id : ℕ
  pub objective : Text
  pub status : AutopilotStatus
  pub budget : WanderBudget
  pub current_session_id : Option ℕ
  pub cycles_started : ℕ
  pub cycles_completed : ℕ
  pub total_candidates : ℕ
  pub total_wonders : ℕ
  pub total_runtime_calls : ℕ
  pub promoted_knowledge_count : ℕ
  pub consecutive_failures : ℕ
  pub started_at : ℕ
  pub last_cycle_started_at : Option ℕ
  pub last_cycle_completed_at : Option ℕ
  pub next_cycle_at : Option ℕ
  pub last_error : Option CampaignError
  pub metadata : CampaignMetadata
  pub updated_at : ℕ

-- `AutopilotCampaign(objective=..., status=..., budget=..., next_cycle_at=...)`, the rest by default.
unfoldable pub new_campaign :
    ℕ → Text → AutopilotStatus → WanderBudget → Option ℕ → ℕ → AutopilotCampaign
new_campaign id objective status budget next_cycle_at now = record {
  id = id;
  objective = objective;
  status = status;
  budget = budget;
  current_session_id = none;
  cycles_started = 0;
  cycles_completed = 0;
  total_candidates = 0;
  total_wonders = 0;
  total_runtime_calls = 0;
  promoted_knowledge_count = 0;
  consecutive_failures = 0;
  started_at = now;
  last_cycle_started_at = none;
  last_cycle_completed_at = none;
  next_cycle_at = next_cycle_at;
  last_error = none;
  metadata = empty_metadata;
  updated_at = now;
}
