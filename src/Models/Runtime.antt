-- ===== src/Models/Runtime.antt =====
-- `RuntimeSession` of backend/src/wandermind/runtime/base.py and its status (models/enums.py).
use wander_mind.Prelude.{ℕ, Text, String, Bool, Option}
use wander_mind.Float.{Float}

pub data RuntimeSessionStatus : Type 0 where
  active completed interrupted failed closed : RuntimeSessionStatus

-- The keys of `cost` that are added up; a missing key is `none`.
pub record RuntimeCost : Type 0 where
  pub runtime_calls : Option ℕ
  pub failures : Option ℕ
  pub duration_seconds : Option Float
  pub input_tokens : Option ℕ
  pub output_tokens : Option ℕ
  pub total_tokens : Option ℕ

pub record RuntimeSession : Type 0 where
  pub id : ℕ
  pub provider : String
  pub purpose : String
  pub external_session_id : Option ℕ
  pub status : RuntimeSessionStatus
  pub wander_session_id : Option ℕ
  pub last_used_at : ℕ
  pub updated_at : ℕ
  pub cost : RuntimeCost
  pub last_error : Option Text
  -- whether the metadata has an invalid id of a wander session
  pub invalid_wander_session_id : Bool
