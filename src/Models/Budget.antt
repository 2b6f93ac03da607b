-- ===== src/Models/Budget.antt =====
-- `WanderBudget` of backend/src/wandermind/models/session.py, with its validators.
pub mod Validated
use wander_mind.Prelude.{ℕ, Bool, true, ◌&&◌, Option, none, some, leb, ltb, if◌then◌else◌}
use wander_mind.Float.{Float, f0_0}

pub record WanderBudget : Type 0 where
  pub max_steps : ℕ
  pub max_patch_switches : ℕ
  pub max_candidates : ℕ
  pub min_candidates : ℕ
  pub target_wonders : ℕ
  pub max_stagnant_candidates : ℕ
  pub stop_on_first_wonder : Bool
  pub max_runtime_calls : ℕ
  pub time_budget_seconds : Float

abbrev pub f3600_0 : Float
f3600_0 = 0x40AC200000000000

-- The `Field` bounds.
unfoldable pub fields_in_range : WanderBudget → Bool
fields_in_range b =
    (leb 1 b.max_steps && leb b.max_steps 100)
    && leb b.max_patch_switches 20
    && (leb 1 b.max_candidates && leb b.max_candidates 100)
    && (leb 1 b.min_candidates && leb b.min_candidates 100)
    && (leb 1 b.target_wonders && leb b.target_wonders 20)
    && (leb 1 b.max_stagnant_candidates && leb b.max_stagnant_candidates 100)
    && leb b.max_runtime_calls 100
    && (ltb f0_0 b.time_budget_seconds && leb b.time_budget_seconds f3600_0)

-- Construction: the fields, then `validate_depth_targets`; `none` is a validation error.
unfoldable pub validate_budget : WanderBudget → Option WanderBudget
unfolding fields_in_range
validate_budget b =
    if fields_in_range b
    then (if ltb b.max_candidates b.min_candidates then none else some b)
    else none

abbrev pub default_budget : WanderBudget
default_budget = record {
  max_steps = 8;
  max_patch_switches = 2;
  max_candidates = 5;
  min_candidates = 1;
  target_wonders = 1;
  max_stagnant_candidates = 3;
  stop_on_first_wonder = true;
  max_runtime_calls = 4;
  time_budget_seconds = 0x403E000000000000;
}
