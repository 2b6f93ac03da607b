-- ===== src/Models/Budget/Validated.antt =====
-- What a budget that passed its validators satisfies.
use wander_mind.Prelude.{◌≡◌, ◌≤◌, ◌<◌, ◌↔◌, arith, some}
use wander_mind.Models.Budget.{WanderBudget, validate_budget, f3600_0}

pub record IsInRange (b : WanderBudget) : Type 0 where
  pub steps : (1 ≤ b.max_steps) × (b.max_steps ≤ 100)
  pub switches : b.max_patch_switches ≤ 20
  pub candidates : (1 ≤ b.max_candidates) × (b.max_candidates ≤ 100)
  pub depth : (1 ≤ b.min_candidates) × (b.min_candidates ≤ b.max_candidates)
  pub targets : (1 ≤ b.target_wonders) × (b.target_wonders ≤ 20)
  pub patience : (1 ≤ b.max_stagnant_candidates) × (b.max_stagnant_candidates ≤ 100)
  pub calls : b.max_runtime_calls ≤ 100
  pub seconds : (0 < b.time_budget_seconds) × (b.time_budget_seconds ≤ f3600_0)

-- Validation accepts a budget exactly if all its fields are in range and `min_candidates` is at
-- most `max_candidates`, and then returns it unchanged.
pub validate_budget_iff :
    (b c : WanderBudget) → (validate_budget b ≡ some c) ↔ ((b ≡ c) × IsInRange b)
unfolding validate_budget
validate_budget_iff b c = ground arith
