-- ===== src/Tests/Rules.antt =====
-- Instances of what is proved of the state machine, the scores, the budget and the trace.
use wander_mind.Engine.Promote.Gate.{surfaces-IsPromotable, IsPromotable}
use wander_mind.Models.Budget.Validated.{validate_budget_iff, IsInRange}
use wander_mind.Scoring.Threshold.{default_thresholds, ThresholdPolicy, final_decision}
use wander_mind.Machine.Graph.{
  Visits, failed_is_legal_iff, stopped_is_reachable_iff, ended_moves_nowhere, surface_after_score,
  Reaches, move, here,
}
use wander_mind.Engine.Reason.{length-bounded_trace_reason, bounded_trace_reason}
use wander_mind.Engine.Surfacing.{surfaces}
use wander_mind.Machine.{transition, legal_transitions}
use wander_mind.Models.Enums.{ThresholdDecision}
use wander_mind.Scoring.Threshold.Laws.{final_decision_surface}
use wander_mind.Models.Budget.{default_budget, validate_budget}
use wander_mind.Float.{f0_80, f0_75, f0_58, f0_45, f0_25, f0_85}
use wander_mind.Prelude.{
  ◌⊎◌, inr, refl, ◌≡◌, ◌≢◌, ◌≤◌, ◌<◌, ◌↔◌, ◌∷◌, [], some, true, false, arith, Text, length,
  insert_new,
}
use wander_mind.Models.Enums.CognitiveState.{
  idle, seeding, wander, collision, generate, score, persist, surface, stopped, failed,
}
use wander_mind.Tests.Sample.{scores, review}

stopped_is_reachable_iff_example : Reaches surface stopped ↔ (surface ≢ failed)
stopped_is_reachable_iff_example = stopped_is_reachable_iff surface

ended_moves_nowhere_example : failed ≡ failed
ended_moves_nowhere_example = ended_moves_nowhere failed failed (inr refl) here

failed_is_legal_iff_example :
    (legal_transitions wander failed ≡ true)
    ↔ ((wander ≢ stopped) × (wander ≢ failed) × (wander ≢ surface))
failed_is_legal_iff_example = failed_is_legal_iff wander

surfacing : Reaches idle surface
unfolding transition legal_transitions
surfacing = move {t = seeding} refl (
    move {t = wander} refl (
      move {t = collision} refl (
        move {t = generate} refl
          (move {t = score} refl (move {t = persist} refl (move {t = surface} refl here))))))

surface_after_score_example : Visits score surfacing × Visits persist surfacing
surface_after_score_example = surface_after_score surfacing

abbrev thresholds : ThresholdPolicy
thresholds = default_thresholds

final_decision_surface_example :
    ((final_decision thresholds scores ≡ ThresholdDecision.surface) ↔ (
      (f0_58 ≤ scores.total)
      × (f0_25 ≤ scores.total)
      × (scores.redundancy < f0_85)
      × (scores.arbitrariness < f0_80)
      × (scores.hallucination_risk < f0_75)))
    × ((final_decision thresholds scores ≡ ThresholdDecision.deep_explore) ↔ (
        (f0_25 ≤ scores.total)
        × (((f0_45 ≤ scores.total) × (scores.total < f0_58))
            ⊎ ((f0_58 ≤ scores.total)
                × ((f0_85 ≤ scores.redundancy)
                    ⊎ ((f0_80 ≤ scores.arbitrariness) ⊎ (f0_75 ≤ scores.hallucination_risk)))))))
    × ((final_decision thresholds scores ≡ ThresholdDecision.keep_candidate)
        ↔ ((f0_25 ≤ scores.total) × (scores.total < f0_45) × (scores.total < f0_58)))
    × ((final_decision thresholds scores ≡ ThresholdDecision.reject) ↔ (scores.total < f0_25))
final_decision_surface_example = final_decision_surface thresholds scores

surfaces-IsPromotable_example :
    IsPromotable true true false scores ThresholdDecision.deep_explore (some review)
unfolding surfaces insert_new
surfaces-IsPromotable_example =
    surfaces-IsPromotable true true false scores ThresholdDecision.deep_explore (some review) refl

long_reason : Text
long_reason = 65 ∷ 66 ∷ []

length-bounded_trace_reason_example : length (bounded_trace_reason (λ t. t) 40 long_reason) ≤ 40
length-bounded_trace_reason_example =
    length-bounded_trace_reason (λ t. t) 40 long_reason (omega arith)

validate_budget_iff_example :
    (validate_budget default_budget ≡ some default_budget)
    ↔ ((default_budget ≡ default_budget) × IsInRange default_budget)
validate_budget_iff_example = validate_budget_iff default_budget default_budget
