-- ===== src/Scoring/Threshold/Laws.antt =====
-- When a score surfaces, and what a decision says of the total.
use wander_mind.Prelude.{◌≡◌, ◌≤◌, ◌<◌, ◌↔◌, ◌⊎◌, arith}
use wander_mind.Float.{f0_75, f0_80, f0_85}
use wander_mind.Models.Enums.ThresholdDecision.{reject, keep_candidate, deep_explore, surface}
use wander_mind.Models.Thought.{WonderScores}
use wander_mind.Scoring.Threshold.{ThresholdPolicy, decide, final_decision}

-- A scored candidate is to be surfaced exactly if its total is in the top band and none of its
-- three penalties is at its limit. It is to be explored exactly if its total is in the band below, or
-- in the top band with a penalty at its limit. A penalty changes neither whether it is kept, which is
-- from the first threshold on, nor whether it is rejected, which is below.
pub final_decision_surface :
    (p : ThresholdPolicy) (s : WonderScores)
    → ((final_decision p s ≡ surface) ↔ (
        (p.surface_above ≤ s.total)
        × (p.reject_below ≤ s.total)
        × (s.redundancy < f0_85)
        × (s.arbitrariness < f0_80)
        × (s.hallucination_risk < f0_75)))
      × ((final_decision p s ≡ deep_explore) ↔ (
          (p.reject_below ≤ s.total)
          × (((p.explore_above ≤ s.total) × (s.total < p.surface_above))
              ⊎ ((p.surface_above ≤ s.total)
                  × ((f0_85 ≤ s.redundancy)
                      ⊎ ((f0_80 ≤ s.arbitrariness) ⊎ (f0_75 ≤ s.hallucination_risk)))))))
      × ((final_decision p s ≡ keep_candidate) ↔ (
          (p.reject_below ≤ s.total) × (s.total < p.explore_above) × (s.total < p.surface_above)))
      × ((final_decision p s ≡ reject) ↔ (s.total < p.reject_below))
unfolding final_decision decide
final_decision_surface p s = ground arith
