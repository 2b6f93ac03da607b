-- ===== src/Autopilot/Reconcile.antt =====
-- `_reconcile_generated_knowledge` of backend/src/wandermind/application/autopilot_service.py.
-- The time of a rejection that it notes in an item's metadata is left out.
use wander_mind.Prelude.{
  ℕ, ◌+◌, Bool, true, false, ◌&&◌, Option, none, some, List, [], ◌∷◌, ◌==◌, is_empty, if◌then◌else◌,
}
use wander_mind.Exec.{pure, gets, ◌>>=◌, ◌>>◌}
use wander_mind.Models.Enums.{KnowledgeStatus, WonderStatus}
use wander_mind.Models.Quality.{EpistemicStatus, QualityGateResult, source_wonder_missing}
use wander_mind.Models.Thought.{KnowledgeItem, Wonder}
use wander_mind.Models.Campaign.{AutopilotCampaign}
use wander_mind.Quality.{is_active, is_autopilot}
use wander_mind.Autopilot.State.{
  Services, Pilot, AutopilotState, wonder_row, knowledge_row, ask, write,
}
use wander_mind.Autopilot.Promotion.{gate}
use wander_mind.Autopilot.Cycle.{save_now}

unfoldable pub generated_items : List KnowledgeItem → List KnowledgeItem
generated_items [] = []
generated_items (x ∷ xs) =
    let rest = generated_items xs in if is_autopilot x.source then x ∷ rest else rest

-- `wonder_by_id.get(id)`: of two wonders with one id the later counts.
unfoldable pub find_wonder : List Wonder → ℕ → Option Wonder
find_wonder [] id = none
find_wonder (x ∷ xs) id =
    let rest = find_wonder xs id in
    elim rest [ some y ↦ some y | none ↦ if x.id == id then some x else none ]

unfoldable pub source_wonder : List Wonder → Option ℕ → Option Wonder
unfolding find_wonder
source_wonder wonders none = none
source_wonder wonders (some id) = find_wonder wonders id

unfoldable pub reconciled_item : QualityGateResult → KnowledgeItem → KnowledgeItem
unfolding is_active
reconciled_item quality item =
    if quality.accepted && is_active item.status
    then record item {
      quality_gate = some quality;
      epistemic_status = EpistemicStatus.reviewed_hypothesis;
    }
    else record item {
      quality_gate = some quality;
      status = KnowledgeStatus.rejected;
      epistemic_status = EpistemicStatus.quality_rejected;
    }

unfoldable pub reconciled_wonder : QualityGateResult → Wonder → Wonder
reconciled_wonder quality wonder =
    if quality.accepted
    then record wonder { autopilot_quality_gate = some quality }
    else record wonder {
      autopilot_quality_gate = some quality;
      status = WonderStatus.incubating;
      autopilot_promotion_retracted = true;
    }

unfoldable pub count_campaign : ℕ → ℕ → AutopilotCampaign → AutopilotCampaign
count_campaign accepted rejected campaign = record campaign {
  metadata = record (campaign.metadata) {
    quality_gate_version = some 2;
    active_generated_knowledge = some accepted;
    rejected_generated_knowledge = some rejected;
  };
}

unfoldable pub counted : Bool → ℕ × ℕ → ℕ × ℕ
counted true (accepted, rejected) = (accepted + 1, rejected)
counted false (accepted, rejected) = (accepted, rejected + 1)

module _ (v : Services) where
  unfoldable pub wonder_quality : List KnowledgeItem → Option Wonder → QualityGateResult
  unfolding gate
  wonder_quality knowledge none = record { accepted = false; reasons = source_wonder_missing ∷ [] }
  wonder_quality knowledge (some wonder) = gate v knowledge wonder

  unfoldable pub store_wonder_of : QualityGateResult → Option Wonder → Pilot (Unit {0})
  unfolding reconciled_wonder
  store_wonder_of quality none = pure tt
  store_wonder_of quality (some wonder) = write (wonder_row (reconciled_wonder quality wonder))

  -- One item; the result is whether it is counted as accepted.
  unfoldable pub reconcile_item : List KnowledgeItem → Option Wonder → KnowledgeItem → Pilot Bool
  unfolding wonder_quality reconciled_item store_wonder_of
  reconcile_item knowledge wonder item = do
    let quality = wonder_quality knowledge wonder
    write (knowledge_row (reconciled_item quality item))
    store_wonder_of quality wonder
    pure (quality.accepted && is_active item.status)

  -- How many of the items are accepted and how many rejected.
  unfoldable pub reconcile_each :
      List KnowledgeItem → List Wonder → List KnowledgeItem → Pilot (ℕ × ℕ)
  unfolding reconcile_item source_wonder counted
  reconcile_each knowledge wonders [] = pure (0, 0)
  reconcile_each knowledge wonders (item ∷ items) = do
    accepted ← reconcile_item knowledge (source_wonder wonders item.source_wonder_id) item
    counts ← reconcile_each knowledge wonders items
    pure (counted accepted counts)

  unfoldable pub save_counts : ℕ × ℕ → Option AutopilotCampaign → Pilot (Unit {0})
  unfolding count_campaign save_now
  save_counts counts none = pure tt
  save_counts counts (some campaign) = save_now v (count_campaign counts.0 counts.1 campaign)

  unfoldable pub reconcile_generated : List KnowledgeItem → List KnowledgeItem → Pilot (Unit {0})
  unfolding reconcile_each save_counts
  reconcile_generated knowledge generated = do
    wonders ← ask v.list_wonders
    counts ← reconcile_each knowledge wonders generated
    s ← gets (λ (s : AutopilotState). s)
    save_counts counts s.campaign

  -- `_reconcile_generated_knowledge`
  unfoldable pub reconcile_generated_knowledge : Pilot (Unit {0})
  unfolding reconcile_generated generated_items
  reconcile_generated_knowledge = do
    knowledge ← ask v.list_knowledge
    let generated = generated_items knowledge
    if is_empty generated then pure tt else reconcile_generated knowledge generated
