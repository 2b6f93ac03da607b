-- ===== src/Autopilot/Promotion.antt =====
-- `_promote_wonders` of backend/src/wandermind/application/autopilot_service.py.
use wander_mind.Prelude.{
  ℕ, ◌+◌, Bool, true, false, some, List, [], ◌∷◌, ◌==◌, is_some, if◌then◌else◌,
}
use wander_mind.Exec.{pure, raise, ◌>>=◌, ◌>>◌}
use wander_mind.Models.Enums.{WonderStatus}
use wander_mind.Models.Quality.{QualityGateResult, SkipReason}
use wander_mind.Models.Graph.{KnowledgeEdge}
use wander_mind.Models.Enums.{RelationType}
use wander_mind.Models.Thought.{KnowledgeItem, Wonder}
use wander_mind.Quality.{evaluate, with_lineage_quality}
use wander_mind.Autopilot.State.{
  Services, Pilot, Ingested, component_error, wonder_row, knowledge_row, edge_row, ask, write,
}

-- A wonder that the gate refuses.
unfoldable pub skipped_wonder : Wonder → QualityGateResult → Wonder
skipped_wonder wonder quality = record wonder {
  autopilot_quality_gate = some quality;
  autopilot_promotion_skipped = some SkipReason.quality_gate;
  status = WonderStatus.incubating;
}

unfoldable pub derived_from : ℕ → Wonder → ℕ → ℕ → KnowledgeEdge
derived_from edge_id wonder item_id source_id = record {
  id = edge_id;
  source_id = item_id;
  target_id = source_id;
  relation_type = RelationType.derived_from;
  weight = wonder.scores.total;
  confidence = wonder.confidence;
  created_by = "autopilot";
  wonder_id = some wonder.id;
}

module _ (v : Services) where
  unfoldable pub create_edge : Wonder → ℕ → ℕ → Pilot (Unit {0})
  unfolding derived_from
  create_edge wonder item_id source_id = do
    edge_id ← ask v.uuid4
    write (edge_row (derived_from edge_id wonder item_id source_id))

  -- The edges to the sources, but none of an item to itself.
  unfoldable pub create_edges : Wonder → ℕ → List ℕ → Pilot (Unit {0})
  unfolding create_edge
  create_edges wonder item_id [] = pure tt
  create_edges wonder item_id (source_id ∷ source_ids) = do
    if source_id == item_id then pure tt else create_edge wonder item_id source_id
    create_edges wonder item_id source_ids

  -- What follows the ingestion; the result is whether the wonder is counted as promoted.
  unfoldable pub finish_promotion : ℕ → Wonder → Ingested → Pilot Bool
  unfolding create_edges
  finish_promotion campaign_id wonder Ingested.failed = raise component_error
  finish_promotion campaign_id wonder (Ingested.duplicate reason) = do
    write (wonder_row (record wonder { autopilot_promotion_skipped = some reason }))
    pure false
  finish_promotion campaign_id wonder (Ingested.stored item) = do
    write (
        knowledge_row
          (record item { importance = wonder.scores.total; confidence = wonder.confidence }))
    create_edges wonder item.id wonder.source_items
    write (
        wonder_row (record wonder {
          autopilot_promoted_knowledge_id = some item.id;
          autopilot_campaign_id = some campaign_id;
        }))
    pure true

  unfoldable pub gate : List KnowledgeItem → Wonder → QualityGateResult
  gate knowledge wonder =
      with_lineage_quality (evaluate v.quality_policy wonder v.promotion_threshold) wonder knowledge

  unfoldable pub promote_gated : ℕ → Wonder → QualityGateResult → Pilot Bool
  unfolding skipped_wonder finish_promotion
  promote_gated campaign_id wonder quality =
      if quality.accepted
      then (do
        ingested ← ask (λ t. v.ingest_text t wonder quality)
        finish_promotion campaign_id (record wonder { autopilot_quality_gate = some quality })
            ingested)
      else (do write (wonder_row (skipped_wonder wonder quality)); pure false)

  -- One wonder; one that was promoted before is passed over.
  unfoldable pub promote_wonder : ℕ → List KnowledgeItem → Wonder → Pilot Bool
  unfolding promote_gated gate
  promote_wonder campaign_id knowledge wonder =
      if is_some wonder.autopilot_promoted_knowledge_id
      then pure false
      else promote_gated campaign_id wonder (gate knowledge wonder)

  unfoldable pub promote_each : ℕ → List KnowledgeItem → List Wonder → Pilot ℕ
  unfolding promote_wonder
  promote_each campaign_id knowledge [] = pure 0
  promote_each campaign_id knowledge (wonder ∷ wonders) = do
    promoted ← promote_wonder campaign_id knowledge wonder
    more ← promote_each campaign_id knowledge wonders
    pure ((if promoted then 1 else 0) + more)

  -- `_promote_wonders`
  unfoldable pub promote_wonders : ℕ → List Wonder → Pilot ℕ
  unfolding promote_each
  promote_wonders campaign_id wonders = do
    knowledge ← ask v.list_knowledge
    promote_each campaign_id knowledge wonders
