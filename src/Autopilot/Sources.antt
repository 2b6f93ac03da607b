-- ===== src/Autopilot/Sources.antt =====
-- What `_promote_wonders` writes: the wonders it promotes have passed the gate.
use wander_mind.Models.Enums.{WonderStatus}
use wander_mind.Quality.{evaluate, with_lineage_quality}
use wander_mind.Prelude.{
  ℕ, ◌+◌, ◌≡◌, ◌≢◌, ◌⊎◌, inl, inr, refl, true, false, Option, none, some, List, [], ◌∷◌, ◌==◌,
  is_some, arith,
}
use wander_mind.Exec.{Result, ok, err, raise, ◌>>=◌}
use wander_mind.Exec.Triple.{Holds, Triple, Triple-bind, Triple-pure, Triple-if}
use wander_mind.Models.Thought.{KnowledgeItem, Wonder}
use wander_mind.Autopilot.State.{
  Services, Pilot, AutopilotState, AutopilotError, AutopilotWrite, Ingested, wonder_row, edge_row,
  ask, write,
}
use wander_mind.Autopilot.Promotion.{
  create_edge, create_edges, derived_from, finish_promotion, skipped_wonder, promote_gated,
  promote_wonder, promote_each, promote_wonders, gate,
}

module _ (v : Services) (knowledge : List KnowledgeItem) where
  -- A stored wonder has either no promoted item and, refused by the gate, is incubating, or has passed
  -- the gate; an edge joins two items.
  abbrev pub IsSound : AutopilotWrite → Type 0
  IsSound (wonder_row wonder) =
      ((gate v knowledge wonder).accepted ≡ true)
      ⊎ ((wonder.autopilot_promoted_knowledge_id ≡ none)
          × (wonder.status ≡ WonderStatus.incubating))
  IsSound (edge_row edge) = edge.source_id ≢ edge.target_id
  IsSound _ = Unit

  abbrev pub AllSound : List AutopilotWrite → Type 0
  AllSound [] = Unit
  AllSound (row ∷ rows) = IsSound row × AllSound rows

  abbrev Sound : {A : Type 0} → Pilot A → Type 0
  Sound m = Triple (λ s. AllSound s.writes) m (λ _ s. AllSound s.writes) (λ _ s. AllSound s.writes)

  write-Sound : (row : AutopilotWrite) → IsSound row → Sound (write row)
  unfolding write
  write-Sound row h = record { at = λ s rest. (h, rest) }

  ask-Sound : {A : Type 0} (question : ℕ → A) → Sound (ask question)
  unfolding ask
  ask-Sound question = record { at = λ s h. h }

  create_edge-Sound :
      (wonder : Wonder) (item_id source_id : ℕ)
      → item_id ≢ source_id
      → Sound (create_edge v wonder item_id source_id)
  unfolding create_edge derived_from
  create_edge-Sound wonder item_id source_id h =
      Triple-bind _ _ _ _ (ask-Sound _) (λ edge_id. write-Sound _ h)

  create_edges-Sound :
      (wonder : Wonder) (item_id : ℕ) (ids : List ℕ) → Sound (create_edges v wonder item_id ids)
  unfolding create_edges
  create_edges-Sound wonder item_id [] = Triple-pure _ tt (λ s h. h)
  create_edges-Sound wonder item_id (id ∷ ids) =
      Triple-bind _ _ _ _
        (Triple-if _ (id == item_id) _ _ (λ e. Triple-pure _ tt (λ s h. h))
          (λ e. create_edge-Sound wonder item_id id (λ same. ground (arith, e, same))))
        (λ _. create_edges-Sound wonder item_id ids)

  finish_promotion-Sound :
      (campaign_id : ℕ) (wonder : Wonder) (ingested : Ingested)
      → (gate v knowledge wonder).accepted ≡ true
      → Sound (finish_promotion v campaign_id wonder ingested)
  unfolding finish_promotion raise gate evaluate with_lineage_quality
  finish_promotion-Sound campaign_id wonder Ingested.failed h = record { at = λ s rest. rest }
  finish_promotion-Sound campaign_id wonder (Ingested.duplicate reason) h =
      Triple-bind _ _ _ _ (write-Sound _ (inl h)) (λ _. Triple-pure _ false (λ s rest. rest))
  finish_promotion-Sound campaign_id wonder (Ingested.stored item) h =
      Triple-bind _ _ _ _ (write-Sound _ tt) λ _.
        Triple-bind _ _ _ _ (create_edges-Sound wonder item.id wonder.source_items) λ _.
          Triple-bind _ _ _ _ (write-Sound _ (inl h)) (λ _. Triple-pure _ true (λ s rest. rest))

  promote_gated-Sound :
      (campaign_id : ℕ) (wonder : Wonder)
      → wonder.autopilot_promoted_knowledge_id ≡ none
      → Sound (promote_gated v campaign_id wonder (gate v knowledge wonder))
  unfolding promote_gated skipped_wonder gate evaluate with_lineage_quality
  promote_gated-Sound campaign_id wonder fresh =
      Triple-if _ (gate v knowledge wonder).accepted _ _
        (λ e.
          Triple-bind _ _ _ _ (ask-Sound _)
            (λ ingested. finish_promotion-Sound campaign_id _ ingested e))
        (λ e.
          Triple-bind _ _ _ _ (write-Sound _ (inr (fresh, refl)))
            (λ _. Triple-pure _ false (λ s rest. rest)))

  unpromoted : (promoted : Option ℕ) → is_some promoted ≡ false → promoted ≡ none
  unpromoted none e = refl
  unpromoted (some id) e = cc

  promote_each-Sound :
      (campaign_id : ℕ) (wonders : List Wonder)
      → Sound (promote_each v campaign_id knowledge wonders)
  unfolding promote_each promote_wonder
  promote_each-Sound campaign_id [] = Triple-pure _ 0 (λ s h. h)
  promote_each-Sound campaign_id (wonder ∷ wonders) =
      Triple-bind _ _ _ _
        (Triple-if _ (is_some wonder.autopilot_promoted_knowledge_id) _ _
          (λ e. Triple-pure _ false (λ s h. h))
          (λ e. promote_gated-Sound campaign_id wonder (unpromoted _ e)))
        (λ _.
          Triple-bind _ _ _ _ (promote_each-Sound campaign_id wonders)
            (λ _. Triple-pure _ _ (λ s h. h)))

module _ (v : Services) where
  -- From nothing written, whatever the ingestion answers, and also where it raises, every wonder that `_promote_wonders`
  -- stores has passed the gate with the knowledge at hand, or stays without an item of its own and
  -- incubating; and no edge that it stores leads from an item to itself.
  pub promote_wonders-AllSound :
      (campaign_id : ℕ) (wonders : List Wonder) (s : AutopilotState)
      → s.writes ≡ []
      → AllSound v (v.list_knowledge s.tick) (promote_wonders v campaign_id wonders s).1.writes
  unfolding promote_wonders ask ◌>>=◌
  promote_wonders-AllSound campaign_id wonders s fresh = both _ _ (
      (promote_each-Sound v (v.list_knowledge s.tick) campaign_id wonders).at
        (record s { tick = s.tick + 1 }) (rw fresh tt))
    where
      both :
          (r : Result AutopilotError ℕ) (t : AutopilotState)
          → Holds
              (λ _ t. AllSound v (v.list_knowledge s.tick) t.writes)
              (λ _ t. AllSound v (v.list_knowledge s.tick) t.writes)
              r
              t
          → AllSound v (v.list_knowledge s.tick) t.writes
      both (ok n) t h = h
      both (err e) t h = h
