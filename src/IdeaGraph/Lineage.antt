-- ===== src/IdeaGraph/Lineage.antt =====
-- A search finds only lineage edges near the item that it starts from.

use wander_mind.Prelude.{
  ℕ, zero, suc, ◌+◌, ◌≤◌, ◌<◌, true, inl, inr, ◌≡◌, List, [], ◌∷◌, is_empty, contains, Bool-cases,
  arith,
}
use wander_mind.Models.Graph.{KnowledgeEdge}
use wander_mind.Repositories.Bundle.{
  touches, list_for_item, KnowledgeItem_entity, KnowledgeEdge_entity, Seed_entity, Wonder_entity,
  Candidate_entity, WanderSession_entity, Feedback_entity, RuntimeSession_entity,
}
use wander_mind.IdeaGraph.{
  Search, is_lineage, adjacent_id, discover, follow_edge, follow_edges, follow_items, search_round,
  search, sort_ids,
}
use wander_mind.IdeaGraph.Walks.{
  LineageAt, Walk, Each, Each-imp, set_default-Each, select-Each, sort_ids-Each,
}

-- What may be found (`P`) and what may wait (`Q`).
module _ (P : KnowledgeEdge → Type 0) (Q : ℕ → Type 0) where
  pub record Justified (w : Search) : Type 0 where
    pub found : Each P w.found
    pub waiting : Each Q w.next_frontier

  discover-Justified : (a : ℕ) (w : Search) → Q a → Justified w → Justified (discover a w)
  unfolding discover
  discover-Justified a w q h = elim (Bool-cases (contains w.visited a)) [
    | inl e ↦ rw e h
    | inr e ↦ rw e (record { found = h.found; waiting = (q, h.waiting) })
  ]

  follow_edge-Justified :
      (c : ℕ) (edge : KnowledgeEdge) (w : Search)
      → (is_lineage edge ≡ true → P edge × Q (adjacent_id c edge))
      → Justified w
      → Justified (follow_edge c edge w)
  unfolding follow_edge
  follow_edge-Justified c edge w pq h = elim (Bool-cases (is_lineage edge)) [
    | inl e ↦ rw e (
        discover-Justified (adjacent_id c edge) _ (pq e).1 (record {
          found = set_default-Each P edge w.found (pq e).0 h.found;
          waiting = h.waiting;
        }))
    | inr e ↦ rw e h
  ]

  follow_edges-Justified :
      (c : ℕ) (edges : List KnowledgeEdge) (w : Search)
      → Each (λ (e : KnowledgeEdge). is_lineage e ≡ true → P e × Q (adjacent_id c e)) edges
      → Justified w
      → Justified (follow_edges c edges w)
  unfolding follow_edges
  follow_edges-Justified c [] w each h = h
  follow_edges-Justified c (e ∷ edges) w each h =
      follow_edges-Justified c edges (follow_edge c e w) each.1
        (follow_edge-Justified c e w each.0 h)

  follow_items-Justified :
      (graph : List KnowledgeEdge) (ids : List ℕ) (w : Search)
      → Each (λ (c : ℕ). (e : KnowledgeEdge) → LineageAt graph c e → P e × Q (adjacent_id c e)) ids
      → Justified w
      → Justified (follow_items graph ids w)
  unfolding follow_items list_for_item
  follow_items-Justified graph [] w each h = h
  follow_items-Justified graph (c ∷ ids) w each h =
      let at =
        Each-imp _ (λ (e : KnowledgeEdge). is_lineage e ≡ true → P e × Q (adjacent_id c e))
          (λ e m l. each.0 e (record { stored = m.0; lineage = l; touching = m.1 })) _
          (select-Each (touches c) graph) in
      follow_items-Justified graph ids _ each.1
        (follow_edges-Justified c (list_for_item c graph) w at h)

one_step_more :
    (graph : List KnowledgeEdge) (a n b : ℕ) (e : KnowledgeEdge)
    → Walk graph a n b
    → LineageAt graph b e
    → Walk graph a (suc n) (adjacent_id b e)
one_step_more graph a zero b e Walk.stay at = Walk.step e at Walk.stay
one_step_more graph a (suc n) b e (Walk.step f fat w) at =
    Walk.step f fat (one_step_more graph (adjacent_id a f) n b e w at)

-- A lineage edge at an item that fewer than `depth` steps from `item_id` lead to.
pub record IsNear (graph : List KnowledgeEdge) (item_id depth : ℕ) (edge : KnowledgeEdge)
    : Type 0 where
  pub end : ℕ
  pub steps : ℕ
  pub within : steps < depth
  pub walk : Walk graph item_id steps end
  pub at_end : LineageAt graph end edge

module _ (graph : List KnowledgeEdge) (item_id depth : ℕ) where
  pub search-IsNear :
      (n d : ℕ) (w : Search)
      → d + n ≤ depth
      → Justified (IsNear graph item_id depth) (Walk graph item_id d) w
      → Each (IsNear graph item_id depth) (search graph n w).found
  unfolding search search_round
  search-IsNear zero d w le h = h.found
  search-IsNear (suc n) d w le h =
      elim (Bool-cases (is_empty (search_round graph w).next_frontier)) [
        | inl e ↦ rw e (next.found)
        | inr e ↦ rw e (search-IsNear n (suc d) (search_round graph w) (omega (arith, le)) next)
      ]
    where
      next :
          Justified (IsNear graph item_id depth) (Walk graph item_id (suc d)) (search_round graph w)
      next =
          follow_items-Justified _ _ graph (sort_ids w.next_frontier) _
            (sort_ids-Each _ w.next_frontier (
              Each-imp _ _
                (λ c walk e at. (
                  record {
                    end = c;
                    steps = d;
                    within = omega (arith, le);
                    walk = walk;
                    at_end = at;
                  },
                  one_step_more graph item_id d c e walk at,
                ))
                w.next_frontier h.waiting))
            (record { found = h.found; waiting = tt })
