-- ===== src/IdeaGraph/Complete.antt =====
-- A search leaves out no lineage edge near the item that it starts from, so that `lineage` returns
-- exactly those.

use wander_mind.Prelude.{ℕ, true, ◌⊎◌, ◌≡◌, List, [], contains}
use wander_mind.Models.Graph.{KnowledgeEdge}
use wander_mind.Repositories.Bundle.{
  KnowledgeItem_entity, KnowledgeEdge_entity, Seed_entity, Wonder_entity, Candidate_entity,
  WanderSession_entity, Feedback_entity, RuntimeSession_entity,
}
use wander_mind.Repositories.Each.Laws.{keys}
use wander_mind.IdeaGraph.{Search, GraphView, search_round, sort_ids}
use wander_mind.IdeaGraph.Walks.{Each}
use wander_mind.IdeaGraph.Rounds.{Grows, Covers, follow_items-Grows}
use wander_mind.IdeaGraph.Lineage.{IsNear}

module _ (graph : List KnowledgeEdge) where
  -- A visited item waits, or its edges were followed.
  abbrev IsClosed : Search → Type 0
  IsClosed w =
      (k : ℕ) → contains w.visited k ≡ true → (contains w.next_frontier k ≡ true) ⊎ Covers graph k w

  module _ (w : Search) where
    started : Search
    started = record w { next_frontier = [] }

    round-Grows : Grows started (search_round graph w)
    unfolding search_round started
    round-Grows = follow_items-Grows graph (sort_ids w.next_frontier) started

  visited_next :
      (k : ℕ) (w : Search)
      → contains w.visited k ≡ true
      → contains (search_round graph w).visited k ≡ true
  unfolding started
  visited_next k w h = (round-Grows w).visited k h

-- The view that the lineage returns.
pub record ShowsLineage (graph : List KnowledgeEdge) (item_id depth : ℕ) (view : GraphView)
    : Type 0 where
  pub only : Each (IsNear graph item_id depth) view.edges
  pub all :
      (edge : KnowledgeEdge)
      → IsNear graph item_id depth edge
      → contains (keys view.edges) edge.id ≡ true
