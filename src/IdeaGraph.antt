-- ===== src/IdeaGraph.antt =====
-- `IdeaGraphService` of backend/src/wandermind/application/graph_service.py. `sorted(..., key=str)` of
-- UUIDs is the order of their numbers, and a set of ids is a list without repetition.
pub mod Walks
pub mod Rounds
pub mod Lineage
pub mod Complete
pub mod Links
use wander_mind.Prelude.{
  ℕ, zero, suc, Bool, true, false, Option, none, some, List, [], ◌∷◌, ◌++◌, ◌==◌, is_some, is_empty,
  ltb, contains, insert_new, if◌then◌else◌,
}
use wander_mind.Prelude.Sort.{sort_desc}
use wander_mind.Exec.{Result, ok, err, Exec, gets, ◌>>=◌, ◌>>◌}
use wander_mind.Models.Enums.{RelationType, RelationType-discrete}
use wander_mind.Models.Thought.{KnowledgeItem}
use wander_mind.Models.Graph.{KnowledgeEdge}
use wander_mind.Repositories.Store.{StoreError, get, create, select}
use wander_mind.Repositories.Bundle.{
  RepositoryBundle, list_for_item, KnowledgeItem_entity, KnowledgeEdge_entity, Seed_entity,
  Wonder_entity, Candidate_entity, WanderSession_entity, Feedback_entity, RuntimeSession_entity,
}
use mathlib.Core.Logic.{ite}

-- `NotFoundError` with the id that is missing, and an error of the repository.
pub data GraphError : Type 0 where
  not_found : ℕ → GraphError
  repository_error : StoreError → GraphError

abbrev pub GraphService : Type 0 → Type 0
GraphService A = Exec GraphError RepositoryBundle A

pub record GraphView : Type 0 where
  pub items : List KnowledgeItem
  pub edges : List KnowledgeEdge

-- `relation_type in relation_types`
unfoldable pub in_relations : List RelationType → RelationType → Bool
in_relations [] r = false
in_relations (t ∷ ts) r = ite (RelationType-discrete t r) true (in_relations ts r)

unfoldable pub lineage_relations : List RelationType
lineage_relations =
    RelationType.derived_from ∷ RelationType.evolves_from ∷ RelationType.inspired_by ∷ []

unfoldable pub evidence_relations : List RelationType
evidence_relations = RelationType.evidence_for ∷ RelationType.evidence_against ∷ []

unfoldable pub found_item : ℕ → Option KnowledgeItem → Result GraphError KnowledgeItem
found_item item_id none = err (not_found item_id)
found_item item_id (some item) = ok item

unfoldable pub require_item : ℕ → GraphService KnowledgeItem
unfolding found_item get
require_item item_id s = (found_item item_id (get item_id s.knowledge), s)

unfoldable pub created_edge :
    KnowledgeEdge → Result StoreError (List KnowledgeEdge) → GraphService KnowledgeEdge
created_edge edge (ok graph) s = (ok edge, record s { graph = graph })
created_edge edge (err error) s = (err (repository_error error), s)

unfoldable pub store_edge : KnowledgeEdge → GraphService KnowledgeEdge
unfolding created_edge create
store_edge edge s = created_edge edge (create edge s.graph) s

unfoldable pub create_linked_edge : KnowledgeEdge → GraphService KnowledgeEdge
unfolding require_item store_edge
create_linked_edge edge = do
  require_item edge.source_id
  require_item edge.target_id
  store_edge edge

-- Sorted by the id, in ascending order.
unfoldable pub sort_ids : List ℕ → List ℕ
unfolding sort_desc
sort_ids ids = sort_desc (λ (a b : ℕ). ltb b a) ids

unfoldable pub sort_edges : List KnowledgeEdge → List KnowledgeEdge
unfolding sort_desc
sort_edges edges = sort_desc (λ (a b : KnowledgeEdge). ltb b.id a.id) edges

-- `item_ids`
unfoldable pub endpoint_ids : List ℕ → List KnowledgeEdge → List ℕ
unfolding insert_new
endpoint_ids seen [] = seen
endpoint_ids seen (edge ∷ edges) =
    endpoint_ids (insert_new (insert_new seen edge.source_id) edge.target_id) edges

-- `item_ids - {root_id}`
unfoldable pub other_ids : ℕ → List ℕ → List ℕ
other_ids root_id [] = []
other_ids root_id (a ∷ ids) =
    let rest = other_ids root_id ids in if a == root_id then rest else a ∷ rest

unfoldable pub stored_item : Option KnowledgeItem → List KnowledgeItem → List KnowledgeItem
stored_item none items = items
stored_item (some item) items = item ∷ items

unfoldable pub stored_items : List KnowledgeItem → List ℕ → List KnowledgeItem
unfolding get stored_item
stored_items knowledge [] = []
stored_items knowledge (a ∷ ids) = stored_item (get a knowledge) (stored_items knowledge ids)

-- `_view`
unfoldable pub graph_view : List KnowledgeItem → KnowledgeItem → List KnowledgeEdge → GraphView
unfolding endpoint_ids other_ids stored_items sort_ids sort_edges
graph_view knowledge root edges = record {
  items =
      root
      ∷ stored_items knowledge (sort_ids (other_ids root.id (endpoint_ids (root.id ∷ []) edges)));
  edges = sort_edges edges;
}

-- No relation types, like `None`, keep every edge.
unfoldable pub related : List RelationType → List KnowledgeEdge → List KnowledgeEdge
unfolding select in_relations
related relations edges =
    if is_empty relations
    then edges
    else select (λ (e : KnowledgeEdge). in_relations relations e.relation_type) edges

unfoldable pub neighbors : ℕ → List RelationType → GraphService GraphView
unfolding require_item list_for_item related graph_view
neighbors item_id relations = do
  root ← require_item item_id
  gets (λ (s : RepositoryBundle).
      graph_view s.knowledge root (related relations (list_for_item item_id s.graph)))

unfoldable pub evidence : ℕ → GraphService GraphView
unfolding neighbors evidence_relations
evidence item_id = neighbors item_id evidence_relations

unfoldable pub contradictions : ℕ → GraphService GraphView
unfolding neighbors
contradictions item_id = neighbors item_id (RelationType.contradicts ∷ [])

-- `visited`, `next_frontier` and the values of `edges_by_id`.
pub record Search : Type 0 where
  pub visited : List ℕ
  pub next_frontier : List ℕ
  pub found : List KnowledgeEdge

-- `edges_by_id.setdefault(edge.id, edge)`
unfoldable pub set_default : KnowledgeEdge → List KnowledgeEdge → List KnowledgeEdge
unfolding get
set_default edge found = if is_some (get edge.id found) then found else found ++ edge ∷ []

unfoldable pub adjacent_id : ℕ → KnowledgeEdge → ℕ
adjacent_id current_id edge =
    if edge.source_id == current_id then edge.target_id else edge.source_id

unfoldable pub discover : ℕ → Search → Search
unfolding contains
discover a w =
    if contains w.visited a
    then w
    else record w { visited = a ∷ w.visited; next_frontier = a ∷ w.next_frontier }

unfoldable pub is_lineage : KnowledgeEdge → Bool
unfolding in_relations lineage_relations
is_lineage edge = in_relations lineage_relations edge.relation_type

unfoldable pub follow_edge : ℕ → KnowledgeEdge → Search → Search
unfolding set_default adjacent_id discover is_lineage
follow_edge current_id edge w =
    if is_lineage edge
    then discover (adjacent_id current_id edge) (record w { found = set_default edge w.found })
    else w

unfoldable pub follow_edges : ℕ → List KnowledgeEdge → Search → Search
unfolding follow_edge
follow_edges current_id [] w = w
follow_edges current_id (edge ∷ edges) w =
    follow_edges current_id edges (follow_edge current_id edge w)

-- The loop over the sorted frontier.
unfoldable pub follow_items : List KnowledgeEdge → List ℕ → Search → Search
unfolding follow_edges list_for_item
follow_items graph [] w = w
follow_items graph (current_id ∷ ids) w =
    follow_items graph ids (follow_edges current_id (list_for_item current_id graph) w)

-- One round, from an empty next frontier.
unfoldable pub search_round : List KnowledgeEdge → Search → Search
unfolding follow_items sort_ids
search_round graph w =
    follow_items graph (sort_ids w.next_frontier) (record w { next_frontier = [] })

-- `for _ in range(max_depth)`, which stops where a round finds no new item.
unfoldable pub search : List KnowledgeEdge → ℕ → Search → Search
unfolding search_round
search graph zero w = w
search graph (suc n) w =
    let w' = search_round graph w in
    let rest = search graph n w' in if is_empty w'.next_frontier then w' else rest

unfoldable pub search_from : ℕ → Search
search_from item_id = record { visited = item_id ∷ []; next_frontier = item_id ∷ []; found = [] }

unfoldable pub lineage : ℕ → ℕ → GraphService GraphView
unfolding require_item search search_from graph_view
lineage item_id max_depth = do
  root ← require_item item_id
  gets (λ (s : RepositoryBundle).
      graph_view s.knowledge root (search s.graph max_depth (search_from item_id)).found)
