-- ===== src/IdeaGraph/Links.antt =====
-- The ends of stored edges: what the creation of edges by the graph service and the deletion of
-- knowledge keep.
use wander_mind.Prelude.{
  ℕ, true, false, ◌⊎◌, inl, inr, ◌≡◌, refl, ap, ◌∙◌, Option, none, some, List, [], ◌∷◌, ◌++◌, ◌==◌,
  is_some, if◌then◌else◌, Bool-cases, arith,
}
use wander_mind.Exec.{pure, gets, ◌>>=◌}
use wander_mind.Models.Graph.{KnowledgeEdge}
use wander_mind.Models.Thought.{KnowledgeItem}
use wander_mind.Repositories.Store.{get, create}
use wander_mind.Repositories.Store.Laws.{get-append, IsKeyed-append}
use wander_mind.Repositories.Each.{without}
use wander_mind.Repositories.Bundle.{
  RepositoryBundle, touches, KnowledgeItem_entity, KnowledgeEdge_entity, Seed_entity, Wonder_entity,
  Candidate_entity, WanderSession_entity, Feedback_entity, RuntimeSession_entity,
}
use wander_mind.Deletion.{delete_knowledge}
use wander_mind.Deletion.Knowledge.{KnowledgeKeyed, delete_knowledge-Gone}
use wander_mind.IdeaGraph.{create_linked_edge, require_item, found_item, store_edge, created_edge}

-- The two services' calls that add or remove an edge or an item; what raises is dropped.
pub data GraphCall : Type 0 where
  create_edge_call : KnowledgeEdge → GraphCall
  delete_knowledge_call : ℕ → GraphCall

unfoldable pub run_call : GraphCall → RepositoryBundle → RepositoryBundle
unfolding create_linked_edge delete_knowledge
run_call (create_edge_call edge) s = (create_linked_edge edge s).1
run_call (delete_knowledge_call item_id) s = (delete_knowledge item_id s).1

unfoldable pub run_calls : List GraphCall → RepositoryBundle → RepositoryBundle
unfolding run_call
run_calls [] s = s
run_calls (call ∷ calls) s = run_calls calls (run_call call s)

-- Both ends of an edge are stored.
abbrev pub Linked : List KnowledgeItem → Option KnowledgeEdge → Type 0
Linked knowledge none = Unit
Linked knowledge (some edge) =
    (is_some (get edge.source_id knowledge) ≡ true)
    × (is_some (get edge.target_id knowledge) ≡ true)

-- Every stored edge has both ends, and keys are apart.
pub record IsLinked (s : RepositoryBundle) : Type 0 where
  pub linked : (k : ℕ) → Linked s.knowledge (get k s.graph)
  pub keyed : KnowledgeKeyed s

Linked-without :
    (item_id : ℕ) (knowledge knowledge' : List KnowledgeItem)
    → ((k : ℕ) → get k knowledge' ≡ (if item_id == k then none else get k knowledge))
    → (o : Option KnowledgeEdge) → Linked knowledge o
    → Linked knowledge' (without (touches item_id) o)
unfolding touches
Linked-without item_id knowledge knowledge' gone none h = tt
Linked-without item_id knowledge knowledge' gone (some edge) h =
    elim (Bool-cases (touches item_id edge)) [
      | inl e ↦ rw e tt
      | inr e ↦ rw e (stays edge.source_id (source e) h.0, stays edge.target_id (target e) h.1)
    ]
  where
    source : touches item_id edge ≡ false → (item_id == edge.source_id) ≡ false
    source e = ground (arith, e)

    target : touches item_id edge ≡ false → (item_id == edge.target_id) ≡ false
    target e = ground (arith, e)

    stays :
        (k : ℕ)
        → (item_id == k) ≡ false
        → is_some (get k knowledge) ≡ true
        → is_some (get k knowledge') ≡ true
    stays k other there = ap is_some (gone k) ∙ rw other there

missing_deletion :
    (item_id : ℕ) (s : RepositoryBundle)
    → is_some (get item_id s.knowledge) ≡ false
    → (delete_knowledge item_id s).1 ≡ s
unfolding delete_knowledge ◌>>=◌ gets pure
missing_deletion item_id s h = rw h refl

delete_knowledge-IsLinked :
    (item_id : ℕ) (s : RepositoryBundle) → IsLinked s → IsLinked (delete_knowledge item_id s).1
unfolding touches
delete_knowledge-IsLinked item_id s h = elim (Bool-cases (is_some (get item_id s.knowledge))) [
  | inl there ↦
      let (returns, gone, keyed) = delete_knowledge-Gone item_id s h.keyed there in
      record {
        linked = λ k.
            rw (gone.graph k)
              (Linked-without item_id s.knowledge _ gone.knowledge (get k s.graph) (h.linked k));
        keyed = keyed;
      }
  | inr missing ↦ rw (missing_deletion item_id s missing) h
]

Linked-appended :
    (knowledge : List KnowledgeItem) (graph : List KnowledgeEdge) (edge : KnowledgeEdge)
    → get edge.id graph ≡ none
    → Linked knowledge (some edge)
    → (k : ℕ) → Linked knowledge (get k graph)
    → Linked knowledge (get k (graph ++ edge ∷ []))
Linked-appended knowledge graph edge free new k h =
    rw (get-append k graph edge free)
      (elim (Bool-cases (edge.id == k)) [ inl e ↦ rw e new | inr e ↦ rw e h ])

Option-cases : {A : Type 0} → (o : Option A) → (is_some o ≡ true) ⊎ (o ≡ none)
Option-cases none = inr refl
Option-cases (some a) = inl refl

store_edge-IsLinked :
    (edge : KnowledgeEdge) (s : RepositoryBundle)
    → Linked s.knowledge (some edge)
    → IsLinked s
    → IsLinked (store_edge edge s).1
unfolding store_edge created_edge create
store_edge-IsLinked edge s new h = elim (Option-cases (get edge.id s.graph)) [
  | inl taken ↦ rw taken h
  | inr free ↦ rw free (record {
    linked = λ k. Linked-appended s.knowledge s.graph edge free new k (h.linked k);
    keyed = record {
      knowledge = h.keyed.knowledge;
      graph = IsKeyed-append s.graph edge free h.keyed.graph;
      seeds = h.keyed.seeds;
      room = h.keyed.room;
    };
  })
]

create_linked_edge-IsLinked :
    (edge : KnowledgeEdge) (s : RepositoryBundle)
    → IsLinked s
    → IsLinked (create_linked_edge edge s).1
unfolding create_linked_edge require_item found_item ◌>>=◌
create_linked_edge-IsLinked edge s h =
    by_ends (get edge.source_id s.knowledge) (get edge.target_id s.knowledge) refl refl
  where
    by_ends :
        (source target : Option KnowledgeItem)
        → get edge.source_id s.knowledge ≡ source
        → get edge.target_id s.knowledge ≡ target
        → IsLinked (create_linked_edge edge s).1
    by_ends none target e f = rw e h
    by_ends (some a) none e f = rw (e, f) h
    by_ends (some a) (some b) e f =
        rw (e, f) (store_edge-IsLinked edge s (ap is_some e, ap is_some f) h)

-- From stores in which every edge has both ends, whatever sequence of edge creations and knowledge
-- deletions is called, refused ones included, every stored edge has both ends and keys are apart.
pub run_calls-IsLinked :
    (calls : List GraphCall) (s : RepositoryBundle) → IsLinked s → IsLinked (run_calls calls s)
unfolding run_calls run_call
run_calls-IsLinked [] s h = h
run_calls-IsLinked (create_edge_call edge ∷ calls) s h =
    run_calls-IsLinked calls _ (create_linked_edge-IsLinked edge s h)
run_calls-IsLinked (delete_knowledge_call item_id ∷ calls) s h =
    run_calls-IsLinked calls _ (delete_knowledge-IsLinked item_id s h)
