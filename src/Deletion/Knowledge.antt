-- ===== src/Deletion/Knowledge.antt =====
-- What `delete_knowledge` leaves in the stores.
use wander_mind.Prelude.{
  ℕ, Bool, true, ◌||◌, none, ◌≡◌, refl, ap, ◌∙◌, ◌==◌, is_some, length, ◌≤◌, if◌then◌else◌, arith,
}
use wander_mind.Exec.{ok, gets, modify, ◌>>=◌, bind_ok}
use wander_mind.Models.Thought.{Seed}
use wander_mind.Models.Graph.{KnowledgeEdge}
use wander_mind.Repositories.Store.{get, removed, delete}
use wander_mind.Repositories.Store.Laws.{IsKeyed, get-removed, IsKeyed-removed}
use wander_mind.Deletion.Pages.{points_at, refers_to-points_at, update_each-page}
use wander_mind.Repositories.Each.{delete_each, update_each, without, changed}
use wander_mind.Repositories.Each.Laws.{
  delete_each-select, update_each-all, delete_each-IsKeyed, update_each-keeps,
}
use wander_mind.Repositories.Bundle.{
  RepositoryBundle, touches, list_for_item, refers_to, KnowledgeItem_entity, KnowledgeEdge_entity,
  Seed_entity, Wonder_entity, Candidate_entity, WanderSession_entity, Feedback_entity,
  RuntimeSession_entity,
}
use wander_mind.Deletion.{
  listing_limit, unlink_seed, unlink_seeds, delete_edges, delete_item, delete_present_knowledge,
  delete_knowledge,
}

-- Keys apart, and few enough seeds to be listed.
pub record KnowledgeKeyed (s : RepositoryBundle) : Type 0 where
  pub knowledge : IsKeyed s.knowledge
  pub graph : IsKeyed s.graph
  pub seeds : IsKeyed s.seeds
  pub room : length s.seeds ≤ listing_limit

-- The item is gone with its edges, its seeds have lost it, and all else is as it was.
pub record KnowledgeGone (item_id : ℕ) (s s' : RepositoryBundle) : Type 0 where
  pub knowledge : (k : ℕ) → get k s'.knowledge ≡ (if item_id == k then none else get k s.knowledge)
  pub graph :
      (k : ℕ)
      → get k s'.graph
        ≡ without
            (λ (x : KnowledgeEdge). x.source_id == item_id || x.target_id == item_id)
            (get k s.graph)
  pub seeds :
      (k : ℕ)
      → get k s'.seeds
        ≡ changed
            (λ (x : Seed). points_at item_id x.source_item_id)
            (λ (x : Seed). record x { source_item_id = none })
            (get k s.seeds)
  pub others : s' ≡ record s { knowledge = s'.knowledge; graph = s'.graph; seeds = s'.seeds }

abbrev from_item : ℕ → Seed → Bool
unfolding refers_to
from_item item_id x = refers_to item_id x.source_item_id

abbrev after_delete : ℕ → RepositoryBundle → RepositoryBundle
unfolding delete_each list_for_item update_each unlink_seed removed
after_delete item_id s = record s {
  knowledge = removed item_id s.knowledge;
  graph = delete_each (list_for_item item_id s.graph) s.graph;
  seeds = (update_each (from_item item_id) unlink_seed s.seeds s.seeds).1;
}

unlink_seed_id : (x : Seed) → (unlink_seed x).id ≡ x.id
unfolding unlink_seed
unlink_seed_id x = refl

unlink_seeds-returns :
    (item_id : ℕ) (s : RepositoryBundle)
    → KnowledgeKeyed s
    → unlink_seeds item_id s ≡ (
      ok tt,
      record s { seeds = (update_each (from_item item_id) unlink_seed s.seeds s.seeds).1 },
    )
unfolding unlink_seeds
unlink_seeds-returns item_id s h =
    ap (λ r. (r.0, record s { seeds = r.1 }))
      (update_each-page (from_item item_id) unlink_seed unlink_seed_id listing_limit s.seeds h.seeds
        h.room)

delete_edges-Keyed :
    (item_id : ℕ) (s : RepositoryBundle)
    → KnowledgeKeyed s
    → KnowledgeKeyed (delete_edges item_id s)
unfolding delete_edges
delete_edges-Keyed item_id s h = record {
  knowledge = h.knowledge;
  graph = delete_each-IsKeyed (list_for_item item_id s.graph) s.graph h.graph;
  seeds = h.seeds;
  room = h.room;
}

delete_knowledge-returns :
    (item_id : ℕ) (s : RepositoryBundle)
    → KnowledgeKeyed s
    → is_some (get item_id s.knowledge) ≡ true
    → delete_knowledge item_id s ≡ (ok true, after_delete item_id s)
unfolding delete_knowledge delete_present_knowledge delete_edges delete_item ◌>>=◌ modify gets
    after_delete delete
delete_knowledge-returns item_id s h there = rw there (
    bind_ok (unlink_seeds item_id) (λ r. delete_item item_id) (delete_edges item_id s) _ tt
      (unlink_seeds-returns item_id (delete_edges item_id s) (delete_edges-Keyed item_id s h))
    ∙ rw there refl)

after_delete-Gone :
    (item_id : ℕ) (s : RepositoryBundle)
    → KnowledgeKeyed s
    → KnowledgeGone item_id s (after_delete item_id s)
unfolding list_for_item after_delete removed from_item unlink_seed touches
after_delete-Gone item_id s h = record {
  knowledge = λ k. get-removed k item_id s.knowledge;
  graph = λ k. delete_each-select (touches item_id) k s.graph h.graph;
  seeds = λ k.
      (update_each-all (from_item item_id) unlink_seed unlink_seed_id s.seeds h.seeds).1 k
      ∙ ap (λ p. changed p unlink_seed (get k s.seeds))
          (λ i x. refers_to-points_at item_id x.source_item_id i);
  others = refl;
}

after_delete-Keyed :
    (item_id : ℕ) (s : RepositoryBundle)
    → KnowledgeKeyed s
    → KnowledgeKeyed (after_delete item_id s)
unfolding after_delete removed list_for_item
after_delete-Keyed item_id s h =
    let (keyed, same) = update_each-keeps (from_item item_id) unlink_seed s.seeds s.seeds h.seeds in
    record {
      knowledge = IsKeyed-removed item_id s.knowledge h.knowledge;
      graph = delete_each-IsKeyed (list_for_item item_id s.graph) s.graph h.graph;
      seeds = keyed;
      room = omega (arith, same, h.room);
    }

-- In stores whose keys are apart, with at most 10000 seeds, the deletion of a stored item returns
-- true; the item is gone, and so are exactly the edges at it, exactly the seeds that came from it
-- lose their source, and every other entry and store is as it was; and keys are still apart.
pub delete_knowledge-Gone :
    (item_id : ℕ) (s : RepositoryBundle)
    → KnowledgeKeyed s
    → is_some (get item_id s.knowledge) ≡ true
    → ((delete_knowledge item_id s).0 ≡ ok true)
      × KnowledgeGone item_id s (delete_knowledge item_id s).1
      × KnowledgeKeyed (delete_knowledge item_id s).1
delete_knowledge-Gone item_id s h there =
    rw (delete_knowledge-returns item_id s h there)
      (refl, after_delete-Gone item_id s h, after_delete-Keyed item_id s h)
