-- ===== src/Deletion.antt =====
-- `DataDeletionService` of backend/src/wandermind/application/deletion_service.py, over the in-memory
-- repositories.
pub mod Pages
pub mod Knowledge
pub mod Wonders
pub mod Loops
pub mod Sessions
use wander_mind.Prelude.{
  ℕ, Bool, false, Option, none, some, List, [], ◌∷◌, ◌==◌, is_some, if◌then◌else◌,
}
use wander_mind.Exec.{ok, Exec, pure, gets, modify, ◌>>=◌, ◌>>◌}
use wander_mind.Models.Thought.{Seed, Candidate, Wonder}
use wander_mind.Models.Graph.{Feedback}
use wander_mind.Models.Runtime.{RuntimeSession}
use wander_mind.Repositories.Store.{StoreError, get, delete, list, select}
use wander_mind.Repositories.Each.{delete_each, update_each}
use wander_mind.Repositories.Bundle.{
  RepositoryBundle, list_for_item, list_for_wonder, refers_to, KnowledgeItem_entity,
  KnowledgeEdge_entity, Seed_entity, Wonder_entity, Candidate_entity, WanderSession_entity,
  Feedback_entity, RuntimeSession_entity,
}

abbrev pub Deleter : Type 0 → Type 0
Deleter A = Exec StoreError RepositoryBundle A

-- `limit=10_000` of every listing.
abbrev pub listing_limit : ℕ
listing_limit = 10000

unfoldable pub unlink_seed : Seed → Seed
unlink_seed seed = record seed { source_item_id = none }

unfoldable pub unlink_child : Wonder → Wonder
unlink_child child = record child { parent_wonder_id = none }

unfoldable pub unlink_runtime_session : RuntimeSession → RuntimeSession
unlink_runtime_session session = record session { wander_session_id = none }

-- The graph's edges at an item.
unfoldable pub delete_edges : ℕ → RepositoryBundle → RepositoryBundle
unfolding delete_each list_for_item
delete_edges item_id s = record s { graph = delete_each (list_for_item item_id s.graph) s.graph }

unfoldable pub unlink_seeds : ℕ → Deleter (Unit {0})
unfolding update_each unlink_seed refers_to list
unlink_seeds item_id s =
    let (r, seeds) =
      update_each (λ (x : Seed). refers_to item_id x.source_item_id) unlink_seed
        (list 0 listing_limit s.seeds) s.seeds in
    (r, record s { seeds = seeds })

unfoldable pub delete_item : ℕ → Deleter Bool
unfolding delete
delete_item item_id s =
    let (knowledge, found) = delete item_id s.knowledge in
    (ok found, record s { knowledge = knowledge })

unfoldable pub delete_present_knowledge : ℕ → Deleter Bool
unfolding delete_edges unlink_seeds delete_item
delete_present_knowledge item_id = do
  modify (delete_edges item_id)
  unlink_seeds item_id
  delete_item item_id

unfoldable pub delete_knowledge : ℕ → Deleter Bool
unfolding delete_present_knowledge get
delete_knowledge item_id = do
  s ← gets (λ (s : RepositoryBundle). s)
  if is_some (get item_id s.knowledge) then delete_present_knowledge item_id else pure false

unfoldable pub delete_feedback_of : ℕ → RepositoryBundle → RepositoryBundle
unfolding delete_each list_for_wonder
delete_feedback_of wonder_id s = record s {
  feedback = delete_each (list_for_wonder wonder_id s.feedback) s.feedback;
}

unfoldable pub unlink_children : ℕ → Deleter (Unit {0})
unfolding update_each unlink_child refers_to list
unlink_children wonder_id s =
    let (r, wonders) =
      update_each (λ (x : Wonder). refers_to wonder_id x.parent_wonder_id) unlink_child
        (list 0 listing_limit s.wonders) s.wonders in
    (r, record s { wonders = wonders })

unfoldable pub delete_stored_wonder : ℕ → Deleter Bool
unfolding delete
delete_stored_wonder wonder_id s =
    let (wonders, found) = delete wonder_id s.wonders in (ok found, record s { wonders = wonders })

unfoldable pub delete_present_wonder : ℕ → Deleter Bool
unfolding delete_feedback_of unlink_children delete_stored_wonder
delete_present_wonder wonder_id = do
  modify (delete_feedback_of wonder_id)
  unlink_children wonder_id
  delete_stored_wonder wonder_id

unfoldable pub delete_wonder : ℕ → Deleter Bool
unfolding delete_present_wonder get
delete_wonder wonder_id = do
  s ← gets (λ (s : RepositoryBundle). s)
  if is_some (get wonder_id s.wonders) then delete_present_wonder wonder_id else pure false

unfoldable pub matches_wonder : ℕ → Option Feedback → Bool
matches_wonder wonder_id none = false
matches_wonder wonder_id (some feedback) = feedback.wonder_id == wonder_id

unfoldable pub delete_stored_feedback : ℕ → Deleter Bool
unfolding delete
delete_stored_feedback feedback_id s =
    let (feedback, found) = delete feedback_id s.feedback in
    (ok found, record s { feedback = feedback })

unfoldable pub delete_feedback : ℕ → ℕ → Deleter Bool
unfolding matches_wonder delete_stored_feedback get
delete_feedback wonder_id feedback_id = do
  s ← gets (λ (s : RepositoryBundle). s)
  if matches_wonder wonder_id (get feedback_id s.feedback)
      then delete_stored_feedback feedback_id
      else pure false

-- The loop over the wonders that were listed.
unfoldable pub delete_wonders : ℕ → List Wonder → Deleter (Unit {0})
unfolding delete_wonder
delete_wonders session_id [] = pure tt
delete_wonders session_id (wonder ∷ wonders) = do
  if wonder.session_id == session_id then (do delete_wonder wonder.id; pure tt) else pure tt
  delete_wonders session_id wonders

unfoldable pub delete_candidates : ℕ → RepositoryBundle → RepositoryBundle
unfolding delete_each select list
delete_candidates session_id s = record s {
  candidates =
      delete_each
        (select (λ (c : Candidate). c.session_id == session_id) (list 0 listing_limit s.candidates))
        s.candidates;
}

unfoldable pub unlink_runtime_sessions : ℕ → Deleter (Unit {0})
unfolding update_each unlink_runtime_session refers_to list
unlink_runtime_sessions session_id s =
    let (r, runtime_sessions) =
      update_each (λ (x : RuntimeSession). refers_to session_id x.wander_session_id)
        unlink_runtime_session (list 0 listing_limit s.runtime_sessions) s.runtime_sessions in
    (r, record s { runtime_sessions = runtime_sessions })

unfoldable pub delete_stored_session : ℕ → Deleter Bool
unfolding delete
delete_stored_session session_id s =
    let (sessions, found) = delete session_id s.sessions in
    (ok found, record s { sessions = sessions })

unfoldable pub delete_present_session : ℕ → Deleter Bool
unfolding delete_wonders delete_candidates unlink_runtime_sessions delete_stored_session
delete_present_session session_id = do
  s ← gets (λ (s : RepositoryBundle). s)
  delete_wonders session_id (list 0 listing_limit s.wonders)
  modify (delete_candidates session_id)
  unlink_runtime_sessions session_id
  delete_stored_session session_id

unfoldable pub delete_session : ℕ → Deleter Bool
unfolding delete_present_session get
delete_session session_id = do
  s ← gets (λ (s : RepositoryBundle). s)
  if is_some (get session_id s.sessions) then delete_present_session session_id else pure false
