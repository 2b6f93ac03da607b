-- ===== src/Deletion/Wonders.antt =====
-- What `delete_wonder` leaves in the stores.
use wander_mind.Prelude.{
  ℕ, Bool, true, Option, none, some, ◌≡◌, refl, ap, ◌∙◌, ◌==◌, is_some, length, ◌≤◌, if◌then◌else◌,
  arith,
}
use wander_mind.Exec.{ok, gets, modify, ◌>>=◌, bind_ok}
use wander_mind.Models.Thought.{Wonder}
use wander_mind.Models.Graph.{Feedback}
use wander_mind.Repositories.Store.{Entity, get, removed, delete}
use wander_mind.Repositories.Store.Laws.{IsKeyed, get-removed, IsKeyed-removed}
use wander_mind.Repositories.Each.{delete_each, update_each, without, changed}
use wander_mind.Repositories.Each.Laws.{
  delete_each-select, update_each-all, delete_each-IsKeyed, update_each-keeps, length-removed,
}
use wander_mind.Repositories.Bundle.{
  RepositoryBundle, list_for_wonder, refers_to, KnowledgeItem_entity, KnowledgeEdge_entity,
  Seed_entity, Wonder_entity, Candidate_entity, WanderSession_entity, Feedback_entity,
  RuntimeSession_entity,
}
use wander_mind.Deletion.{
  listing_limit, unlink_child, unlink_children, delete_feedback_of, delete_stored_wonder,
  delete_present_wonder, delete_wonder,
}
use wander_mind.Deletion.Pages.{points_at, refers_to-points_at, update_each-page}

-- Keys apart, and few enough wonders to be listed.
pub record WondersKeyed (s : RepositoryBundle) : Type 0 where
  pub wonders : IsKeyed s.wonders
  pub feedback : IsKeyed s.feedback
  pub room : length s.wonders ≤ listing_limit

abbrev about : ℕ → Feedback → Bool
about wonder_id f = f.wonder_id == wonder_id

abbrev child_of : ℕ → Wonder → Bool
unfolding refers_to
child_of wonder_id x = refers_to wonder_id x.parent_wonder_id

-- The wonder is gone with its feedback, its children have lost their parent, and all else is as it
-- was.
pub record WonderGone (wonder_id : ℕ) (s s' : RepositoryBundle) : Type 0 where
  pub wonders :
      (k : ℕ)
      → get k s'.wonders ≡ (
          if wonder_id == k
          then none
          else changed
              (λ (x : Wonder). points_at wonder_id x.parent_wonder_id)
              (λ (x : Wonder). record x { parent_wonder_id = none })
              (get k s.wonders))
  pub feedback :
      (k : ℕ)
      → get k s'.feedback ≡ without (λ (f : Feedback). f.wonder_id == wonder_id) (get k s.feedback)
  pub others : s' ≡ record s { wonders = s'.wonders; feedback = s'.feedback }

abbrev after_delete : ℕ → RepositoryBundle → RepositoryBundle
unfolding delete_each list_for_wonder update_each unlink_child removed
after_delete wonder_id s = record s {
  feedback = delete_each (list_for_wonder wonder_id s.feedback) s.feedback;
  wonders = removed wonder_id (update_each (child_of wonder_id) unlink_child s.wonders s.wonders).1;
}

unlink_child_id : (x : Wonder) → (unlink_child x).id ≡ x.id
unfolding unlink_child
unlink_child_id x = refl

unlink_children-returns :
    (wonder_id : ℕ) (s : RepositoryBundle)
    → WondersKeyed s
    → unlink_children wonder_id s ≡ (
      ok tt,
      record s { wonders = (update_each (child_of wonder_id) unlink_child s.wonders s.wonders).1 },
    )
unfolding unlink_children
unlink_children-returns wonder_id s h =
    ap (λ r. (r.0, record s { wonders = r.1 }))
      (update_each-page (child_of wonder_id) unlink_child unlink_child_id listing_limit s.wonders
        h.wonders h.room)

delete_feedback_of-Keyed :
    (wonder_id : ℕ) (s : RepositoryBundle)
    → WondersKeyed s
    → WondersKeyed (delete_feedback_of wonder_id s)
unfolding delete_feedback_of
delete_feedback_of-Keyed wonder_id s h = record {
  wonders = h.wonders;
  feedback = delete_each-IsKeyed (list_for_wonder wonder_id s.feedback) s.feedback h.feedback;
  room = h.room;
}

-- Unlinking keeps an entry in its place.
changed-is_some :
    {A : Type 0} ⦃e : Entity A⦄ (p : A → Bool) (f : A → A) (o : Option A)
    → is_some (changed p f o) ≡ is_some o
changed-is_some p f none = refl
changed-is_some p f (some x) = ground arith

still_there :
    (k wonder_id : ℕ) (s : RepositoryBundle)
    → WondersKeyed s
    → is_some (get k (update_each (child_of wonder_id) unlink_child s.wonders s.wonders).1)
      ≡ is_some (get k s.wonders)
still_there k wonder_id s h =
    ap is_some
      ((update_each-all (child_of wonder_id) unlink_child unlink_child_id s.wonders h.wonders).1 k)
    ∙ changed-is_some (child_of wonder_id) unlink_child (get k s.wonders)

delete_wonder-returns :
    (wonder_id : ℕ) (s : RepositoryBundle)
    → WondersKeyed s
    → is_some (get wonder_id s.wonders) ≡ true
    → delete_wonder wonder_id s ≡ (ok true, after_delete wonder_id s)
unfolding delete_wonder delete_present_wonder delete_feedback_of delete_stored_wonder ◌>>=◌ modify
    gets after_delete delete
delete_wonder-returns wonder_id s h there = rw there (
    bind_ok (unlink_children wonder_id) (λ r. delete_stored_wonder wonder_id)
      (delete_feedback_of wonder_id s) _ tt
      (unlink_children-returns wonder_id (delete_feedback_of wonder_id s)
        (delete_feedback_of-Keyed wonder_id s h))
    ∙ rw (still_there wonder_id wonder_id s h, there) refl)

after_delete-Gone :
    (wonder_id : ℕ) (s : RepositoryBundle)
    → WondersKeyed s
    → WonderGone wonder_id s (after_delete wonder_id s)
unfolding list_for_wonder after_delete removed child_of unlink_child
after_delete-Gone wonder_id s h = record {
  wonders = λ k.
      get-removed k wonder_id (update_each (child_of wonder_id) unlink_child s.wonders s.wonders).1
      ∙ ap (λ (o : Option Wonder). if wonder_id == k then none else o)
          ((update_each-all (child_of wonder_id) unlink_child unlink_child_id s.wonders h.wonders).1
              k
            ∙ ap (λ p. changed p unlink_child (get k s.wonders))
                (λ i x. refers_to-points_at wonder_id x.parent_wonder_id i));
  feedback = λ k. delete_each-select (about wonder_id) k s.feedback h.feedback;
  others = refl;
}

after_delete-Keyed :
    (wonder_id : ℕ) (s : RepositoryBundle)
    → WondersKeyed s
    → WondersKeyed (after_delete wonder_id s)
unfolding after_delete removed list_for_wonder
after_delete-Keyed wonder_id s h =
    let kept = (update_each (child_of wonder_id) unlink_child s.wonders s.wonders).1 in
    let (keyed, same) =
      update_each-keeps (child_of wonder_id) unlink_child s.wonders s.wonders h.wonders in
    record {
      wonders = IsKeyed-removed wonder_id kept keyed;
      feedback = delete_each-IsKeyed (list_for_wonder wonder_id s.feedback) s.feedback h.feedback;
      room = omega (arith, same, h.room, length-removed wonder_id kept);
    }

-- In stores whose keys are apart, with at most 10000 wonders, the deletion of a stored wonder returns
-- true; the wonder is gone, and so is exactly the feedback on it, exactly its children lose their
-- parent, and every other entry and store is as it was; and keys are still apart.
pub delete_wonder-Gone :
    (wonder_id : ℕ) (s : RepositoryBundle)
    → WondersKeyed s
    → is_some (get wonder_id s.wonders) ≡ true
    → ((delete_wonder wonder_id s).0 ≡ ok true)
      × WonderGone wonder_id s (delete_wonder wonder_id s).1
      × WondersKeyed (delete_wonder wonder_id s).1
delete_wonder-Gone wonder_id s h there =
    rw (delete_wonder-returns wonder_id s h there)
      (refl, after_delete-Gone wonder_id s h, after_delete-Keyed wonder_id s h)
