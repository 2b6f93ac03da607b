-- ===== src/Deletion/Sessions.antt =====
-- What `delete_session` leaves in the stores.
use wander_mind.Prelude.{
  ℕ, Bool, true, Option, none, some, ◌≡◌, refl, ap, ◌∙◌, ◌==◌, is_some, length, ◌≤◌, if◌then◌else◌,
  Bool-cases, inl, inr,
}
use wander_mind.Exec.{ok, gets, modify, ◌>>=◌, ◌>>◌, bind_ok}
use wander_mind.Models.Thought.{Wonder, Candidate}
use wander_mind.Models.Runtime.{RuntimeSession}
use wander_mind.Repositories.Store.{get, removed, delete, list, select}
use wander_mind.Repositories.Store.Laws.{IsKeyed, get-removed}
use wander_mind.Repositories.Store.Pages.{list-all}
use wander_mind.Repositories.Each.{delete_each, update_each, without, changed}
use wander_mind.Repositories.Each.Laws.{
  keys, holds, contains-select, delete_each-select, update_each-all,
}
use wander_mind.Repositories.Bundle.{
  RepositoryBundle, refers_to, KnowledgeItem_entity, KnowledgeEdge_entity, Seed_entity,
  Wonder_entity, Candidate_entity, WanderSession_entity, Feedback_entity, RuntimeSession_entity,
}
use wander_mind.Deletion.{
  Deleter, listing_limit, unlink_runtime_session, unlink_runtime_sessions, delete_wonders,
  delete_candidates, delete_stored_session, delete_present_session, delete_session,
}
use wander_mind.Deletion.Pages.{points_at, refers_to-points_at, update_each-page}
use wander_mind.Deletion.Wonders.{WondersKeyed}
use wander_mind.Deletion.Loops.{owner, Pruned, in_session, Prunes, delete_wonders-Prunes}

-- Keys apart, and room for every store that is listed.
pub record SessionKeyed (s : RepositoryBundle) : Type 0 where
  pub wonders : WondersKeyed s
  pub candidates : IsKeyed s.candidates
  pub candidate_room : length s.candidates ≤ listing_limit
  pub runtime_sessions : IsKeyed s.runtime_sessions
  pub runtime_room : length s.runtime_sessions ≤ listing_limit

-- The session is gone with its wonders and candidates, its runtime sessions have lost it, and other
-- stores are as they were. Of the wonders that stay, it is said that they stay in their session.
pub record SessionGone (session_id : ℕ) (s s' : RepositoryBundle) : Type 0 where
  pub sessions : (k : ℕ) → get k s'.sessions ≡ (if session_id == k then none else get k s.sessions)
  pub wonders :
      (k : ℕ) → owner (get k s'.wonders) ≡ owner (without (in_session session_id) (get k s.wonders))
  pub candidates :
      (k : ℕ)
      → get k s'.candidates
        ≡ without (λ (c : Candidate). c.session_id == session_id) (get k s.candidates)
  pub runtime_sessions :
      (k : ℕ)
      → get k s'.runtime_sessions
        ≡ changed
            (λ (x : RuntimeSession). points_at session_id x.wander_session_id)
            (λ (x : RuntimeSession). record x { wander_session_id = none })
            (get k s.runtime_sessions)
  pub others : s' ≡ record s {
    wonders = s'.wonders;
    feedback = s'.feedback;
    candidates = s'.candidates;
    runtime_sessions = s'.runtime_sessions;
    sessions = s'.sessions;
  }

abbrev candidate_of : ℕ → Candidate → Bool
candidate_of session_id c = c.session_id == session_id

abbrev run_for : ℕ → RuntimeSession → Bool
unfolding refers_to
run_for session_id x = refers_to session_id x.wander_session_id

unlink_id : (x : RuntimeSession) → (unlink_runtime_session x).id ≡ x.id
unfolding unlink_runtime_session
unlink_id x = refl

-- The state after the loop over the wonders, and from there to the end.
abbrev after_finish : ℕ → RepositoryBundle → RepositoryBundle
unfolding delete_each select update_each unlink_runtime_session removed
after_finish session_id t = record t {
  candidates = delete_each (select (candidate_of session_id) t.candidates) t.candidates;
  runtime_sessions =
      (update_each (run_for session_id) unlink_runtime_session t.runtime_sessions
        t.runtime_sessions).1;
  sessions = removed session_id t.sessions;
}

abbrev finish : ℕ → Deleter Bool
unfolding delete_candidates unlink_runtime_sessions delete_stored_session
finish session_id = do
  modify (delete_candidates session_id)
  unlink_runtime_sessions session_id
  delete_stored_session session_id

-- What the last stages read of the state.
record Tail (s t : RepositoryBundle) : Type 0 where
  pub candidates : t.candidates ≡ s.candidates
  pub runtime_sessions : t.runtime_sessions ≡ s.runtime_sessions
  pub sessions : t.sessions ≡ s.sessions

finish-returns :
    (session_id : ℕ) (t : RepositoryBundle)
    → SessionKeyed t
    → is_some (get session_id t.sessions) ≡ true
    → finish session_id t ≡ (ok true, after_finish session_id t)
unfolding finish after_finish delete_candidates unlink_runtime_sessions delete_stored_session delete
    select ◌>>=◌ modify
finish-returns session_id t h there =
    bind_ok (unlink_runtime_sessions session_id) (λ r. delete_stored_session session_id)
      (delete_candidates session_id t) _ tt
      (ap (λ r. (r.0, record (delete_candidates session_id t) { runtime_sessions = r.1 }))
        (update_each-page (run_for session_id) unlink_runtime_session unlink_id listing_limit
          t.runtime_sessions h.runtime_sessions h.runtime_room))
    ∙ rw (there, list-all listing_limit t.candidates h.candidate_room) refl

module _ (session_id : ℕ) (s t : RepositoryBundle)
    (same : t ≡ record s { wonders = t.wonders; feedback = t.feedback }) where
  tail-Keyed : WondersKeyed t → SessionKeyed s → SessionKeyed t
  tail-Keyed w h = record {
    wonders = w;
    candidates = rw (ap (λ x. x.candidates) same) h.candidates;
    candidate_room = rw (ap (λ x. x.candidates) same) h.candidate_room;
    runtime_sessions = rw (ap (λ x. x.runtime_sessions) same) h.runtime_sessions;
    runtime_room = rw (ap (λ x. x.runtime_sessions) same) h.runtime_room;
  }

  wonders_left :
      WondersKeyed s
      → Pruned (keys (select (in_session session_id) (list 0 listing_limit s.wonders))) s t
      → (k : ℕ)
      → owner (get k t.wonders) ≡ owner (without (in_session session_id) (get k s.wonders))
  wonders_left h p k =
      p.wonders k
      ∙ rw
          (
            list-all listing_limit s.wonders h.room,
            contains-select (in_session session_id) k s.wonders h.wonders,
          )
          (split (get k s.wonders))
    where
      split :
          (o : Option Wonder)
          → (if holds (in_session session_id) o then none else owner o)
            ≡ owner (without (in_session session_id) o)
      split none = refl
      split (some w) = elim (Bool-cases (in_session session_id w)) [
        | inl e ↦ rw e refl
        | inr e ↦ rw e refl
      ]

  after_finish-Gone :
      SessionKeyed s
      → Pruned (keys (select (in_session session_id) (list 0 listing_limit s.wonders))) s t
      → SessionGone session_id s (after_finish session_id t)
  unfolding after_finish removed run_for unlink_runtime_session
  after_finish-Gone h p = record {
    sessions = λ k.
        get-removed k session_id t.sessions
        ∙ ap (λ (x : RepositoryBundle). if session_id == k then none else get k x.sessions) same;
    wonders = wonders_left h.wonders p;
    candidates = λ k.
        delete_each-select (candidate_of session_id) k t.candidates keyed.candidates
        ∙ ap (λ (x : RepositoryBundle). without (candidate_of session_id) (get k x.candidates))
            same;
    runtime_sessions = λ k.
        (update_each-all (run_for session_id) unlink_runtime_session unlink_id t.runtime_sessions
            keyed.runtime_sessions).1
          k
        ∙ ap
            (λ (x : RepositoryBundle).
              changed (run_for session_id) unlink_runtime_session (get k x.runtime_sessions))
            same
        ∙ ap (λ p. changed p unlink_runtime_session (get k s.runtime_sessions))
            (λ i x. refers_to-points_at session_id x.wander_session_id i);
    others =
        ap
          (λ (x : RepositoryBundle). record x {
            candidates = (after_finish session_id t).candidates;
            runtime_sessions = (after_finish session_id t).runtime_sessions;
            sessions = (after_finish session_id t).sessions;
          })
          same;
  }
    where
      keyed : SessionKeyed t
      keyed = tail-Keyed p.keyed h

-- In stores whose keys are apart, with at most 10000 wonders, candidates and runtime sessions, the
-- deletion of a stored session returns true; the session is gone, no wonder or candidate of it
-- remains, those of other sessions do, exactly its runtime sessions lose it, and every other store
-- but the feedback is as it was.
pub delete_session-Gone :
    (session_id : ℕ) (s : RepositoryBundle)
    → SessionKeyed s
    → is_some (get session_id s.sessions) ≡ true
    → ((delete_session session_id s).0 ≡ ok true)
      × SessionGone session_id s (delete_session session_id s).1
unfolding delete_session delete_present_session Prunes ◌>>=◌ gets
delete_session-Gone session_id s h there =
    let page = list 0 listing_limit s.wonders in
    let t = (delete_wonders session_id page s).1 in
    let (returned, p) = delete_wonders-Prunes session_id page s h.wonders in
    let found =
      ap (λ (x : RepositoryBundle). is_some (get session_id x.sessions)) p.others ∙ there in
    let run =
      bind_ok (delete_wonders session_id page) (λ r. finish session_id) s t tt
        (λ i. (returned i, t))
      ∙ finish-returns session_id t (tail-Keyed session_id s t p.others p.keyed h) found in
    rw (there, run) (refl, after_finish-Gone session_id s t p.others h p)
