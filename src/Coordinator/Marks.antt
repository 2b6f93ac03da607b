-- ===== src/Coordinator/Marks.antt =====
-- What marking a session as stopped or as failed leaves in the store.
use wander_mind.Prelude.{
  ℕ, Text, Bool, true, false, ◌≡◌, refl, sym, ap, ◌∙◌, Option, none, some, ◌==◌, is_some,
  Bool-cases, inl, inr, arith, ◌+◌,
}
use wander_mind.Exec.{ok, pure, gets, modify, ◌>>=◌}
use wander_mind.Models.Enums.{SessionStatus}
use wander_mind.Models.Session.{WanderSession}
use wander_mind.Repositories.Store.{get, update, replaced}
use wander_mind.Repositories.Store.Laws.{get-id, get-replaced}
use wander_mind.Repositories.Bundle.{WanderSession_entity}
use wander_mind.Coordinator.{
  Coordinator, is_unfinished, is_settled, saved_session, save_session, stopped_session,
  failed_session, tick, stop_stored, mark_stopped, mark_failed,
}

unfoldable pub unfinished : Option WanderSession → Bool
unfolding is_unfinished
unfinished none = false
unfinished (some session) = is_unfinished session.status

-- The session with the id is not unfinished any more, and nothing else has changed but the clock.
pub record Settles (id : ℕ) (s s' : Coordinator) : Type 0 where
  pub settled : unfinished (get id s'.sessions) ≡ false
  pub others : (k : ℕ) → (id == k) ≡ false → get k s'.sessions ≡ get k s.sessions
  pub tasks : s'.tasks ≡ s.tasks
  pub running : s'.running ≡ s.running
  pub shutting_down : s'.shutting_down ≡ s.shutting_down

pub save_session-returns :
    (x : WanderSession) (s : Coordinator)
    → is_some (get x.id s.sessions) ≡ true
    → save_session x s ≡ (ok x, record s { sessions = replaced x s.sessions })
unfolding save_session saved_session update
save_session-returns x s h = rw h refl

pub get-replaced_same :
    (x : WanderSession) (s : Coordinator)
    → is_some (get x.id s.sessions) ≡ true
    → get x.id (replaced x s.sessions) ≡ some x
get-replaced_same x s h = ground (arith, h, get-replaced x.id x s.sessions)

pub get-replaced_other :
    (x : WanderSession) (s : Coordinator) (k : ℕ)
    → (x.id == k) ≡ false
    → get k (replaced x s.sessions) ≡ get k s.sessions
get-replaced_other x s k h = ground (arith, h, get-replaced k x s.sessions)

-- A finished session saved over the one with its id.
saved-Settles :
    (x : WanderSession) (n : ℕ) (s : Coordinator)
    → is_some (get x.id s.sessions) ≡ true
    → is_unfinished x.status ≡ false
    → Settles x.id s (record s { sessions = replaced x s.sessions; asked = n })
unfolding unfinished
saved-Settles x n s there over = record {
  settled = rw (get-replaced_same x s there) over;
  others = λ k other. get-replaced_other x s k other;
  tasks = refl;
  running = refl;
  shutting_down = refl;
}

pub is_settled-over :
    (status : SessionStatus) → is_settled status ≡ true → is_unfinished status ≡ false
unfolding is_settled is_unfinished
is_settled-over SessionStatus.pending h = ground (arith, h)
is_settled-over SessionStatus.running h = ground (arith, h)
is_settled-over SessionStatus.completed h = refl
is_settled-over SessionStatus.stopped h = refl
is_settled-over SessionStatus.failed h = refl

module _ (now : ℕ → ℕ) where
  -- Marking a session as stopped returns what is then stored.
  pub record StopResult (id : ℕ) (s : Coordinator) : Type 0 where
    pub settles : Settles id s (mark_stopped now id s).1
    pub returned : (mark_stopped now id s).0 ≡ ok (get id (mark_stopped now id s).1.sessions)

  pub mark_failed-Settles :
      (x : WanderSession) (reason : Text) (s : Coordinator)
      → is_some (get x.id s.sessions) ≡ true
      → Settles x.id s (mark_failed now x reason s).1
  unfolding mark_failed failed_session tick is_unfinished ◌>>=◌ gets modify
  mark_failed-Settles x reason s there =
      let y = failed_session (now s.asked) reason x in
      rw (save_session-returns y (tick now s) there) (saved-Settles y (s.asked + 1) s there refl)

  pub mark_stopped-StopResult : (id : ℕ) (s : Coordinator) → StopResult id s
  unfolding mark_stopped stop_stored unfinished stopped_session tick is_unfinished ◌>>=◌ gets modify
      pure
  mark_stopped-StopResult id s = by_stored (get id s.sessions) refl
    where
      by_stored : (o : Option WanderSession) → get id s.sessions ≡ o → StopResult id s
      by_stored none e = record {
        settles = rw e (record {
          settled = rw e refl;
          others = λ k h. refl;
          tasks = refl;
          running = refl;
          shutting_down = refl;
        });
        returned = rw e (rw e refl);
      }
      by_stored (some x) e = elim (Bool-cases (is_settled x.status)) [
        | inl over ↦ record {
          settles =
              rw (e, over)
                (record {
                  settled = rw e (is_settled-over x.status over);
                  others = λ k h. refl;
                  tasks = refl;
                  running = refl;
                  shutting_down = refl;
                });
          returned = rw (e, over) (rw e refl);
        }
        | inr going ↦
            let y = stopped_session (now s.asked) x in
            let same = get-id id s.sessions x e in
            let there = ap (λ k. is_some (get k s.sessions)) same ∙ ap is_some e in
            let saved = save_session-returns y (tick now s) there in
            record {
              settles =
                  rw (e, going, saved) (rw (sym same) (saved-Settles y (s.asked + 1) s there refl));
              returned =
                  rw (e, going, saved) (rw (sym same) (ap ok (sym (get-replaced_same y s there))));
            }
      ]
