-- ===== src/Coordinator/Runs.antt =====
-- The steps of a coordinator and of its tasks, in any order, from the recovery after a restart on.
use wander_mind.Prelude.{
  ℕ, ◌≤◌, ◌<◌, Text, true, false, ◌≡◌, refl, sym, ap, ◌∙◌, none, some, List, [], ◌∷◌, ◌++◌, ◌==◌,
  contains, length, if◌then◌else◌, Bool-cases, inl, inr, arith, ==_iff,
}
use wander_mind.Exec.{ok, gets, ◌>>=◌}
use wander_mind.Models.Session.{WanderSession}
use wander_mind.Models.Thought.{Seed}
use wander_mind.Repositories.Store.{get, replaced}
use wander_mind.Repositories.Store.Laws.{get-append}
use wander_mind.Repositories.Store.Pages.{list-all}
use wander_mind.Repositories.Bundle.{WanderSession_entity}
use wander_mind.Coordinator.{
  Coordinator, end_task, submit, cancel_task, fail_task, begin_task, stop, recover,
}
use wander_mind.Coordinator.Marks.{unfinished}
use wander_mind.Coordinator.Steps.{
  Attended, true-ne-false, submit-Attended, end_task-Attended, cancel_task-Attended,
  fail_task-Attended, begin_task-Attended,
}
use wander_mind.Coordinator.Orphans.{saved-Attended, stop-Answered}
use wander_mind.Coordinator.Recovery.{
  restarted, Recovering, recover_each-Recovering, submit-contains, submit-keeps, submit-rest,
}

-- `create` of a session that the engine has made, before its task is submitted.
unfoldable pub appended : WanderSession → Coordinator → Coordinator
appended session s = record s { sessions = s.sessions ++ session ∷ [] }

-- What may happen next. A run of the engine saves its session while its task runs, and returns with a
-- session that is not unfinished. A run outside the coordinator, which `POST /wander`, a default mode
-- thought and a reconsidered wonder make, creates a session of `direct` and saves it, and has no task.
pub data Step (now : ℕ → ℕ) (direct : List ℕ) (slots : ℕ) (s : Coordinator)
    : Coordinator → Type 0 where
  create_step :
      (session : WanderSession)
      → get session.id s.sessions ≡ none
      → Step now direct slots s (submit session.id (appended session s))
  submit_step : (id : ℕ) → Step now direct slots s (submit id s)
  stop_step : (id : ℕ) → Step now direct slots s (stop now id s).1
  begin_step :
      (id : ℕ)
      → contains s.tasks id ≡ true
      → length s.running < slots
      → Step now direct slots s (begin_task now id s)
  save_step :
      (session : WanderSession)
      → contains s.running session.id ≡ true
      → Step now direct slots s (record s { sessions = replaced session s.sessions })
  return_step :
      (id : ℕ)
      → contains s.running id ≡ true
      → unfinished (get id s.sessions) ≡ false
      → Step now direct slots s (end_task id s)
  raise_step :
      (id : ℕ) (reason : Text)
      → contains s.running id ≡ true
      → Step now direct slots s (fail_task now id reason s)
  outside_create_step :
      (session : WanderSession)
      → contains direct session.id ≡ true
      → get session.id s.sessions ≡ none
      → Step now direct slots s (appended session s)
  outside_save_step :
      (session : WanderSession)
      → contains direct session.id ≡ true
      → Step now direct slots s (record s { sessions = replaced session s.sessions })
  cancel_step :
      (id : ℕ) → contains s.tasks id ≡ true → Step now direct slots s (cancel_task now id s)

pub data Steps (now : ℕ → ℕ) (direct : List ℕ) (slots : ℕ) (s : Coordinator)
    : Coordinator → Type 0 where
  done : Steps now direct slots s s
  next :
      {t u : Coordinator}
      → Steps now direct slots s t
      → Step now direct slots t u
      → Steps now direct slots s u

created-Attended :
    (direct : List ℕ) (slots : ℕ) (x : WanderSession) (s : Coordinator)
    → get x.id s.sessions ≡ none
    → Attended direct slots s
    → Attended direct slots (submit x.id (appended x s))
unfolding appended
created-Attended direct slots x s free h =
    let t = appended x s in
    let (same, running, up) = submit-rest x.id t in
    record {
      attended = λ k own going. elim (Bool-cases (x.id == k)) [
        | inl e ↦ submit-contains x.id k t e
        | inr e ↦ submit-keeps x.id k t (
            h.attended k own (
              ap unfinished (sym (ap (get k) same ∙ get-append k s.sessions x free ∙ other k e))
              ∙ going))
      ];
      slots_left = rw running h.slots_left;
      alive = λ k runs.
          submit-keeps x.id k t
            (h.alive k (ap (λ (xs : List ℕ). contains xs k) (sym running) ∙ runs));
      up = up ∙ h.up;
    }
  where
    other :
        (k : ℕ)
        → (x.id == k) ≡ false
        → (if x.id == k then some x else get k s.sessions) ≡ get k s.sessions
    other k e = rw e refl

outside-Attended :
    (direct : List ℕ) (slots : ℕ) (x : WanderSession) (s : Coordinator)
    → contains direct x.id ≡ true
    → get x.id s.sessions ≡ none
    → Attended direct slots s
    → Attended direct slots (appended x s)
unfolding appended
outside-Attended direct slots x s outside free h = record {
  attended = λ k own going. elim (Bool-cases (x.id == k)) [
    | inl e ↦ absurd (
        true-ne-false (ap (λ (j : ℕ). contains direct j) (sym ((==_iff x.id k).0 e)) ∙ outside) own)
    | inr e ↦
        h.attended k own (ap unfinished (sym (get-append k s.sessions x free ∙ other k e)) ∙ going)
  ];
  slots_left = h.slots_left;
  alive = h.alive;
  up = h.up;
}
  where
    other :
        (k : ℕ)
        → (x.id == k) ≡ false
        → (if x.id == k then some x else get k s.sessions) ≡ get k s.sessions
    other k e = rw e refl

Step-Attended :
    (now : ℕ → ℕ) (direct : List ℕ) (slots : ℕ) (s t : Coordinator)
    → Step now direct slots s t
    → Attended direct slots s
    → Attended direct slots t
Step-Attended now direct slots s _ (Step.create_step x free) h =
    created-Attended direct slots x s free h
Step-Attended now direct slots s _ (Step.submit_step id) h = submit-Attended direct slots id s h
Step-Attended now direct slots s _ (Step.stop_step id) h = (stop-Answered now direct slots id s h).1
Step-Attended now direct slots s _ (Step.begin_step id waits room) h =
    begin_task-Attended direct slots now id s waits room h
Step-Attended now direct slots s _ (Step.save_step x runs) h =
    saved-Attended direct slots x s (λ own. h.alive x.id runs) h
Step-Attended now direct slots s _ (Step.outside_create_step x outside free) h =
    outside-Attended direct slots x s outside free h
Step-Attended now direct slots s _ (Step.outside_save_step x outside) h =
    saved-Attended direct slots x s (λ own. absurd (true-ne-false outside own)) h
Step-Attended now direct slots s _ (Step.return_step id runs over) h =
    end_task-Attended direct slots id s h over
Step-Attended now direct slots s _ (Step.raise_step id reason runs) h =
    fail_task-Attended direct slots now id reason s h
Step-Attended now direct slots s _ (Step.cancel_step id waits) h =
    cancel_task-Attended direct slots now id s h

Steps-Attended :
    (now : ℕ → ℕ) (direct : List ℕ) (slots : ℕ) (s t : Coordinator)
    → Steps now direct slots s t
    → Attended direct slots s
    → Attended direct slots t
Steps-Attended now direct slots s _ Steps.done h = h
Steps-Attended now direct slots s _ (Steps.next {t} {u} steps step) h =
    Step-Attended now direct slots t u step (Steps-Attended now direct slots s t steps h)

module _ (sessions : List WanderSession) (seeds : List Seed) where
  recover-Recovering :
      length sessions ≤ 10000
      → ((recover (restarted sessions seeds)).0 ≡ ok tt)
        × Recovering [] (recover (restarted sessions seeds)).1
  unfolding recover gets ◌>>=◌
  recover-Recovering room = rw (list-all 10000 sessions room) (
      recover_each-Recovering sessions (restarted sessions seeds) (record {
        pending = λ k going. inr going;
        stored = λ k there. there;
        idle = refl;
        up = refl;
      }))

  recover-Attended :
      (direct : List ℕ) (slots : ℕ)
      → length sessions ≤ 10000
      → Attended direct slots (recover (restarted sessions seeds)).1
  unfolding get unfinished contains
  recover-Attended direct slots room =
      let r = (recover-Recovering room).1 in
      record {
        attended = λ k own going. elim (r.pending k going) [
          | inl there ↦ there
          | inr never ↦ ground (arith, never)
        ];
        slots_left = rw r.idle (omega arith);
        alive = λ k runs. ground (arith, rw r.idle at runs);
        up = r.up;
      }

  -- After a restart with at most 10000 sessions stored, the recovery returns, and whatever steps follow,
  -- users' calls, tasks and runs outside the coordinator in any order, short of a shutdown: every
  -- unfinished session but those that runs outside have made since has a task, no more tasks run than
  -- there are slots, and each task that runs is one of the dictionary.
  pub recovered-Attended :
      (now : ℕ → ℕ) (direct : List ℕ) (slots : ℕ) (s : Coordinator)
      → length sessions ≤ 10000
      → Steps now direct slots (recover (restarted sessions seeds)).1 s
      → ((recover (restarted sessions seeds)).0 ≡ ok tt) × Attended direct slots s
  recovered-Attended now direct slots s room steps = (
    (recover-Recovering room).0,
    Steps-Attended now direct slots (recover (restarted sessions seeds)).1 s steps
        (recover-Attended direct slots room),
  )
