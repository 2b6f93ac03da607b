-- ===== src/Coordinator.antt =====
-- `WanderCoordinator` of backend/src/wandermind/application/wander_coordinator.py: background tasks that
-- run sessions, at most one for each session and so many at a time. A task is known by the id of its
-- session: it waits for a slot, holds one, or is done and gone. What happens between two awaits of a
-- task is one operation here.
pub mod Marks
pub mod Steps
pub mod Orphans
pub mod Recovery
pub mod Runs
use wander_mind.Prelude.{
  ℕ, Text, text, Bool, true, false, Option, none, some, List, [], ◌∷◌, ◌==◌, ◌+◌, contains,
  if◌then◌else◌,
}
use wander_mind.Exec.{Result, ok, err, Exec, pure, gets, modify, ◌>>=◌, ◌>>◌}
use wander_mind.Models.Enums.{SessionStatus, CognitiveState}
use wander_mind.Models.Thought.{Seed}
use wander_mind.Models.Session.{WanderSession, manual_stop, background_failure, is_terminal_status}
use wander_mind.Repositories.Store.{StoreError, get, update, list}
use wander_mind.Repositories.Bundle.{WanderSession_entity, Seed_entity}

-- `tasks` are those that are not done, `running` those of them that hold a slot; `asked` counts the
-- questions to the clock.
pub record Coordinator : Type 0 where
  pub sessions : List WanderSession
  pub seeds : List Seed
  pub tasks : List ℕ
  pub running : List ℕ
  pub shutting_down : Bool
  pub asked : ℕ

abbrev pub Coordinating : Type 0 → Type 0
Coordinating A = Exec StoreError Coordinator A

-- `status in {SessionStatus.PENDING, SessionStatus.RUNNING}`
unfoldable pub is_unfinished : SessionStatus → Bool
is_unfinished SessionStatus.pending = true
is_unfinished SessionStatus.running = true
is_unfinished _ = false

-- `status in {SessionStatus.COMPLETED, SessionStatus.FAILED}`
unfoldable pub is_settled : SessionStatus → Bool
is_settled SessionStatus.completed = true
is_settled SessionStatus.failed = true
is_settled _ = false

unfoldable pub without_id : ℕ → List ℕ → List ℕ
without_id id [] = []
without_id id (x ∷ xs) = let rest = without_id id xs in if x == id then rest else x ∷ rest

-- A task that is done: it gives its slot back and `_discard` takes it out of the dictionary.
unfoldable pub end_task : ℕ → Coordinator → Coordinator
unfolding without_id
end_task id s = record s { tasks = without_id id s.tasks; running = without_id id s.running }

unfoldable pub submit : ℕ → Coordinator → Coordinator
unfolding contains
submit id s = if contains s.tasks id then s else record s { tasks = id ∷ s.tasks }

unfoldable pub saved_session :
    WanderSession → Result StoreError (List WanderSession) → Coordinating WanderSession
saved_session session (ok sessions) s = (ok session, record s { sessions = sessions })
saved_session session (err error) s = (err error, s)

unfoldable pub save_session : WanderSession → Coordinating WanderSession
unfolding saved_session update
save_session session s = saved_session session (update session s.sessions) s

unfoldable pub stopped_session : ℕ → WanderSession → WanderSession
stopped_session time session = record session {
  ended_at = some time;
  state = CognitiveState.stopped;
  status = SessionStatus.stopped;
  trace = record (session.trace) { stop_reason = some manual_stop };
  metadata = record (session.metadata) { cancel_requested = true };
}

unfoldable pub failed_session : ℕ → Text → WanderSession → WanderSession
failed_session time reason session = record session {
  ended_at = some time;
  state = CognitiveState.failed;
  status = SessionStatus.failed;
  trace = record (session.trace) { stop_reason = some (background_failure reason) };
}

unfoldable pub cancel_requested_session : WanderSession → WanderSession
cancel_requested_session session = record session {
  metadata = record (session.metadata) { cancel_requested = true };
}

unfoldable pub recovered_session : WanderSession → WanderSession
recovered_session session = record session {
  metadata = record (session.metadata) { recovered_after_restart = true };
}

module _ (now : ℕ → ℕ) where
  unfoldable pub tick : Coordinator → Coordinator
  tick s = record s { asked = s.asked + 1 }

  unfoldable pub stop_stored : Option WanderSession → Coordinating (Option WanderSession)
  unfolding is_settled stopped_session save_session tick
  stop_stored none = pure none
  stop_stored (some session) = if is_settled session.status then pure (some session) else (do
    s ← gets (λ (s : Coordinator). s)
    modify tick
    stored ← save_session (stopped_session (now s.asked) session)
    pure (some stored))

  -- `_mark_stopped`
  unfoldable pub mark_stopped : ℕ → Coordinating (Option WanderSession)
  unfolding stop_stored get
  mark_stopped id = do s ← gets (λ (s : Coordinator). s); stop_stored (get id s.sessions)

  -- `_mark_failed`
  unfoldable pub mark_failed : WanderSession → Text → Coordinating WanderSession
  unfolding failed_session save_session tick
  mark_failed session reason = do
    s ← gets (λ (s : Coordinator). s)
    modify tick
    save_session (failed_session (now s.asked) reason session)

  -- The handler of a cancellation in `_execute`.
  unfoldable pub cancel_task : ℕ → Coordinator → Coordinator
  unfolding mark_stopped end_task
  cancel_task id s = end_task id (if s.shutting_down then s else (mark_stopped id s).1)

  unfoldable pub fail_stored : Text → Option WanderSession → Coordinator → Coordinator
  unfolding is_unfinished mark_failed
  fail_stored reason none s = s
  fail_stored reason (some session) s =
      if is_unfinished session.status then (mark_failed session reason s).1 else s

  -- The handler of any other exception.
  unfoldable pub fail_task : ℕ → Text → Coordinator → Coordinator
  unfolding fail_stored get end_task
  fail_task id reason s = end_task id (fail_stored reason (get id s.sessions) s)

  unfoldable pub begin_seeded : WanderSession → Option Seed → Coordinator → Coordinator
  unfolding mark_failed end_task
  begin_seeded session none s =
      end_task session.id (mark_failed session (text "seed_not_found") s).1
  begin_seeded session (some seed) s = s

  unfoldable pub begin_stored : ℕ → Option WanderSession → Coordinator → Coordinator
  unfolding begin_seeded is_terminal_status end_task get
  begin_stored id none s = end_task id s
  begin_stored id (some session) s =
      if is_terminal_status session.status
      then end_task id s
      else begin_seeded session (get session.seed_id s.seeds) s

  -- `_execute` from the slot to the engine's run; the task ends at once where there is nothing to run.
  unfoldable pub begin_task : ℕ → Coordinator → Coordinator
  unfolding begin_stored get
  begin_task id s = begin_stored id (get id s.sessions) (record s { running = id ∷ s.running })

  unfoldable pub stop_unfinished : ℕ → WanderSession → Coordinating (Option WanderSession)
  unfolding cancel_requested_session save_session cancel_task mark_stopped contains
  stop_unfinished id session = do
    save_session (cancel_requested_session session)
    modify (λ (s : Coordinator). if contains s.tasks id then cancel_task id s else s)
    mark_stopped id

  unfoldable pub stop_found : ℕ → Option WanderSession → Coordinating (Option WanderSession)
  unfolding is_unfinished stop_unfinished
  stop_found id none = pure none
  stop_found id (some session) =
      if is_unfinished session.status then stop_unfinished id session else pure (some session)

  unfoldable pub stop : ℕ → Coordinating (Option WanderSession)
  unfolding stop_found get
  stop id = do s ← gets (λ (s : Coordinator). s); stop_found id (get id s.sessions)

-- `recover`, from the list of stored sessions on.
unfoldable pub recover_each : List WanderSession → Coordinating (Unit {0})
unfolding is_unfinished recovered_session save_session submit
recover_each [] = pure tt
recover_each (session ∷ sessions) = do
  if is_unfinished session.status
      then (do save_session (recovered_session session); modify (submit session.id))
      else pure tt
  recover_each sessions

unfoldable pub recover : Coordinating (Unit {0})
unfolding recover_each list
recover = do s ← gets (λ (s : Coordinator). s); recover_each (list 0 10000 s.sessions)

-- `shutdown`: the tasks are cancelled, which marks no session while the coordinator shuts down.
unfoldable pub shutdown : Coordinator → Coordinator
shutdown s = record s { tasks = []; running = []; shutting_down = true }

unfoldable pub is_active : ℕ → Coordinator → Bool
unfolding contains
is_active id s = contains s.tasks id
