-- ===== src/Engine/Safety/Runs.antt =====
-- What a run promises its caller, whatever its components answer.
use wander_mind.Models.Thought.{Seed}
use wander_mind.Models.Enums.{CognitiveState}
use wander_mind.Engine.Safety.Bodies.{body-Moves, Returned}
use wander_mind.Models.Budget.{WanderBudget}
use wander_mind.Engine.Safety.Invariant.{Raised, At, IsIndexed}
use wander_mind.Engine.Finish.{WanderRunResult}
use wander_mind.Engine.Components.{Components}
use wander_mind.Engine.Safety.Explored.{OneCall}
use wander_mind.Engine.Run.{run_guarded, body, rethrow, start, run_session, run}
use wander_mind.Engine.Prepare.{prepare, initial_state, is_resuming, load}
use wander_mind.Engine.State.{RunState, save_session, session_row, ask}
use wander_mind.Engine.Safety.Finished.{Failed, handle_error-Failed}
use wander_mind.Models.Session.{
  WanderError, invalid_state_transition, WanderSession, is_terminal_status,
}
use wander_mind.Prelude.{
  inl, inr, refl, ◌≡◌, ◌≢◌, ◌≤◌, true, ℕ, Bool, length, is_empty, Bool-cases, ==_iff, Option, arith,
  ◌⊎◌, ◌∷◌, false, if◌then◌else◌, ◌+◌, some,
}
use wander_mind.Exec.{Result, ok, err, ◌>>=◌}
use wander_mind.Exec.Triple.{Holds}
use wander_mind.Models.Enums.CognitiveState.{idle}

-- A session that a run may take up: its trace is numbered, a session with no steps is idle, and the
-- counters of its last checkpoint and its stored candidates keep to its budget.
pub record IsCheckpoint (w : Components) (session : WanderSession) : Type 0 where
  pub idle_if_new : is_empty session.trace.steps ≡ true → session.state ≡ idle
  pub indexed : IsIndexed session.trace.steps
  pub moves : session.metadata.wander_moves ≤ session.budget.max_steps
  pub switches : session.metadata.patch_switches ≤ session.budget.max_patch_switches
  pub calls : session.metadata.runtime_calls_used ≤ session.budget.max_runtime_calls
  pub candidates :
      (t : ℕ) → length (w.candidates_for_session t session.id) ≤ session.budget.max_candidates

-- An exception leaves a failed session, and is no illegal move.
pub record FailedLegally (b : WanderBudget) (e : WanderError) (s : RunState) : Type 0 where
  pub legal : e ≢ invalid_state_transition
  pub failed : Failed b e s

module _ (w : Components) (b : WanderBudget) where
  rethrown :
      (r : Result WanderError WanderRunResult) (s : RunState)
      → Holds (Returned b) (Raised b) r s
      → Holds (Returned b) (FailedLegally b) (rethrow w r s).0 (rethrow w r s).1
  rethrown (ok result) s h = h
  rethrown (err e) s h = record { legal = h.legal; failed = handle_error-Failed w e s h }

  run_guarded-Holds :
      OneCall w
      → (resuming : Bool) (s : RunState) → At b (0, 0) idle s
      → Holds
          (Returned b)
          (FailedLegally b)
          (run_guarded w resuming s).0
          (run_guarded w resuming s).1
  unfolding run_guarded
  run_guarded-Holds one resuming s h =
      let (r, s') = body w resuming s in rethrown r s' ((body-Moves w one resuming).at s h)

module _ (w : Components) where
  resumed_idle :
      (session : WanderSession)
      → IsCheckpoint w session
      → (is_empty session.trace.steps ≡ true) ⊎ (is_empty session.trace.steps ≡ false)
      → (if is_resuming session then idle else session.state) ≡ idle
  unfolding is_resuming
  resumed_idle session h (inl e) = rw (e, h.idle_if_new e)
  resumed_idle session h (inr e) = rw e

  -- What is loaded and checked before the `try` gives the invariant of its body.
  prepared :
      (now : ℕ) (s : RunState)
      → IsCheckpoint w s.session
      → length s.candidates ≤ s.session.budget.max_candidates
      → At s.session.budget (0, 0) idle (prepare now s)
  unfolding prepare
  prepared now s h c = record {
    machine = refl;
    state = resumed_idle s.session h (Bool-cases (is_empty s.session.trace.steps));
    running = refl;
    indexed = h.indexed;
    bounds = ground arith;
  }

  saved_At :
      {b : WanderBudget} {m : CognitiveState} {s : RunState}
      → At b (0, 0) m s
      → At b (0, 0) m (record s { writes = session_row s.session ∷ s.writes })
  saved_At h = ground arith

  started :
      (s : RunState)
      → OneCall w
      → IsCheckpoint w s.session
      → length s.candidates ≤ s.session.budget.max_candidates
      → Holds
          (Returned s.session.budget)
          (FailedLegally s.session.budget)
          (start w s).0
          (start w s).1
  unfolding start ◌>>=◌ ask save_session
  started s one h c =
      run_guarded-Holds w s.session.budget one (is_resuming s.session) _
        (saved_At (prepared (w.now s.tick) (record s { tick = s.tick + 1 }) h c))

  -- Where a synthesis and a review report one runtime call at most, a run that takes up a checkpoint of
  -- its seed that has not ended, whatever its components answer, does one of two things. It returns: the session is `stopped` with the status `completed` or `stopped`, an
  -- end, a reason and a numbered trace, it is what was saved last, and the wonders are ranked. Or it
  -- raises: never for an illegal move, and with the session saved as `failed`, state and status,
  -- with an end and the error as the reason. Either way candidates, steps, patch switches and
  -- runtime calls keep to the budget.
  pub run_ends :
      (seed : Seed) (budget : Option WanderBudget) (session : WanderSession)
      → OneCall w
      → IsCheckpoint w session
      → session.seed_id ≡ seed.id
      → is_terminal_status session.status ≡ false
      → Holds
          (Returned session.budget)
          (FailedLegally session.budget)
          (run w seed budget (some session)).0
          (run w seed budget (some session)).1
  unfolding run run_session initial_state load ◌>>=◌ ask
  run_ends seed budget session one h same open_ =
      rw ((==_iff session.seed_id seed.id).1 same, open_) (started _ one h (h.candidates 0))
