-- ===== src/Autopilot/Operations.antt =====
-- Any sequence of what users and the loop do to the autopilot.
use wander_mind.Prelude.{Text, Option, List, [], ◌∷◌}
use wander_mind.Exec.{Result, ok, err, pure}
use wander_mind.Exec.Triple.{Holds}
use wander_mind.Models.Enums.{AutopilotStatus}
use wander_mind.Models.Budget.{WanderBudget}
use wander_mind.Autopilot.State.{Services, Pilot, AutopilotState, AutopilotError}
use wander_mind.Autopilot.Cycle.{tick_locked}
use wander_mind.Autopilot.Control.{
  start_or_resume, update_objective, set_terminal_control, record_loop_error, recover, poll,
}
use wander_mind.Autopilot.Frame.{Keeps-bind, Keeps-campaign}
use wander_mind.Autopilot.Accounts.{
  Kept, Accounted, tick_locked-Kept, resume_campaign-Kept, update_campaign-Kept, halt_campaign-Kept,
  record_error-Kept,
}

-- `start_or_resume`, `update_objective`, `pause`, `stop` and a round of `_loop`.
pub data PilotOperation : Type 0 where
  resume : Option Text → Option WanderBudget → PilotOperation
  change_objective : Text → PilotOperation
  pause stop round : PilotOperation

module _ (v : Services) (message : AutopilotError → Text) where
  unfoldable pub perform : PilotOperation → Pilot (Unit {0})
  perform (resume objective budget) = start_or_resume v objective budget
  perform (change_objective objective) = update_objective v objective
  perform pause = set_terminal_control v AutopilotStatus.paused
  perform stop = set_terminal_control v AutopilotStatus.stopped
  perform round = poll v message

  -- An operation that raises leaves what it has saved.
  unfoldable pub perform_all : List PilotOperation → AutopilotState → AutopilotState
  unfolding perform
  perform_all [] s = s
  perform_all (operation ∷ operations) s = perform_all operations (perform operation s).1

  record_loop_error-Kept : (text : Text) → Kept (record_loop_error v text)
  unfolding record_loop_error
  record_loop_error-Kept text =
      Keeps-campaign Accounted _ (λ s h. record_error-Kept v text s.campaign h)

  either :
      (r : Result AutopilotError (Unit {0})) (s : AutopilotState)
      → Holds (λ _ t. Accounted t.campaign) (λ _ t. Accounted t.campaign) r s
      → Accounted s.campaign
  either (ok _) s h = h
  either (err e) s h = h

  recovered :
      (r : Result AutopilotError (Unit {0})) (s : AutopilotState)
      → Holds (λ _ t. Accounted t.campaign) (λ _ t. Accounted t.campaign) r s
      → Holds
          (λ _ t. Accounted t.campaign)
          (λ _ t. Accounted t.campaign)
          (recover v message r s).0
          (recover v message r s).1
  unfolding pure
  recovered (ok _) s h = h
  recovered (err e) s h = (record_loop_error-Kept (message e)).at s h

  poll-Kept : Kept (poll v message)
  unfolding poll
  poll-Kept = record {
    at = λ s h. let (r, s') = tick_locked v s in recovered r s' ((tick_locked-Kept v).at s h);
  }

  perform-Kept : (operation : PilotOperation) → Kept (perform operation)
  unfolding perform start_or_resume update_objective set_terminal_control
  perform-Kept (resume objective budget) = Keeps-campaign Accounted _ λ s h.
      Keeps-bind Accounted _ _ (resume_campaign-Kept v objective budget s.campaign h)
        (λ _. tick_locked-Kept v)
  perform-Kept (change_objective objective) =
      Keeps-campaign Accounted _ (λ s h. update_campaign-Kept v objective s.campaign h)
  perform-Kept pause =
      Keeps-campaign Accounted _ (λ s h. halt_campaign-Kept v AutopilotStatus.paused s.campaign h)
  perform-Kept stop =
      Keeps-campaign Accounted _ (λ s h. halt_campaign-Kept v AutopilotStatus.stopped s.campaign h)
  perform-Kept round = poll-Kept

  -- If the completed cycles of a campaign and the one that runs are at first no more than the cycles
  -- that were started, they are so after any sequence of operations, of which any may raise.
  pub perform_all-Accounted :
      (operations : List PilotOperation) (s : AutopilotState)
      → Accounted s.campaign
      → Accounted (perform_all operations s).campaign
  unfolding perform_all
  perform_all-Accounted [] s h = h
  perform_all-Accounted (operation ∷ operations) s h =
      let (r, s') = perform operation s in
      perform_all-Accounted operations s' (either r s' ((perform-Kept operation).at s h))
