-- ===== src/Autopilot/Control.antt =====
-- What a user or the loop does to the campaign of `AutopilotSupervisor`
-- (backend/src/wandermind/application/autopilot_service.py).
use wander_mind.Prelude.{ℕ, ◌+◌, ◌*◌, ◌^◌, Text, Option, none, some, min, if◌then◌else◌, ◌∷◌}
use wander_mind.Exec.{Result, ok, err, pure, gets, ◌>>=◌, ◌>>◌}
use wander_mind.Models.Enums.{AutopilotStatus}
use wander_mind.Models.Budget.{WanderBudget, default_budget}
use wander_mind.Models.Session.{WanderSession}
use wander_mind.Models.Campaign.{AutopilotCampaign, loop_error, new_campaign}
use wander_mind.Engine.Review.{given_or}
use wander_mind.Autopilot.State.{
  Services, Pilot, AutopilotState, AutopilotError, campaign_row, stop_requested, ask, write,
}
use wander_mind.Autopilot.Cycle.{is_open, finalize_cycle, save_now, tick_locked}

-- `2 ** min(failures, 6) * 5` seconds, but 300 at most.
unfoldable pub loop_delay : ℕ → ℕ
loop_delay failures = min 300 (2 ^ (min failures 6) * 5)

-- `autopilot_campaigns.create(campaign)`
unfoldable pub create_campaign : AutopilotCampaign → Pilot (Unit {0})
create_campaign campaign s =
    (ok tt, record s { campaign = some campaign; writes = campaign_row campaign ∷ s.writes })

unfoldable pub budget_or : Option WanderBudget → WanderBudget → WanderBudget
budget_or none fallback = fallback
budget_or (some b) fallback = b

module _ (v : Services) where
  unfoldable pub resumed :
      Option Text → Option WanderBudget → ℕ → AutopilotCampaign → AutopilotCampaign
  unfolding given_or budget_or
  resumed objective budget now campaign = record campaign {
    objective = given_or objective campaign.objective;
    budget = budget_or budget campaign.budget;
    status = AutopilotStatus.active;
    next_cycle_at = some now;
    last_error = none;
  }

  unfoldable pub resume_campaign :
      Option Text → Option WanderBudget → Option AutopilotCampaign → Pilot (Unit {0})
  unfolding resumed create_campaign save_now new_campaign
  resume_campaign objective budget none = do
    now ← ask v.utc_now
    id ← ask v.uuid4
    create_campaign (
        new_campaign id (given_or objective v.objective) AutopilotStatus.active
          (budget_or budget (budget_or v.budget default_budget)) (some now) now)
  resume_campaign objective budget (some campaign) = do
    now ← ask v.utc_now
    save_now v (resumed objective budget now campaign)

  unfoldable pub start_or_resume : Option Text → Option WanderBudget → Pilot (Unit {0})
  unfolding resume_campaign tick_locked
  start_or_resume objective budget = do
    s ← gets (λ (s : AutopilotState). s)
    resume_campaign objective budget s.campaign
    tick_locked v

  unfoldable pub update_campaign : Text → Option AutopilotCampaign → Pilot (Unit {0})
  unfolding create_campaign save_now new_campaign
  update_campaign objective none = do
    now ← ask v.utc_now
    id ← ask v.uuid4
    create_campaign (
        new_campaign id objective AutopilotStatus.paused (budget_or v.budget default_budget) none
          now)
  update_campaign objective (some campaign) = save_now v (record campaign { objective = objective })

  unfoldable pub update_objective : Text → Pilot (Unit {0})
  unfolding update_campaign
  update_objective objective = do
    s ← gets (λ (s : AutopilotState). s)
    update_campaign objective s.campaign

  unfoldable pub finalize_ended : AutopilotCampaign → Option WanderSession → Pilot (Unit {0})
  unfolding finalize_cycle is_open
  finalize_ended campaign none = pure tt
  finalize_ended campaign (some session) =
      if is_open session.status then pure tt else finalize_cycle v campaign session

  -- The stop of the current session, with the cycle's end where it has ended by then.
  unfoldable pub stop_session : AutopilotCampaign → Option ℕ → Pilot (Unit {0})
  unfolding finalize_ended
  stop_session campaign none = pure tt
  stop_session campaign (some session_id) = do
    write (stop_requested session_id)
    session ← ask (λ t. v.get_session t session_id)
    finalize_ended campaign session

  unfoldable pub halt_campaign : AutopilotStatus → Option AutopilotCampaign → Pilot (Unit {0})
  unfolding stop_session save_now
  halt_campaign status none = pure tt
  halt_campaign status (some campaign) = do
    save_now v (record campaign { status = status; next_cycle_at = none })
    stop_session (record campaign { status = status; next_cycle_at = none })
        campaign.current_session_id

  -- `_set_terminal_control`, the body of `pause` and `stop`
  unfoldable pub set_terminal_control : AutopilotStatus → Pilot (Unit {0})
  unfolding halt_campaign
  set_terminal_control status = do
    s ← gets (λ (s : AutopilotState). s)
    halt_campaign status s.campaign

  unfoldable pub record_error : Text → Option AutopilotCampaign → Pilot (Unit {0})
  unfolding loop_delay save_now
  record_error message none = pure tt
  record_error message (some campaign) = do
    now ← ask v.utc_now
    save_now v (record campaign {
      last_error = some (loop_error message);
      consecutive_failures = campaign.consecutive_failures + 1;
      next_cycle_at =
          some (v.after now (v.ops.of_int (loop_delay (campaign.consecutive_failures + 1))));
    })

  -- `_record_loop_error`; `message` is the text made of the exception.
  unfoldable pub record_loop_error : Text → Pilot (Unit {0})
  unfolding record_error
  record_loop_error message = do
    s ← gets (λ (s : AutopilotState). s)
    record_error message s.campaign

  abbrev pub recover : (AutopilotError → Text) → Result AutopilotError (Unit {0}) → Pilot (Unit {0})
  recover message (ok _) = pure tt
  recover message (err e) = record_loop_error (message e)

  -- One round of `_loop`.
  unfoldable pub poll : (AutopilotError → Text) → Pilot (Unit {0})
  unfolding tick_locked record_loop_error
  poll message s = let (r, s') = tick_locked v s in recover message r s'
