-- ===== src/Autopilot/Accounts.antt =====
-- The cycles of a campaign: at most one at a time, and none counted as completed that was not started.
use wander_mind.Prelude.{ℕ, ◌+◌, ◌≤◌, ◌≡◌, refl, Text, Bool, true, false, Option, none, some, arith}
use wander_mind.Float.{Float}
use wander_mind.Models.Enums.{AutopilotStatus}
use wander_mind.Models.Budget.{WanderBudget}
use wander_mind.Models.Session.{WanderSession}
use wander_mind.Models.Campaign.{AutopilotCampaign, new_campaign}
use wander_mind.Autopilot.State.{Services, Pilot, PlannedSeed, overflow_error, save}
use wander_mind.Autopilot.Cycle.{
  Counts, completed_campaign, started_campaign, save_now, save_completed, finalize_cycle,
  start_planned, start_cycle, resubmit, visit_session, start_if_due, is_due, advance, tick_campaign,
  tick_locked, is_open, is_active_campaign,
}
use wander_mind.Autopilot.Control.{
  create_campaign, resumed, resume_campaign, update_campaign, finalize_ended, stop_session,
  halt_campaign, record_error,
}
use wander_mind.Autopilot.Frame.{
  Keeps, Keeps-bind, Keeps-pure, Keeps-raise, Keeps-if, Keeps-ask, Keeps-attempt, Keeps-write,
  Keeps-campaign, promote_wonders-Keeps,
}

abbrev pub running : Option ℕ → ℕ
running none = 0
running (some session_id) = 1

-- The completed cycles and the one that runs are among those that were started.
abbrev pub IsAccounted : AutopilotCampaign → Type 0
IsAccounted campaign =
    campaign.cycles_completed + running campaign.current_session_id ≤ campaign.cycles_started

abbrev pub Accounted : Option AutopilotCampaign → Type 0
Accounted none = Unit
Accounted (some campaign) = IsAccounted campaign

abbrev pub Kept : {A : Type 0} → Pilot A → Type 0
Kept m = Keeps Accounted m

save-Kept :
    (now : ℕ) (campaign : AutopilotCampaign) → IsAccounted campaign → Kept (save now campaign)
unfolding save
save-Kept now campaign h = record { at = λ s _. h }

create-Kept :
    (campaign : AutopilotCampaign) → IsAccounted campaign → Kept (create_campaign campaign)
unfolding create_campaign
create-Kept campaign h = record { at = λ s _. h }

module _ (v : Services) where
  save_now-Kept : (campaign : AutopilotCampaign) → IsAccounted campaign → Kept (save_now v campaign)
  unfolding save_now
  save_now-Kept campaign h =
      Keeps-bind Accounted _ _ (Keeps-ask Accounted _) (λ now. save-Kept now campaign h)

  save_completed-Kept :
      (campaign : AutopilotCampaign) (session : WanderSession) (n : Counts) (now : ℕ)
      (delay : Option Float)
      → campaign.cycles_completed + 1 ≤ campaign.cycles_started
      → Kept (save_completed v campaign session n now delay)
  unfolding save_completed completed_campaign
  save_completed-Kept campaign session n now none h = Keeps-raise Accounted overflow_error
  save_completed-Kept campaign session n now (some delay) h = save-Kept now _ (omega (arith, h))

  finalize_cycle-Kept :
      (campaign : AutopilotCampaign) (session : WanderSession)
      → campaign.cycles_completed + 1 ≤ campaign.cycles_started
      → Kept (finalize_cycle v campaign session)
  unfolding finalize_cycle
  finalize_cycle-Kept campaign session h =
      Keeps-bind Accounted _ _ (Keeps-ask Accounted _) λ candidates.
        Keeps-bind Accounted _ _ (Keeps-ask Accounted _) λ wonders.
          Keeps-bind Accounted _ _ (Keeps-ask Accounted _) λ calls.
            Keeps-bind Accounted _ _ (promote_wonders-Keeps Accounted v _ _) λ promoted.
              Keeps-bind Accounted _ _ (Keeps-ask Accounted _)
                λ now. save_completed-Kept campaign session _ now _ h

  start_planned-Kept :
      (campaign : AutopilotCampaign) (plan : Option PlannedSeed)
      → campaign.current_session_id ≡ none
      → IsAccounted campaign
      → Kept (start_planned v campaign plan)
  unfolding start_planned started_campaign
  start_planned-Kept campaign none e h =
      Keeps-bind Accounted _ _ (Keeps-ask Accounted _) (λ now. save_now-Kept _ h)
  start_planned-Kept campaign (some seed) e h =
      Keeps-bind Accounted _ _ (Keeps-write Accounted _) λ _.
        Keeps-bind Accounted _ _ (Keeps-attempt Accounted _) λ session_id.
          Keeps-bind Accounted _ _ (Keeps-write Accounted _) λ _.
            Keeps-bind Accounted _ _ (Keeps-ask Accounted _)
              λ now. save-Kept now _ (ground (arith, e, h))

  start_cycle-Kept :
      (campaign : AutopilotCampaign)
      → campaign.current_session_id ≡ none
      → IsAccounted campaign
      → Kept (start_cycle v campaign)
  unfolding start_cycle
  start_cycle-Kept campaign e h =
      Keeps-bind Accounted _ _ (Keeps-ask Accounted _)
        (λ plan. start_planned-Kept campaign plan e h)

  resubmit-Kept : (active : Bool) (session_id : ℕ) → Kept (resubmit v active session_id)
  unfolding resubmit
  resubmit-Kept true session_id = Keeps-pure Accounted tt
  resubmit-Kept false session_id = Keeps-write Accounted _

  visit_session-Kept :
      (campaign : AutopilotCampaign) (session : Option WanderSession)
      → campaign.cycles_completed + 1 ≤ campaign.cycles_started
      → Kept (visit_session v campaign session)
  unfolding visit_session
  visit_session-Kept campaign none h =
      Keeps-bind Accounted _ _ (Keeps-ask Accounted _) (λ now. save_now-Kept _ (omega (arith, h)))
  visit_session-Kept campaign (some session) h =
      Keeps-if Accounted (is_open session.status) _ _
        (Keeps-bind Accounted _ _ (Keeps-ask Accounted _)
          (λ active. resubmit-Kept active session.id))
        (finalize_cycle-Kept campaign session h)

  start_if_due-Kept :
      (campaign : AutopilotCampaign) (at : Option ℕ)
      → campaign.current_session_id ≡ none
      → IsAccounted campaign
      → Kept (start_if_due v campaign at)
  unfolding start_if_due
  start_if_due-Kept campaign none e h = start_cycle-Kept campaign e h
  start_if_due-Kept campaign (some at) e h = Keeps-bind Accounted _ _ (Keeps-ask Accounted _) λ now.
      Keeps-if Accounted (is_due v (some at) now) _ _ (start_cycle-Kept campaign e h)
        (Keeps-pure Accounted tt)

  advance-Kept :
      (campaign : AutopilotCampaign) (current : Option ℕ)
      → campaign.current_session_id ≡ current
      → IsAccounted campaign
      → Kept (advance v campaign current)
  unfolding advance
  advance-Kept campaign none e h = start_if_due-Kept campaign campaign.next_cycle_at e h
  advance-Kept campaign (some session_id) e h =
      Keeps-bind Accounted _ _ (Keeps-ask Accounted _)
        (λ session. visit_session-Kept campaign session (ground (arith, e, h)))

  tick_campaign-Kept :
      (campaign : Option AutopilotCampaign) → Accounted campaign → Kept (tick_campaign v campaign)
  unfolding tick_campaign
  tick_campaign-Kept none h = Keeps-pure Accounted tt
  tick_campaign-Kept (some campaign) h =
      Keeps-if Accounted (is_active_campaign campaign.status) _ _
        (advance-Kept campaign campaign.current_session_id refl h) (Keeps-pure Accounted tt)

  pub tick_locked-Kept : Kept (tick_locked v)
  unfolding tick_locked
  tick_locked-Kept = Keeps-campaign Accounted _ (λ s h. tick_campaign-Kept s.campaign h)

  pub resume_campaign-Kept :
      (objective : Option Text) (budget : Option WanderBudget) (campaign : Option AutopilotCampaign)
      → Accounted campaign
      → Kept (resume_campaign v objective budget campaign)
  unfolding resume_campaign new_campaign resumed
  resume_campaign-Kept objective budget none h =
      Keeps-bind Accounted _ _ (Keeps-ask Accounted _)
        λ now. Keeps-bind Accounted _ _ (Keeps-ask Accounted _) (λ id. create-Kept _ (omega arith))
  resume_campaign-Kept objective budget (some campaign) h =
      Keeps-bind Accounted _ _ (Keeps-ask Accounted _) (λ now. save_now-Kept _ h)

  pub update_campaign-Kept :
      (objective : Text) (campaign : Option AutopilotCampaign)
      → Accounted campaign
      → Kept (update_campaign v objective campaign)
  unfolding update_campaign new_campaign
  update_campaign-Kept objective none h =
      Keeps-bind Accounted _ _ (Keeps-ask Accounted _)
        λ now. Keeps-bind Accounted _ _ (Keeps-ask Accounted _) (λ id. create-Kept _ (omega arith))
  update_campaign-Kept objective (some campaign) h = save_now-Kept _ h

  finalize_ended-Kept :
      (campaign : AutopilotCampaign) (session : Option WanderSession)
      → campaign.cycles_completed + 1 ≤ campaign.cycles_started
      → Kept (finalize_ended v campaign session)
  unfolding finalize_ended
  finalize_ended-Kept campaign none h = Keeps-pure Accounted tt
  finalize_ended-Kept campaign (some session) h =
      Keeps-if Accounted (is_open session.status) _ _ (Keeps-pure Accounted tt)
        (finalize_cycle-Kept campaign session h)

  stop_session-Kept :
      (campaign : AutopilotCampaign) (current : Option ℕ)
      → campaign.current_session_id ≡ current
      → IsAccounted campaign
      → Kept (stop_session v campaign current)
  unfolding stop_session
  stop_session-Kept campaign none e h = Keeps-pure Accounted tt
  stop_session-Kept campaign (some session_id) e h =
      Keeps-bind Accounted _ _ (Keeps-write Accounted _) λ _.
        Keeps-bind Accounted _ _ (Keeps-ask Accounted _)
          (λ session. finalize_ended-Kept campaign session (ground (arith, e, h)))

  pub halt_campaign-Kept :
      (status : AutopilotStatus) (campaign : Option AutopilotCampaign)
      → Accounted campaign
      → Kept (halt_campaign v status campaign)
  unfolding halt_campaign
  halt_campaign-Kept status none h = Keeps-pure Accounted tt
  halt_campaign-Kept status (some campaign) h = Keeps-bind Accounted _ _ (save_now-Kept _ h) (λ _.
      stop_session-Kept (record campaign { status = status; next_cycle_at = none })
        campaign.current_session_id refl h)

  pub record_error-Kept :
      (message : Text) (campaign : Option AutopilotCampaign)
      → Accounted campaign
      → Kept (record_error v message campaign)
  unfolding record_error
  record_error-Kept message none h = Keeps-pure Accounted tt
  record_error-Kept message (some campaign) h =
      Keeps-bind Accounted _ _ (Keeps-ask Accounted _) (λ now. save_now-Kept _ h)
