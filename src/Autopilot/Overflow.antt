-- ===== src/Autopilot/Overflow.antt =====
-- What a campaign comes to whose cycles fail a thousand times in a row.
use wander_mind.Prelude.{ℕ, ◌+◌, ◌≤◌, ◌≡◌, refl, Text, Bool, true, false, Option, none, some, arith}
use wander_mind.Float.{Float, FloatOps}
use wander_mind.Exec.{Result, ok, err, raise, ◌>>=◌, gets}
use wander_mind.Exec.Triple.{Triple, Holds, Triple-bind}
use wander_mind.Models.Enums.{AutopilotStatus, SessionStatus}
use wander_mind.Models.Session.{WanderSession}
use wander_mind.Models.Campaign.{AutopilotCampaign}
use wander_mind.Autopilot.State.{save, Services, Pilot, AutopilotState, AutopilotError, ask}
use wander_mind.Autopilot.Cycle.{
  save_now, next_delay, failure_delay, is_failed, failures_after, finalize_cycle, save_completed,
  Counts, visit_session, is_open, advance, tick_campaign, tick_locked, is_active_campaign,
}
use wander_mind.Autopilot.Control.{poll, record_loop_error, record_error, recover}
use wander_mind.Autopilot.Frame.{Keeps-ask, promote_wonders-Keeps}

overflows :
    (ops : FloatOps) (delay : Float) (failures : ℕ)
    → 1024 ≤ failures
    → next_delay ops delay true failures ≡ none
unfolding next_delay failure_delay
overflows ops delay failures h = ground arith

failed_overflows :
    (ops : FloatOps) (delay : Float) (failed : Bool) (campaign : AutopilotCampaign)
    → failed ≡ true
    → 1023 ≤ campaign.consecutive_failures
    → next_delay ops delay failed (failures_after failed campaign) ≡ none
unfolding failures_after
failed_overflows ops delay true campaign e h = overflows ops delay _ (omega (arith, h))
failed_overflows ops delay false campaign e h = cc

failed_is_closed : (status : SessionStatus) → is_failed status ≡ true → is_open status ≡ false
unfolding is_failed is_open
failed_is_closed status h = ground arith

module _ (v : Services) (row : Option AutopilotCampaign) where
  abbrev Fixed : Option AutopilotCampaign → Type 0
  Fixed campaign = campaign ≡ row

  -- It raises and leaves the campaign as it was.
  abbrev Raises : {A : Type 0} → Pilot A → Type 0
  Raises m = Triple (λ s. Fixed s.campaign) m (λ _ _. ⊥) (λ _ s. Fixed s.campaign)

  save_completed-Raises :
      (campaign : AutopilotCampaign) (session : WanderSession) (n : Counts) (now : ℕ)
      (delay : Option Float)
      → delay ≡ none
      → Raises (save_completed v campaign session n now delay)
  unfolding save_completed raise
  save_completed-Raises campaign session n now none e = record { at = λ s h. h }
  save_completed-Raises campaign session n now (some d) e = cc

  finalize_cycle-Raises :
      (campaign : AutopilotCampaign) (session : WanderSession)
      → is_failed session.status ≡ true
      → 1023 ≤ campaign.consecutive_failures
      → Raises (finalize_cycle v campaign session)
  unfolding finalize_cycle
  finalize_cycle-Raises campaign session e h = Triple-bind _ _ _ _ (Keeps-ask Fixed _) λ candidates.
      Triple-bind _ _ _ _ (Keeps-ask Fixed _) λ wonders.
        Triple-bind _ _ _ _ (Keeps-ask Fixed _) λ calls.
          Triple-bind _ _ _ _ (promote_wonders-Keeps Fixed v _ _) λ promoted.
            Triple-bind _ _ _ _ (Keeps-ask Fixed _) λ now.
              save_completed-Raises campaign session _ now _
                (failed_overflows v.ops v.cycle_delay_seconds _ campaign e h)

  visit_session-Raises :
      (campaign : AutopilotCampaign) (found : Option WanderSession) (session : WanderSession)
      → found ≡ some session
      → is_failed session.status ≡ true
      → 1023 ≤ campaign.consecutive_failures
      → Raises (visit_session v campaign found)
  unfolding visit_session
  visit_session-Raises campaign found session present e h =
      rw (present, failed_is_closed session.status e) (finalize_cycle-Raises campaign session e h)

  advance-Raises :
      (campaign : AutopilotCampaign) (current : Option ℕ) (session_id : ℕ) (session : WanderSession)
      (s : AutopilotState)
      → current ≡ some session_id
      → v.get_session s.tick session_id ≡ some session
      → is_failed session.status ≡ true
      → 1023 ≤ campaign.consecutive_failures
      → s.campaign ≡ row
      → Holds
          (λ _ _. ⊥)
          (λ _ s. Fixed s.campaign)
          (advance v campaign current s).0
          (advance v campaign current s).1
  unfolding advance ◌>>=◌ ask
  advance-Raises campaign current session_id session s now present e h same = rw now (
      (visit_session-Raises campaign (v.get_session s.tick session_id) session present e h).at
        (record s { tick = s.tick + 1 }) same)

  tick_campaign-Raises :
      (campaign : AutopilotCampaign) (found : Option AutopilotCampaign) (session_id : ℕ)
      (session : WanderSession) (s : AutopilotState)
      → found ≡ some campaign
      → is_active_campaign campaign.status ≡ true
      → campaign.current_session_id ≡ some session_id
      → v.get_session s.tick session_id ≡ some session
      → is_failed session.status ≡ true
      → 1023 ≤ campaign.consecutive_failures
      → s.campaign ≡ row
      → Holds
          (λ _ _. ⊥)
          (λ _ s. Fixed s.campaign)
          (tick_campaign v found s).0
          (tick_campaign v found s).1
  unfolding tick_campaign
  tick_campaign-Raises campaign found session_id session s stored active current present e h same =
      rw (stored, active)
        (advance-Raises campaign campaign.current_session_id session_id session s current present e
          h same)

module _ (v : Services) (message : AutopilotError → Text) where
  -- The session of the campaign is still the current one, its cycle is not counted, and there is one
  -- failure more.
  pub record IsStuck (c : AutopilotCampaign) (s : AutopilotState) : Type 0 where
    pub after : AutopilotCampaign
    pub stored : s.campaign ≡ some after
    pub status : after.status ≡ c.status
    pub current : after.current_session_id ≡ c.current_session_id
    pub completed : after.cycles_completed ≡ c.cycles_completed
    pub failures : after.consecutive_failures ≡ c.consecutive_failures + 1

  record_error-IsStuck :
      (text : Text) (c : AutopilotCampaign) (found : Option AutopilotCampaign) (s : AutopilotState)
      → found ≡ some c
      → IsStuck c (record_error v text found s).1
  unfolding record_error save_now save ◌>>=◌ ask
  record_error-IsStuck text c found s e = rw e (record {
    after = _;
    stored = refl;
    status = refl;
    current = refl;
    completed = refl;
    failures = refl;
  })

  recover-IsStuck :
      (c : AutopilotCampaign) (r : Result AutopilotError (Unit {0})) (s : AutopilotState)
      → Holds (λ _ _. ⊥) (λ _ s. s.campaign ≡ some c) r s
      → IsStuck c (recover v message r s).1
  unfolding record_loop_error ◌>>=◌ gets
  recover-IsStuck c (ok _) s h = elim h [ ]
  recover-IsStuck c (err e) s h = record_error-IsStuck (message e) c s.campaign s h

  -- Once an active campaign has counted 1023 failures in a row and the session of its current cycle has
  -- failed, a round of the loop raises instead of completing the cycle: the session stays the
  -- current one, the cycle stays uncounted, and there is one failure more, so that the next round
  -- does the same.
  pub poll-IsStuck :
      (c : AutopilotCampaign) (session_id : ℕ) (session : WanderSession) (s : AutopilotState)
      → s.campaign ≡ some c
      → c.status ≡ AutopilotStatus.active
      → c.current_session_id ≡ some session_id
      → v.get_session s.tick session_id ≡ some session
      → session.status ≡ SessionStatus.failed
      → 1023 ≤ c.consecutive_failures
      → IsStuck c (poll v message s).1
  unfolding poll tick_locked gets ◌>>=◌ is_active_campaign is_failed
  poll-IsStuck c session_id session s e active current present failed h = recover-IsStuck c _ _ (
      tick_campaign-Raises v (some c) c s.campaign session_id session s e (rw active refl) current
        present (rw failed refl) h e)
