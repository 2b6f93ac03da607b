-- ===== src/Autopilot/Cycle.antt =====
-- `_tick_locked`, `_start_cycle` and `_finalize_cycle` of
-- backend/src/wandermind/application/autopilot_service.py.
use wander_mind.Prelude.{
  ℕ, ◌+◌, ◌^◌, Bool, true, false, not, Option, none, some, List, [], ◌∷◌, length, min, max, ◌==◌,
  leb, ltb, if◌then◌else◌,
}
use wander_mind.Float.{Float, FloatOps, f5_0, f300_0}
use wander_mind.Exec.{pure, raise, gets, ◌>>=◌, ◌>>◌}
use wander_mind.Models.Enums.{AutopilotStatus, SessionStatus}
use wander_mind.Models.Session.{WanderSession, StopReason}
use wander_mind.Models.Thought.{Wonder}
use wander_mind.Models.Campaign.{
  AutopilotCampaign, CampaignError, current_session_missing, insufficient_knowledge, session_failed,
}
use wander_mind.Autopilot.State.{
  Services, Pilot, AutopilotState, PlannedSeed, overflow_error, seed_row, submitted, ask, attempt,
  write, save,
}
use wander_mind.Autopilot.Promotion.{promote_wonders}

unfoldable pub is_active_campaign : AutopilotStatus → Bool
is_active_campaign AutopilotStatus.active = true
is_active_campaign _ = false

unfoldable pub is_open : SessionStatus → Bool
is_open SessionStatus.pending = true
is_open SessionStatus.running = true
is_open _ = false

unfoldable pub is_failed : SessionStatus → Bool
is_failed SessionStatus.failed = true
is_failed _ = false

-- The wonders of one session.
unfoldable pub session_wonders : ℕ → List Wonder → List Wonder
session_wonders session_id [] = []
session_wonders session_id (x ∷ xs) =
    let rest = session_wonders session_id xs in
    if x.session_id == session_id then x ∷ rest else rest

-- `2**failures * 5.0`: the conversion of the power to a float raises OverflowError from 2**1024 on.
unfoldable pub failure_delay : FloatOps → ℕ → Option Float
failure_delay ops failures =
    if leb 1024 failures then none else some (ops.times (ops.of_int (2 ^ failures)) f5_0)

abbrev capped : Float → Option Float → Option Float
capped delay none = none
capped delay (some backoff) = some (min f300_0 (max delay backoff))

-- The delay to the next cycle, or none for an OverflowError.
unfoldable pub next_delay : FloatOps → Float → Bool → ℕ → Option Float
unfolding failure_delay
next_delay ops delay false failures = some delay
next_delay ops delay true failures = capped delay (failure_delay ops failures)

unfoldable pub last_error_of : Bool → Option StopReason → Option CampaignError
last_error_of true (some reason) = some (session_failed reason)
last_error_of _ _ = none

-- What a cycle counted.
pub record Counts : Type 0 where
  pub candidates : ℕ
  pub wonders : ℕ
  pub calls : ℕ
  pub promoted : ℕ

unfoldable pub failures_after : Bool → AutopilotCampaign → ℕ
failures_after failed campaign = if failed then campaign.consecutive_failures + 1 else 0

-- The campaign after a cycle of `session`, with the delay that follows.
unfoldable pub completed_campaign :
    AutopilotCampaign → WanderSession → Counts → ℕ → ℕ → AutopilotCampaign
unfolding is_failed is_active_campaign last_error_of failures_after
completed_campaign campaign session n now next = record campaign {
  current_session_id = none;
  cycles_completed = campaign.cycles_completed + 1;
  total_candidates = campaign.total_candidates + n.candidates;
  total_wonders = campaign.total_wonders + n.wonders;
  total_runtime_calls = campaign.total_runtime_calls + n.calls;
  promoted_knowledge_count = campaign.promoted_knowledge_count + n.promoted;
  last_cycle_completed_at = some now;
  consecutive_failures = failures_after (is_failed session.status) campaign;
  last_error = last_error_of (is_failed session.status) session.trace.stop_reason;
  next_cycle_at = if is_active_campaign campaign.status then some next else none;
  metadata = record (campaign.metadata) {
    last_session_id = some session.id;
    last_stop_reason = session.trace.stop_reason;
    last_cycle_candidates = some n.candidates;
    last_cycle_wonders = some n.wonders;
    last_cycle_runtime_calls = some n.calls;
    last_cycle_promoted_knowledge = some n.promoted;
  };
}

unfoldable pub started_campaign : AutopilotCampaign → PlannedSeed → ℕ → ℕ → AutopilotCampaign
started_campaign campaign seed session_id now = record campaign {
  current_session_id = some session_id;
  cycles_started = campaign.cycles_started + 1;
  last_cycle_started_at = some now;
  next_cycle_at = none;
  last_error = none;
  metadata = record (campaign.metadata) {
    current_mode = some seed.mode;
    current_pair_key = some seed.pair_key;
  };
}

module _ (v : Services) where
  -- `_save(campaign)` with no time given.
  unfoldable pub save_now : AutopilotCampaign → Pilot (Unit {0})
  save_now campaign = do now ← ask v.utc_now; save now campaign

  unfoldable pub save_completed :
      AutopilotCampaign → WanderSession → Counts → ℕ → Option Float → Pilot (Unit {0})
  unfolding completed_campaign
  save_completed campaign session n now none = raise overflow_error
  save_completed campaign session n now (some delay) =
      save now (completed_campaign campaign session n now (v.after now delay))

  unfoldable pub finalize_cycle : AutopilotCampaign → WanderSession → Pilot (Unit {0})
  unfolding save_completed next_delay session_wonders
  finalize_cycle campaign session = do
    candidates ← ask (λ t. v.candidate_count t session.id)
    all_wonders ← ask v.list_wonders
    let wonders = session_wonders session.id all_wonders
    calls ← ask (λ t. v.runtime_calls t session.id)
    promoted ← promote_wonders v campaign.id wonders
    now ← ask v.utc_now
    save_completed campaign session
        (record {
          candidates = candidates;
          wonders = length wonders;
          calls = calls;
          promoted = promoted;
        })
        now
        (next_delay v.ops v.cycle_delay_seconds (is_failed session.status)
          (failures_after (is_failed session.status) campaign))

  unfoldable pub start_planned : AutopilotCampaign → Option PlannedSeed → Pilot (Unit {0})
  unfolding started_campaign save_now
  start_planned campaign none = do
    now ← ask v.utc_now
    save_now (record campaign {
      last_error = some insufficient_knowledge;
      next_cycle_at = some (v.after now (v.ops.of_int 60));
    })
  start_planned campaign (some seed) = do
    write (seed_row seed)
    session_id ← attempt (λ t. v.create_session t seed campaign.budget)
    write (submitted session_id)
    now ← ask v.utc_now
    save now (started_campaign campaign seed session_id now)

  unfoldable pub start_cycle : AutopilotCampaign → Pilot (Unit {0})
  unfolding start_planned
  start_cycle campaign = do plan ← ask (λ t. v.plan t campaign); start_planned campaign plan

  unfoldable pub resubmit : Bool → ℕ → Pilot (Unit {0})
  resubmit true session_id = pure tt
  resubmit false session_id = write (submitted session_id)

  unfoldable pub visit_session : AutopilotCampaign → Option WanderSession → Pilot (Unit {0})
  unfolding finalize_cycle save_now resubmit is_open
  visit_session campaign none = do
    now ← ask v.utc_now
    save_now (record campaign {
      current_session_id = none;
      last_error = some current_session_missing;
      next_cycle_at = some now;
    })
  visit_session campaign (some session) =
      if is_open session.status
      then (do active ← ask (λ t. v.is_active t session.id); resubmit active session.id)
      else finalize_cycle campaign session

  unfoldable pub is_due : Option ℕ → ℕ → Bool
  is_due none now = true
  is_due (some at) now = not (ltb now at)

  -- The clock is read only for a cycle that is planned.
  unfoldable pub start_if_due : AutopilotCampaign → Option ℕ → Pilot (Unit {0})
  unfolding start_cycle is_due
  start_if_due campaign none = start_cycle campaign
  start_if_due campaign (some at) = do
    now ← ask v.utc_now
    if is_due (some at) now then start_cycle campaign else pure tt

  unfoldable pub advance : AutopilotCampaign → Option ℕ → Pilot (Unit {0})
  unfolding visit_session start_if_due
  advance campaign (some session_id) = do
    session ← ask (λ t. v.get_session t session_id)
    visit_session campaign session
  advance campaign none = start_if_due campaign campaign.next_cycle_at

  unfoldable pub tick_campaign : Option AutopilotCampaign → Pilot (Unit {0})
  unfolding advance is_active_campaign
  tick_campaign none = pure tt
  tick_campaign (some campaign) =
      if is_active_campaign campaign.status
      then advance campaign campaign.current_session_id
      else pure tt

  -- `_tick_locked`
  unfoldable pub tick_locked : Pilot (Unit {0})
  unfolding tick_campaign
  tick_locked = do s ← gets (λ (s : AutopilotState). s); tick_campaign s.campaign
