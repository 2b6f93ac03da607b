-- ===== src/Autopilot/State.antt =====
-- What `AutopilotSupervisor` keeps, asks and writes.
use wander_mind.Prelude.{ℕ, ◌+◌, Text, Bool, Option, none, some, List, ◌∷◌}
use wander_mind.Float.{Float, FloatOps}
use wander_mind.Exec.{Result, ok, err, Exec}
use wander_mind.Models.Thought.{KnowledgeItem, Wonder}
use wander_mind.Models.Quality.{QualityGateResult, SkipReason}
use wander_mind.Models.Budget.{WanderBudget}
use wander_mind.Models.Session.{WanderSession}
use wander_mind.Models.Graph.{KnowledgeEdge}
use wander_mind.Models.Campaign.{AutopilotCampaign}
use wander_mind.Quality.{AutopilotQualityPolicy}

-- `overflow_error` is Python's `OverflowError`, `component_error` any exception of what is asked.
pub data AutopilotError : Type 0 where
  overflow_error component_error : AutopilotError

-- How `ingest_text` comes back.
pub data Ingested : Type 0 where
  stored : KnowledgeItem → Ingested
  duplicate : SkipReason → Ingested
  failed : Ingested

-- The seed of a plan.
pub record PlannedSeed : Type 0 where
  pub id : ℕ
  pub mode : Text
  pub pair_key : Text

-- The arguments of `__init__` and everything that is asked, each question numbered; an answer `none`
-- of `create_session` is an exception. `after t d` is `t + timedelta(seconds=d)`.
pub record Services : Type 0 where
  pub ops : FloatOps
  pub quality_policy : AutopilotQualityPolicy
  pub promotion_threshold : Float
  pub cycle_delay_seconds : Float
  pub objective : Text
  pub budget : Option WanderBudget
  pub utc_now : ℕ → ℕ
  pub uuid4 : ℕ → ℕ
  pub after : ℕ → Float → ℕ
  pub get_session : ℕ → ℕ → Option WanderSession
  pub is_active : ℕ → ℕ → Bool
  pub plan : ℕ → AutopilotCampaign → Option PlannedSeed
  pub create_session : ℕ → PlannedSeed → WanderBudget → Option ℕ
  pub candidate_count : ℕ → ℕ → ℕ
  pub list_wonders : ℕ → List Wonder
  pub list_knowledge : ℕ → List KnowledgeItem
  pub runtime_calls : ℕ → ℕ → ℕ
  pub ingest_text : ℕ → Wonder → QualityGateResult → Ingested

pub data AutopilotWrite : Type 0 where
  seed_row : PlannedSeed → AutopilotWrite
  wonder_row : Wonder → AutopilotWrite
  knowledge_row : KnowledgeItem → AutopilotWrite
  edge_row : KnowledgeEdge → AutopilotWrite
  campaign_row : AutopilotCampaign → AutopilotWrite
  submitted stop_requested : ℕ → AutopilotWrite

-- `campaign` is the row of the campaign, of which there is one at most, since it is created only
-- where there is none. The newest write comes first.
pub record AutopilotState : Type 0 where
  pub tick : ℕ
  pub campaign : Option AutopilotCampaign
  pub writes : List AutopilotWrite

abbrev pub Pilot : Type 0 → Type 0
Pilot A = Exec AutopilotError AutopilotState A

unfoldable pub ask : {A : Type 0} → (ℕ → A) → Pilot A
ask question s = (ok (question s.tick), record s { tick = s.tick + 1 })

abbrev pub answered : {A : Type 0} → Option A → Result AutopilotError A
answered none = err component_error
answered (some a) = ok a

unfoldable pub attempt : {A : Type 0} → (ℕ → Option A) → Pilot A
attempt question s = (answered (question s.tick), record s { tick = s.tick + 1 })

unfoldable pub write : AutopilotWrite → Pilot (Unit {0})
write row s = (ok tt, record s { writes = row ∷ s.writes })

-- `_save`
unfoldable pub save : ℕ → AutopilotCampaign → Pilot (Unit {0})
save now campaign s =
    let updated = record campaign { updated_at = now } in
    (ok tt, record s { campaign = some updated; writes = campaign_row updated ∷ s.writes })
