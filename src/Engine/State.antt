-- ===== src/Engine/State.antt =====
-- The local variables of `WanderEngine.run` and what it writes to the repositories.
use wander_mind.Prelude.{ℕ, ◌+◌, String, Option, none, some, List, ◌∷◌}
use wander_mind.Exec.{Result, ok, err, Exec}
use wander_mind.Models.Enums.{CognitiveState, GuardReason}
use wander_mind.Models.Thought.{KnowledgeItem, Seed, Candidate, Wonder}
use wander_mind.Models.Session.{WanderSession, WanderError}

-- A call of `create` or `update` on a repository, with the row that it stores.
pub data Write : Type 0 where
  session_row : WanderSession → Write
  seed_row : Seed → Write
  knowledge_row : KnowledgeItem → Write
  candidate_row : Candidate → Write
  wonder_row : Wonder → Write

-- `visited_path` also stands for the set `visited_ids`, which has the same elements throughout.
-- `tick` counts the questions asked of the components; `writes` has the last write first.
pub record RunState : Type 0 where
  pub session : WanderSession
  pub machine : CognitiveState
  pub seed : Seed
  pub candidates : List Candidate
  pub wonders : List Wonder
  pub visited_path : List ℕ
  pub previous_operators : List String
  pub patch_switches : ℕ
  pub wander_moves : ℕ
  pub runtime_calls_used : ℕ
  pub stagnant_candidates : ℕ
  pub quality_guards : List (GuardReason × ℕ)
  pub tick : ℕ
  pub writes : List Write

abbrev pub Run : Type 0 → Type 0
Run A = Exec WanderError RunState A

unfoldable pub ask : {A : Type 0} → (ℕ → A) → Run A
ask f s = (ok (f s.tick), record s { tick = s.tick + 1 })

abbrev pub or_raise : {A : Type 0} → WanderError → Option A → Result WanderError A
or_raise e none = err e
or_raise e (some a) = ok a

-- A call that may raise, the exception wrapped in `e`.
unfoldable pub attempt : {A : Type 0} → WanderError → (ℕ → Option A) → Run A
attempt e f s = (or_raise e (f s.tick), record s { tick = s.tick + 1 })

-- `await repository.create(row)` or `.update(row)`
unfoldable pub write : Write → Run (Unit {0})
write row s = (ok tt, record s { writes = row ∷ s.writes })

-- `repositories.sessions.update(session)`
unfoldable pub save_session : Run (Unit {0})
save_session s = (ok tt, record s { writes = session_row s.session ∷ s.writes })
