-- ===== src/Tests/Background.antt =====
-- Instances of what is proved of the coordinator's tasks and of the selection of seeds.
use wander_mind.Seeds.{select_seed}
use wander_mind.Models.Enums.{SeedSource}
use wander_mind.Seeds.Best.{select_seed-IsSelected, IsSelected}
use wander_mind.Prelude.{ℕ, ◌≡◌, refl, true, [], ◌∷◌, arith, contains}
use wander_mind.Exec.{ok, pure, gets, modify, ◌>>=◌}
use wander_mind.Repositories.Store.{get, update, replaced, list}
use wander_mind.Coordinator.{
  Coordinator, recover, recover_each, is_unfinished, recovered_session, save_session, saved_session,
  submit, stop,
}
use wander_mind.Coordinator.Steps.{Attended}
use wander_mind.Coordinator.Orphans.{Answered, stop-Answered}
use wander_mind.Coordinator.Recovery.{restarted}
use wander_mind.Coordinator.Runs.{appended, Step, Steps, recovered-Attended}
use wander_mind.Models.Session.{WanderSession}
use wander_mind.Tests.Sample.{seed, session}

abbrev now : ℕ → ℕ
now t = t

-- The pending session of a restart.
abbrev recovered : Coordinator
unfolding recover
recovered = (recover (restarted (session ∷ []) (seed ∷ []))).1

recovered_tasks : contains recovered.tasks 9 ≡ true
unfolding recovered recover recover_each is_unfinished recovered_session save_session saved_session
    submit get update replaced list pure gets modify ◌>>=◌ contains
recovered_tasks = refl

abbrev wandered : Coordinator
wandered = (stop now 9 (submit 8 (recover (restarted (session ∷ []) (seed ∷ []))).1)).1

abbrev outside : WanderSession
outside = record session { id = 10 }

recovered-Attended_example :
    ((recover (restarted (session ∷ []) (seed ∷ []))).0 ≡ ok tt)
    × Attended (10 ∷ []) 2 (appended outside wandered)
unfolding get contains stop ◌>>=◌ submit recover
recovered-Attended_example =
    recovered-Attended (session ∷ []) (seed ∷ []) now (10 ∷ []) 2 (appended outside wandered)
      (omega arith)
      (Steps.next (Steps.next (Steps.next Steps.done (Step.submit_step 8)) (Step.stop_step 9))
        (Step.outside_create_step outside refl refl))

attended : Attended (10 ∷ []) 2 (recover (restarted (session ∷ []) (seed ∷ []))).1
attended =
    (recovered-Attended (session ∷ []) (seed ∷ []) now (10 ∷ []) 2
      (recover (restarted (session ∷ []) (seed ∷ []))).1 (omega arith) Steps.done).1

stop-Answered_example :
    Answered 9
      (recover (restarted (session ∷ []) (seed ∷ []))).1
      (stop now 9 (recover (restarted (session ∷ []) (seed ∷ []))).1)
    × Attended (10 ∷ []) 2 (stop now 9 (recover (restarted (session ∷ []) (seed ∷ []))).1).1
stop-Answered_example =
    stop-Answered now (10 ∷ []) 2 9 (recover (restarted (session ∷ []) (seed ∷ []))).1 attended

select_seed-IsSelected_example :
    IsSelected
      (record seed { id = 6; source = SeedSource.recent } ∷ seed ∷ [])
      (select_seed (record seed { id = 6; source = SeedSource.recent } ∷ seed ∷ []))
select_seed-IsSelected_example =
    select_seed-IsSelected (record seed { id = 6; source = SeedSource.recent } ∷ seed ∷ [])
