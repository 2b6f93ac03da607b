-- ===== src/Tests/Runs.antt =====
-- The run of a fresh session, and the instances of what is proved of runs.
use wander_mind.Engine.Pairs.Order.{
  HasIds, candidate_pairs_covers, NoRepeat, candidate_pairs-NoRepeat,
}
use wander_mind.Engine.Pairs.{ItemPair, candidate_pairs}
use wander_mind.Float.{f0_80, f0_75, f0_30, f0_45, f0_60, f0_70}
use wander_mind.Models.Thought.{RetrievedItem}
use mathlib.Core.Path.{subst}
use mathlib.Core.List.{Memᴰ}
use mathlib.Core.Option.{some-injective}
use wander_mind.Engine.Run.{run}
use wander_mind.Engine.Safety.Explored.{OneCall}
use wander_mind.Engine.Safety.Bodies.{Returned}
use wander_mind.Models.Session.{is_terminal_status}
use wander_mind.Engine.Safety.Runs.{FailedLegally, IsCheckpoint, run_ends}
use wander_mind.Prelude.{◌∷◌, ◌≡◌, refl, some, none, arith, ◌≤◌, []}
use wander_mind.Exec.Triple.{Holds}
use wander_mind.Tests.Sample.{components, seed, session, ops, item, ranked}

sample-OneCall : OneCall components
sample-OneCall = record {
  synthesizer = λ f t context d r present e.
      subst (λ g. g t context d ≡ some r → r.runtime_calls ≤ 1) (some-injective _ _ present)
        (λ given. ground arith) e;
  reviewer = λ f t candidate items r present e.
      subst (λ g. g t candidate items ≡ some r → r.runtime_calls ≤ 1) (some-injective _ _ present)
        (λ given. ground arith) e;
}

sample-IsCheckpoint : IsCheckpoint components session
sample-IsCheckpoint = record {
  idle_if_new = λ e. refl;
  indexed = tt;
  moves = omega arith;
  switches = omega arith;
  calls = omega arith;
  candidates = λ t. omega arith;
}

run_ends_example :
    Holds
      (Returned session.budget)
      (FailedLegally session.budget)
      (run components seed none (some session)).0
      (run components seed none (some session)).1
unfolding is_terminal_status
run_ends_example =
    run_ends components seed none session sample-OneCall sample-IsCheckpoint refl refl

candidate_pairs-NoRepeat_example : NoRepeat (candidate_pairs ops ranked (some (item 2, item 3)))
candidate_pairs-NoRepeat_example = candidate_pairs-NoRepeat ops ranked (some (item 2, item 3))

abbrev first_pair : ItemPair
first_pair = (
  record { item = item 1; distance = f0_30; relevance = f0_80 },
  record { item = item 2; distance = f0_45; relevance = f0_75 },
)

abbrev third : RetrievedItem
third = record { item = item 3; distance = f0_60; relevance = f0_70 }

candidate_pairs_covers_example :
    (p : ItemPair) × Memᴰ p (candidate_pairs ops ranked none) × HasIds p first_pair.0 first_pair.1
candidate_pairs_covers_example =
    candidate_pairs_covers ops none [] [] (third ∷ []) first_pair.0 first_pair.1
