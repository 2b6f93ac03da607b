-- ===== src/Seeds.antt =====
-- `SeedSelector` of backend/src/wandermind/cognitive/seed_selector.py.
pub mod Best
use wander_mind.Prelude.{
  ℕ, Bool, true, false, ◌&&◌, ◌||◌, Option, none, some, List, [], ◌∷◌, ◌==◌, ltb, if◌then◌else◌,
}
use wander_mind.Models.Enums.{SeedSource, SeedStatus}
use wander_mind.Models.Thought.{Seed}

-- `SOURCE_PRIORITY`
unfoldable pub source_priority : SeedSource → ℕ
source_priority SeedSource.explicit = 5
source_priority SeedSource.recent = 4
source_priority SeedSource.unresolved = 3
source_priority SeedSource.weak_idea = 2
source_priority SeedSource.random_revival = 1

-- `seed.status in {SeedStatus.PENDING, SeedStatus.ACTIVE}`
unfoldable pub is_eligible : SeedStatus → Bool
is_eligible SeedStatus.pending = true
is_eligible SeedStatus.active = true
is_eligible _ = false

-- The order of the keys: the source, then the priority, then the time of creation.
unfoldable pub key_below : Seed → Seed → Bool
unfolding source_priority
key_below a b =
    ltb (source_priority a.source) (source_priority b.source)
    || (source_priority a.source == source_priority b.source
        && (ltb a.priority b.priority
            || (a.priority == b.priority && ltb a.created_at b.created_at)))

unfoldable pub eligible : List Seed → List Seed
unfolding is_eligible
eligible [] = []
eligible (seed ∷ seeds) =
    let rest = eligible seeds in if is_eligible seed.status then seed ∷ rest else rest

-- `max(..., key=...)`: the first of those with the greatest key.
unfoldable pub greatest : Seed → List Seed → Seed
unfolding key_below
greatest best [] = best
greatest best (seed ∷ seeds) = greatest (if key_below best seed then seed else best) seeds

unfoldable pub greatest_of : List Seed → Option Seed
unfolding greatest
greatest_of [] = none
greatest_of (seed ∷ seeds) = some (greatest seed seeds)

unfoldable pub select_seed : List Seed → Option Seed
unfolding eligible greatest_of
select_seed seeds = greatest_of (eligible seeds)
