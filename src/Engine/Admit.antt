-- ===== src/Engine/Admit.antt =====
-- The head of the loop of `run` in backend/src/wandermind/cognitive/engine.py: whether a pair is
-- skipped, ends the loop, or is explored.
use wander_mind.Prelude.{
  true, false, ℕ, ◌+◌, Bool, not, ◌&&◌, ◌||◌, Option, none, some, List, [], ◌∷◌, length, contains,
  is_some, ltb, leb, ◌==◌, if◌then◌else◌,
}
use mathlib.Core.Logic.{ite}
use wander_mind.Float.{Float}
use wander_mind.Exec.{◌>>=◌, ◌>>◌, pure, gets, modify}
use wander_mind.Models.Enums.{GuardReason, patch_switch_budget, GuardReason-discrete}
use wander_mind.Models.Thought.{KnowledgePatch, Candidate, RetrievedItem}
use wander_mind.Models.Session.{
  StopReason, manual_stop, time_budget_exhausted, runtime_budget_exhausted,
  candidate_budget_exhausted, step_budget_exhausted,
}
use wander_mind.Engine.Components.{Components}
use wander_mind.Engine.State.{RunState, Run, ask}
use wander_mind.Engine.Record.{cancel_requested}

-- How the loop is left: by `break` with the termination reason, or by a return through `_stop` or
-- `_complete`.
pub data Ending : Type 0 where
  break_loop stop_now complete_now : StopReason → Ending

-- How one round of the loop ends: by `continue`, or by leaving the loop.
pub data Outcome : Type 0 where
  again : Outcome
  leave : Ending → Outcome

pub data Admission : Type 0 where
  skip : Admission
  refuse : Ending → Admission
  proceed : Bool → Admission

-- `frozenset((a, b)) == frozenset((c, d))`
unfoldable pub same_pair : ℕ × ℕ → ℕ × ℕ → Bool
same_pair (a, b) (c, d) = (a == c && b == d) || (a == d && b == c)

unfoldable pub has_pair : List (ℕ × ℕ) → ℕ × ℕ → Bool
unfolding same_pair
has_pair [] p = false
has_pair (q ∷ qs) p = same_pair q p || has_pair qs p

-- `processed_pairs`
unfoldable pub processed_pairs : List Candidate → List (ℕ × ℕ)
processed_pairs [] = []
processed_pairs (c ∷ cs) =
    let rest = processed_pairs cs in
    elim (c.source_items) [ a ∷ b ∷ more ↦ (a, b) ∷ rest | _ ↦ rest ]

-- `patch_by_item`: the first patch that has the item.
unfoldable pub patch_by_item : List KnowledgePatch → ℕ → Option KnowledgePatch
patch_by_item [] item_id = none
patch_by_item (p ∷ ps) item_id =
    if contains p.member_ids item_id then some p else patch_by_item ps item_id

unfoldable pub differ : Option KnowledgePatch → Option KnowledgePatch → Bool
differ (some p) (some q) = not (p.id == q.id)
differ _ _ = false

-- `quality_guards[g] = quality_guards.get(g, 0) + 1`
unfoldable pub bump : GuardReason → List (GuardReason × ℕ) → List (GuardReason × ℕ)
bump g [] = (g, 1) ∷ []
bump g ((h, n) ∷ guards) =
    ite (GuardReason-discrete h g) ((h, n + 1) ∷ guards) ((h, n) ∷ bump g guards)

module _ (w : Components) where
  unfoldable pub required_runtime_calls : ℕ
  required_runtime_calls =
      (if is_some w.candidate_synthesizer then 1 else 0)
      + (if is_some w.candidate_reviewer then 1 else 0)

  -- The budgets in the order of their tests.
  unfoldable pub budget_stop : RunState → Float → Option StopReason
  budget_stop s elapsed =
      if leb s.session.budget.time_budget_seconds elapsed
      then some time_budget_exhausted
      else if ltb 0 required_runtime_calls
          && ltb 0 s.runtime_calls_used
          && ltb s.session.budget.max_runtime_calls (s.runtime_calls_used + required_runtime_calls)
      then some runtime_budget_exhausted
      else if leb s.session.budget.max_candidates (length s.candidates)
      then some candidate_budget_exhausted
      else if leb s.session.budget.max_steps s.wander_moves
      then some step_budget_exhausted
      else none

  pass_over : Run Admission
  pass_over = do
    modify (λ s. record s { quality_guards = bump patch_switch_budget s.quality_guards })
    pure skip

  -- A change of patch is paid from its own budget, or the pair is passed over.
  unfoldable pub admit_patch : Bool → Run Admission
  unfolding pass_over
  admit_patch changes_patch = do
    s ← gets (λ s. s)
    if changes_patch && leb s.session.budget.max_patch_switches s.patch_switches
        then pass_over
        else pure (proceed changes_patch)

  unfoldable pub within_budget : Bool → Option StopReason → Run Admission
  unfolding admit_patch
  within_budget changes_patch (some reason) = pure (refuse (break_loop reason))
  within_budget changes_patch none = admit_patch changes_patch

  -- What follows the test of the cancel flag.
  unfoldable pub admit_uncancelled : Bool → Bool → Run Admission
  unfolding within_budget
  admit_uncancelled true changes_patch = pure (refuse (stop_now manual_stop))
  admit_uncancelled false changes_patch = do
    elapsed ← ask w.elapsed
    s ← gets (λ s. s)
    within_budget changes_patch (budget_stop s elapsed)

  unfoldable pub admit :
      List KnowledgePatch → List (ℕ × ℕ) → RetrievedItem → RetrievedItem → Run Admission
  unfolding admit_uncancelled
  admit patches processed left right =
      if has_pair processed (left.item.id, right.item.id) then pure skip else do
        cancelled ← cancel_requested w
        admit_uncancelled cancelled
            (differ (patch_by_item patches left.item.id) (patch_by_item patches right.item.id))
