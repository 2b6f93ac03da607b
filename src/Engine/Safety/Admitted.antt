-- ===== src/Engine/Safety/Admitted.antt =====
-- The head of a round: what the budgets leave for a pair that is explored.
use wander_mind.Exec.{◌>>=◌}
use wander_mind.Prelude.{
  ℕ, ◌+◌, ◌≤◌, ◌≡◌, refl, Bool, true, false, Option, none, some, List, length, arith, if◌then◌else◌,
}
use wander_mind.Exec.Triple.{Triple-bind, Triple-pure, Triple-if, Holds}
use wander_mind.Float.{Float}
use wander_mind.Models.Enums.CognitiveState.{wander}
use wander_mind.Models.Budget.{WanderBudget}
use wander_mind.Models.Thought.{KnowledgePatch, RetrievedItem}
use wander_mind.Models.Session.{StopReason}
use wander_mind.Engine.Components.{Components}
use wander_mind.Engine.State.{RunState, ask}
use wander_mind.Engine.Admit.{
  Admission, skip, refuse, proceed, budget_stop, admit_patch, within_budget, admit,
  admit_uncancelled, has_pair, differ, patch_by_item,
}
use wander_mind.Engine.Safety.Invariant.{At, Raised}
use wander_mind.Engine.Safety.Moves.{left_from, Moves, cancel_requested-Moves}

-- A pair that is explored has a candidate, a step and, for a change of patch, a switch left.
pub record HasRoom (b : WanderBudget) (changes_patch : Bool) (s : RunState) : Type 0 where
  pub at : At b (1, 0) wander s
  pub step_left : s.wander_moves + 1 ≤ b.max_steps
  pub switch_left : s.patch_switches + (if changes_patch then 1 else 0) ≤ b.max_patch_switches

abbrev pub AdmitPost : WanderBudget → Admission → RunState → Type 0
AdmitPost b skip s = At b (0, 0) wander s
AdmitPost b (refuse ending) s = At b (0, 0) (left_from ending) s
AdmitPost b (proceed changes_patch) s = HasRoom b changes_patch s

-- With no budget spent, one more candidate and one more step fit.
budget_left :
    (w : Components) (s : RunState) (elapsed : Float)
    → budget_stop w s elapsed ≡ none
    → (length s.candidates + 1 ≤ s.session.budget.max_candidates)
      × (s.wander_moves + 1 ≤ s.session.budget.max_steps)
unfolding budget_stop
budget_left w s elapsed e = ground arith

module _ (w : Components) {b : WanderBudget} where
  admit_patch-At :
      (changes_patch : Bool) (s : RunState)
      → At b (1, 0) wander s
      → s.wander_moves + 1 ≤ b.max_steps
      → Holds
          (AdmitPost b)
          (Raised b)
          (admit_patch w changes_patch s).0
          (admit_patch w changes_patch s).1
  unfolding admit_patch ◌>>=◌
  admit_patch-At true s h m = ground arith
  admit_patch-At false s h m = ground arith

  with_room :
      (s : RunState)
      → At b (0, 0) wander s
      → length s.candidates + 1 ≤ b.max_candidates
      → At b (1, 0) wander s
  with_room s h c = record {
    machine = h.machine;
    state = h.state;
    running = h.running;
    indexed = h.indexed;
    bounds = ground arith;
  }

  within_budget-At :
      (changes_patch : Bool) (s : RunState) (elapsed : Float) (o : Option StopReason)
      → budget_stop w s elapsed ≡ o
      → At b (0, 0) wander s
      → Holds
          (AdmitPost b)
          (Raised b)
          (within_budget w changes_patch o s).0
          (within_budget w changes_patch o s).1
  unfolding within_budget ◌>>=◌
  within_budget-At changes_patch s elapsed (some reason) e h = h
  within_budget-At changes_patch s elapsed none e h =
      let (c, m) = budget_left w s elapsed e in
      admit_patch-At changes_patch s (with_room s h (rw h.bounds.budget at c))
        (rw h.bounds.budget at m)

  admit_cancel :
      (cancelled changes_patch : Bool) (s : RunState)
      → At b (0, 0) wander s
      → Holds
          (AdmitPost b)
          (Raised b)
          (admit_uncancelled w cancelled changes_patch s).0
          (admit_uncancelled w cancelled changes_patch s).1
  unfolding admit_uncancelled ask ◌>>=◌
  admit_cancel true changes_patch s h = h
  admit_cancel false changes_patch s h =
      within_budget-At changes_patch (record s { tick = s.tick + 1 }) (w.elapsed s.tick)
        (budget_stop w (record s { tick = s.tick + 1 }) (w.elapsed s.tick)) refl (ground arith)

  -- A pair is explored only where the candidates, the steps and the patch switches of the budget
  -- each allow for one more.
  pub admit-Moves :
      (patches : List KnowledgePatch) (processed : List (ℕ × ℕ)) (left right : RetrievedItem)
      → Moves b (0, 0) wander (admit w patches processed left right) (AdmitPost b)
  unfolding admit
  admit-Moves patches processed left right =
      Triple-if _ (has_pair processed (left.item.id, right.item.id)) _ _
        (λ _. Triple-pure _ skip (λ s h. h))
        (λ _. Triple-bind _ _ _ _ (cancel_requested-Moves w) (λ c. record {
          at =
              admit_cancel c
                (differ (patch_by_item patches left.item.id) (patch_by_item patches right.item.id));
        }))
