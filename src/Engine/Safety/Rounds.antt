-- ===== src/Engine/Safety/Rounds.antt =====
-- A round of the loop, and the loop, keep the invariant.
use wander_mind.Exec.{pure}
use wander_mind.Engine.Pairs.{ItemPair}
use wander_mind.Engine.Safety.Generated.{generate_candidate-Moves}
use wander_mind.Models.Budget.{WanderBudget}
use wander_mind.Engine.Safety.Moves.{attempt-Moves, left_from, Moves, At-room}
use wander_mind.Machine.{legal_transitions}
use wander_mind.Models.Thought.{KnowledgePatch, RetrievedItem}
use wander_mind.Engine.Explore.{Found}
use wander_mind.Engine.Admit.{skip, refuse, proceed, again, leave, Admission, Ending, Outcome}
use wander_mind.Engine.Safety.Invariant.{At, Raised}
use wander_mind.Engine.Components.{Components}
use wander_mind.Engine.Safety.Admitted.{HasRoom, admit-Moves, AdmitPost}
use wander_mind.Engine.Safety.Explored.{collide-Moves, CollidePost, OneCall, wander_move-Moves}
use wander_mind.Engine.Safety.Reviewed.{
  review_candidate-Moves, score_candidate-Moves, revise_candidate-Moves,
}
use wander_mind.Engine.State.{Run}
use wander_mind.Engine.Run.{act_on, judge_pair, explore_pair, round, loop, or_next}
use wander_mind.Engine.Safety.Promoted.{conclude-Moves, RoundPost}
use wander_mind.Prelude.{refl, ◌∷◌, [], true, false, ℕ, List, Bool, if◌then◌else◌}
use wander_mind.Exec.Triple.{Triple, Triple-bind, Triple-pure}
use wander_mind.Models.Enums.CognitiveState.{wander, collision}

module _ (w : Components) {b : WanderBudget} (one : OneCall w) where
  judge_pair-Moves : (found : Found) → Moves b (1, 0) collision (judge_pair w found) (RoundPost b)
  unfolding judge_pair legal_transitions
  judge_pair-Moves found = Triple-bind _ _ _ _ (generate_candidate-Moves w found one) λ g.
      Triple-bind _ _ _ _ (score_candidate-Moves w found g.0 _ refl) λ first.
        Triple-bind _ _ _ _ (review_candidate-Moves w w.candidate_reviewer found first one refl)
          λ p.
            Triple-bind _ _ _ _ (revise_candidate-Moves w found p.0 p.1)
              λ last. conclude-Moves w last _ p.1 found.novelty_gain

  after_collision :
      (found : Found) (strong : Bool)
      → Triple
          (CollidePost b strong)
          (if strong then judge_pair w found else pure again)
          (RoundPost b)
          (Raised b)
  after_collision found true = judge_pair-Moves found
  after_collision found false = Triple-pure _ again At-room

  explore_pair-Moves :
      (patches : List KnowledgePatch) (changes_patch : Bool) (left right : RetrievedItem)
      → Triple
          (HasRoom b changes_patch)
          (explore_pair w patches changes_patch left right)
          (RoundPost b)
          (Raised b)
  unfolding explore_pair legal_transitions
  explore_pair-Moves patches changes_patch left right =
      Triple-bind _ _ _ _ (wander_move-Moves w changes_patch _ _ left right) λ novelty_gain.
        Triple-bind _ _ _ _ (attempt-Moves _ _ (λ e. cc) refl)
          λ association. Triple-bind _ _ _ _ (collide-Moves w _) λ strong. after_collision _ strong

  act_on-Moves :
      (patches : List KnowledgePatch) (left right : RetrievedItem) (admission : Admission)
      → Triple
          (AdmitPost b admission)
          (act_on w patches left right admission)
          (RoundPost b)
          (Raised b)
  unfolding act_on
  act_on-Moves patches left right skip = Triple-pure _ again (λ s h. h)
  act_on-Moves patches left right (refuse ending) = Triple-pure _ _ (λ s h. h)
  act_on-Moves patches left right (proceed changes_patch) =
      explore_pair-Moves patches changes_patch left right

  round-Moves :
      (patches : List KnowledgePatch) (processed : List (ℕ × ℕ)) (left right : RetrievedItem)
      → Moves b (0, 0) wander (round w patches processed left right) (RoundPost b)
  unfolding round
  round-Moves patches processed left right =
      Triple-bind _ _ _ _ (admit-Moves w patches processed left right)
        λ a. act_on-Moves patches left right a

  or_next-Moves :
      (next : Run Ending) (outcome : Outcome)
      → Moves b (0, 0) wander next (λ ending. At b (0, 0) (left_from ending))
      → Triple
          (RoundPost b outcome)
          (or_next w next outcome)
          (λ ending. At b (0, 0) (left_from ending))
          (Raised b)
  or_next-Moves next again h = h
  or_next-Moves next (leave ending) h = Triple-pure _ _ (λ s h. h)

  -- Whatever the pairs, the loop is left from `wander`, or from `surface` where it completes.
  pub loop-Moves :
      (patches : List KnowledgePatch) (processed : List (ℕ × ℕ)) (pairs : List ItemPair)
      → Moves b
          (0, 0)
          wander
          (loop w patches processed pairs)
          (λ ending. At b (0, 0) (left_from ending))
  unfolding loop
  loop-Moves patches processed [] = Triple-pure _ _ (λ s h. h)
  loop-Moves patches processed ((left, right) ∷ pairs) =
      Triple-bind _ _ _ _ (round-Moves patches processed left right) λ outcome.
        or_next-Moves (loop w patches processed pairs) outcome (loop-Moves patches processed pairs)
