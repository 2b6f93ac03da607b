-- ===== src/Engine/Safety/Explored.antt =====
-- The move, the collision and the new candidate of a round keep the invariant.
use wander_mind.Engine.State.{RunState}
use wander_mind.Machine.{legal_transitions}
use wander_mind.Engine.Safety.Invariant.{Raised, At}
use wander_mind.Engine.Safety.Moves.{
  modify-Moves, Moves, transition_to-Moves, gets-Moves, record_step-Moves, attempt_with-Moves,
}
use wander_mind.Models.Thought.{
  RetrievedItem, OperatorContext, KnowledgePatch, CandidateSynthesisResult, CandidateReviewResult,
  Candidate, OperatorResult, KnowledgeItem,
}
use wander_mind.Engine.Explore.{
  collide, visit, count_move, wander_move, Found, spend_calls, synthesize_with,
}
use wander_mind.Float.{f0_15}
use wander_mind.Engine.Safety.Admitted.{HasRoom}
use wander_mind.Prelude.{refl, ◌≡◌, ◌≤◌, Bool, Option, List, arith, ltb, false, some, true, String}
use Prim.Native.Nat.{ℕ}
use wander_mind.Exec.{modify}
use wander_mind.Exec.Triple.{Triple, Triple-bind, Triple-pure, Triple-if, Triple-given}
use wander_mind.Models.Enums.CognitiveState.{wander, collision, generate}
use wander_mind.Models.Budget.{WanderBudget}
use wander_mind.Engine.Components.{Components}

-- Each call of the synthesizer and of the reviewer is accounted for as one runtime call at most.
pub record OneCall (w : Components) : Type 0 where
  pub synthesizer :
      (f : ℕ → OperatorContext → OperatorResult → Option CandidateSynthesisResult) (t : ℕ)
      (context : OperatorContext) (draft : OperatorResult) (r : CandidateSynthesisResult)
      → w.candidate_synthesizer ≡ some f
      → f t context draft ≡ some r
      → r.runtime_calls ≤ 1
  pub reviewer :
      (f : ℕ → Candidate → List KnowledgeItem → Option CandidateReviewResult) (t : ℕ)
      (candidate : Candidate) (items : List KnowledgeItem) (r : CandidateReviewResult)
      → w.candidate_reviewer ≡ some f
      → f t candidate items ≡ some r
      → r.runtime_calls ≤ 1

abbrev pub CollidePost : WanderBudget → Bool → RunState → Type 0
CollidePost b true s = At b (1, 0) collision s
CollidePost b false s = At b (1, 0) wander s

module _ (w : Components) {b : WanderBudget} where
  counted :
      (changes_patch : Bool) (s : RunState)
      → HasRoom b changes_patch s
      → At b (1, 0) wander (count_move changes_patch s)
  unfolding count_move
  counted changes_patch s h = record {
    machine = h.at.machine;
    state = h.at.state;
    running = h.at.running;
    indexed = h.at.indexed;
    bounds = ground arith;
  }

  visited :
      (left right : KnowledgeItem) (s : RunState)
      → At b (1, 0) wander s
      → At b (1, 0) wander (visit left right s)
  unfolding visit
  visited left right s h = ground arith

  -- A move spends the step and the patch switch that it was admitted with.
  pub wander_move-Moves :
      (changes_patch : Bool) (from to : Option KnowledgePatch) (left right : RetrievedItem)
      → Triple
          (HasRoom b changes_patch)
          (wander_move w changes_patch from to left right)
          (λ _. At b (1, 0) wander)
          (Raised b)
  unfolding wander_move modify
  wander_move-Moves changes_patch from to left right =
      Triple-bind _ _ _ _ (record { at = counted changes_patch })
        λ _. Triple-bind _ _ _ _ gets-Moves λ s.
          Triple-bind _ _ _ _
            (modify-Moves (visit left.item right.item) (visited left.item right.item))
            λ _. Triple-bind _ _ _ _ (record_step-Moves w _ _ _ _) λ _. Triple-pure _ _ (λ s h. h)

  pub collide-Moves : (found : Found) → Moves b (1, 0) wander (collide w found) (CollidePost b)
  unfolding collide legal_transitions
  collide-Moves found = Triple-bind _ _ _ _ (transition_to-Moves w collision _ _ _ refl) λ _.
      Triple-if _ (ltb found.association.strength f0_15) _ _
        (λ _.
          Triple-bind _ _ _ _ (transition_to-Moves w wander _ _ _ refl)
            λ _. Triple-pure _ false (λ s h. h))
        (λ _. Triple-pure _ true (λ s h. h))

  spent :
      (calls : ℕ) (s : RunState)
      → calls ≤ 1
      → At b (1, 1) generate s
      → At b (1, 0) generate (spend_calls calls s)
  unfolding spend_calls
  spent calls s c h = record {
    machine = h.machine;
    state = h.state;
    running = h.running;
    indexed = h.indexed;
    bounds = ground arith;
  }

  -- With a call left in the budget the synthesizer keeps to it.
  pub synthesize_with-Moves :
      (f : ℕ → OperatorContext → OperatorResult → Option CandidateSynthesisResult)
      (context : OperatorContext) (operator : String) (draft : OperatorResult)
      → OneCall w
      → w.candidate_synthesizer ≡ some f
      → Moves b
          (1, 1)
          generate
          (synthesize_with w f context operator draft)
          (λ _. At b (1, 0) generate)
  unfolding synthesize_with legal_transitions
  synthesize_with-Moves f context operator draft one present =
      Triple-bind _ _ _ _ (record_step-Moves w _ _ _ _) λ _.
        Triple-bind _ _ _ _
          (attempt_with-Moves (λ r. r.runtime_calls ≤ 1) _ _
            (λ t r e. one.synthesizer f t context draft r present e) (λ e. cc) refl)
          λ r.
            Triple-bind _ _ _ _
              (Triple-given _ _ _
                λ c. modify-Moves (spend_calls r.runtime_calls) (λ s. spent _ s c))
              λ _. Triple-bind _ _ _ _ (record_step-Moves w _ _ _ _) λ _. Triple-pure _ r (λ s h. h)
