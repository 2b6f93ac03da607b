-- ===== src/Engine/Safety/Generated.antt =====
-- The operator, its synthesis and the new candidate of a round keep the invariant.
use wander_mind.Machine.{legal_transitions}
use wander_mind.Engine.Components.{Components}
use wander_mind.Engine.Safety.Explored.{synthesize_with-Moves, OneCall}
use wander_mind.Engine.Safety.Invariant.{At}
use wander_mind.Engine.State.{RunState}
use wander_mind.Models.Budget.{WanderBudget}
use wander_mind.Models.Thought.{
  OperatorResult, Candidate, CandidateSynthesisResult, OperatorContext,
}
use wander_mind.Engine.Explore.{
  save_calls, add_candidate, Found, generate_candidate, use_operator, synthesize,
}
use wander_mind.Engine.Safety.Moves.{
  attempt-Moves, gets_eq-Moves, modify-Moves, gets-Moves, transition_to-Moves, ask-Moves, Moves,
}
use wander_mind.Prelude.{
  refl, ◌≡◌, ◌∷◌, [], arith, length-append, none, some, true, ltb, ltb→lt, ℕ, Option, String,
}
use wander_mind.Exec.Triple.{Triple-bind, Triple-pure, Triple-if, Triple-weaken}
use wander_mind.Models.Enums.CognitiveState.{collision, generate, score}

module _ (w : Components) {b : WanderBudget} where
  spare :
      (a s : RunState)
      → ltb a.runtime_calls_used a.session.budget.max_runtime_calls ≡ true
      → At b (1, 0) generate s × (a ≡ s)
      → At b (1, 1) generate s
  spare a s lt h =
      let below = ltb→lt s.runtime_calls_used s.session.budget.max_runtime_calls (rw h.1 at lt) in
      record {
        machine = h.0.machine;
        state = h.0.state;
        running = h.0.running;
        indexed = h.0.indexed;
        bounds = ground arith;
      }

  synthesize-Moves :
      (o : Option (ℕ → OperatorContext → OperatorResult → Option CandidateSynthesisResult))
      (context : OperatorContext) (operator : String) (draft : OperatorResult)
      → OneCall w
      → w.candidate_synthesizer ≡ o
      → Moves b (1, 0) generate (synthesize w o context operator draft) (λ _. At b (1, 0) generate)
  unfolding synthesize
  synthesize-Moves none context operator draft one present = Triple-pure _ _ (λ s h. h)
  synthesize-Moves (some f) context operator draft one present =
      Triple-bind _ _ _ _ gets_eq-Moves λ a.
        Triple-if _ (ltb a.runtime_calls_used a.session.budget.max_runtime_calls) _ _
          (λ lt.
            Triple-weaken _ _ _ (λ s h. spare a s lt h)
              (synthesize_with-Moves w f context operator draft one present))
          (λ _. Triple-pure _ _ (λ s h. h.0))

  used_operator :
      (operator : String) (s : RunState)
      → At b (1, 0) collision s
      → At b (1, 0) collision (use_operator operator s)
  unfolding use_operator
  used_operator operator s h = ground arith

  saved_calls : (s : RunState) → At b (1, 0) generate s → At b (1, 0) generate (save_calls s)
  unfolding save_calls
  saved_calls s h = ground arith

  added :
      (candidate : Candidate) (s : RunState)
      → At b (1, 0) generate s
      → At b (0, 0) generate (add_candidate candidate s)
  unfolding add_candidate
  added candidate s h =
      let n = length-append {0} s.candidates (candidate ∷ []) in
      record {
        machine = h.machine;
        state = h.state;
        running = h.running;
        indexed = h.indexed;
        bounds = ground arith;
      }

  -- From a collision with room for a candidate to a candidate that waits for its score.
  pub generate_candidate-Moves :
      (found : Found)
      → OneCall w
      → Moves b (1, 0) collision (generate_candidate w found) (λ _. At b (0, 0) score)
  unfolding generate_candidate legal_transitions
  generate_candidate-Moves found one = Triple-bind _ _ _ _ gets-Moves λ s.
      Triple-bind _ _ _ _ (attempt-Moves _ _ (λ e. cc) refl) λ operator.
        Triple-bind _ _ _ _ (modify-Moves (use_operator _) (used_operator _)) λ _.
          Triple-bind _ _ _ _ (transition_to-Moves w generate _ _ _ refl) λ _.
            Triple-bind _ _ _ _ (attempt-Moves _ _ (λ e. cc) refl) λ draft.
              Triple-bind _ _ _ _ (synthesize-Moves w.candidate_synthesizer _ _ draft one refl) λ r.
                Triple-bind _ _ _ _ (modify-Moves save_calls saved_calls) λ _.
                  Triple-bind _ _ _ _ (ask-Moves w.uuid4) λ id.
                    Triple-bind _ _ _ _ gets-Moves λ now.
                      Triple-bind _ _ _ _ (modify-Moves (add_candidate _) (added _)) λ _.
                        Triple-bind _ _ _ _ (transition_to-Moves w score _ _ _ refl)
                          λ _. Triple-pure _ _ (λ s h. h)
