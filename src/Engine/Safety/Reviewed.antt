-- ===== src/Engine/Safety/Reviewed.antt =====
-- The score of a candidate, its review and its revision keep the invariant.
use wander_mind.Machine.{legal_transitions}
use wander_mind.Models.Budget.{WanderBudget}
use wander_mind.Engine.State.{RunState}
use wander_mind.Models.Thought.{KnowledgeItem, OperatorResult, Candidate, CandidateReviewResult}
use wander_mind.Engine.Safety.Explored.{OneCall}
use wander_mind.Engine.Review.{
  skip_review, revise_candidate, revision_ready, set_candidate, update_candidate, score_candidate,
  review_with, Judged, review_candidate, revise_with, explores,
}
use wander_mind.Engine.Components.{Components}
use wander_mind.Engine.Explore.{Found, save_calls, spend_calls}
use wander_mind.Engine.Safety.Moves.{
  attempt-Moves, gets-Moves, record_step-Moves, gets_eq-Moves, modify-Moves, attempt_with-Moves,
  Moves, transition_to-Moves,
}
use wander_mind.Engine.Safety.Invariant.{At}
use wander_mind.Prelude.{
  refl, ◌≡◌, ◌≤◌, ◌∷◌, [], arith, length-set_last, none, some, true, ltb, ltb→lt, ℕ, Option, List,
}
use wander_mind.Exec.Triple.{Triple-bind, Triple-pure, Triple-if, Triple-weaken, Triple-given}
use wander_mind.Models.Enums.CognitiveState.{score, explore, critique, failed}
use wander_mind.Models.Enums.{CognitiveState}

-- Where the machine stands after the review, made or not.
abbrev pub judged_state : Option CandidateReviewResult → CognitiveState
judged_state none = score
judged_state (some review) = critique

module _ {b : WanderBudget} {room : ℕ × ℕ} {m : CognitiveState} where
  pub updated :
      (candidate : Candidate) (s : RunState)
      → At b room m s
      → At b room m (update_candidate candidate s)
  unfolding update_candidate
  updated candidate s h =
      let n = length-set_last s.candidates candidate in
      record {
        machine = h.machine;
        state = h.state;
        running = h.running;
        indexed = h.indexed;
        bounds = ground arith;
      }

  replaced :
      (candidate : Candidate) (s : RunState)
      → At b room m s
      → At b room m (set_candidate candidate s)
  unfolding set_candidate
  replaced candidate s h =
      let n = length-set_last s.candidates candidate in
      record {
        machine = h.machine;
        state = h.state;
        running = h.running;
        indexed = h.indexed;
        bounds = ground arith;
      }

module _ (w : Components) {b : WanderBudget} {room : ℕ × ℕ} {m : CognitiveState} where
  pub score_candidate-Moves :
      (found : Found) (candidate : Candidate) (draft : OperatorResult)
      → legal_transitions m failed ≡ true
      → Moves b room m (score_candidate w found candidate draft) (λ _. At b room m)
  unfolding score_candidate
  score_candidate-Moves found candidate draft can_fail = Triple-bind _ _ _ _ gets-Moves λ s.
      Triple-bind _ _ _ _ (attempt-Moves _ _ (λ e. cc) can_fail) λ scored.
        Triple-bind _ _ _ _ (modify-Moves (update_candidate _) (updated _))
          λ _. Triple-pure _ _ (λ s h. h)

module _ (w : Components) {b : WanderBudget} where
  spare :
      (a s : RunState)
      → ltb a.runtime_calls_used a.session.budget.max_runtime_calls ≡ true
      → At b (0, 0) score s × (a ≡ s)
      → At b (0, 1) score s
  spare a s lt h =
      let below = ltb→lt s.runtime_calls_used s.session.budget.max_runtime_calls (rw h.1 at lt) in
      record {
        machine = h.0.machine;
        state = h.0.state;
        running = h.0.running;
        indexed = h.0.indexed;
        bounds = ground arith;
      }

  spent :
      (calls : ℕ) (s : RunState)
      → calls ≤ 1
      → At b (0, 1) explore s
      → At b (0, 0) explore (spend_calls calls s)
  unfolding spend_calls
  spent calls s c h = record {
    machine = h.machine;
    state = h.state;
    running = h.running;
    indexed = h.indexed;
    bounds = ground arith;
  }

  saved : (s : RunState) → At b (0, 0) explore s → At b (0, 0) explore (save_calls s)
  unfolding save_calls
  saved s h = ground arith

  review_with-Moves :
      (f : ℕ → Candidate → List KnowledgeItem → Option CandidateReviewResult) (found : Found)
      (j : Judged)
      → OneCall w
      → w.candidate_reviewer ≡ some f
      → Moves b (0, 1) score (review_with w f found j) (λ p. At b (0, 0) (judged_state p.1))
  unfolding review_with legal_transitions
  review_with-Moves f found j one present =
      Triple-bind _ _ _ _ (transition_to-Moves w explore _ _ _ refl) λ _.
        Triple-bind _ _ _ _
          (attempt_with-Moves (λ r. r.runtime_calls ≤ 1) _ _
            (λ t r e. one.reviewer f t j.candidate (found.left ∷ found.right ∷ []) r present e)
            (λ e. cc) refl)
          λ r.
            Triple-bind _ _ _ _
              (Triple-given _ _ _
                λ c. modify-Moves (spend_calls r.runtime_calls) (λ s. spent _ s c))
              λ _. Triple-bind _ _ _ _ (modify-Moves save_calls saved) λ _.
                Triple-bind _ _ _ _ (modify-Moves (update_candidate _) (updated _)) λ _.
                  Triple-bind _ _ _ _ (transition_to-Moves w critique _ _ _ refl)
                    λ _. Triple-pure _ _ (λ s h. h)

  skip_review-Moves :
      (j : Judged) → Moves b (0, 0) score (skip_review w j) (λ p. At b (0, 0) (judged_state p.1))
  unfolding skip_review
  skip_review-Moves j =
      Triple-bind _ _ _ _ (modify-Moves (update_candidate _) (updated _))
        λ _. Triple-bind _ _ _ _ (record_step-Moves w _ _ _ _) λ _. Triple-pure _ _ (λ s h. h)

  -- A review leaves the machine in `critique`, and none leaves it in `score`.
  pub review_candidate-Moves :
      (o : Option (ℕ → Candidate → List KnowledgeItem → Option CandidateReviewResult))
      (found : Found) (j : Judged)
      → OneCall w
      → w.candidate_reviewer ≡ o
      → Moves b (0, 0) score (review_candidate w o found j) (λ p. At b (0, 0) (judged_state p.1))
  unfolding review_candidate
  review_candidate-Moves none found j one present = Triple-pure _ _ (λ s h. h)
  review_candidate-Moves (some f) found j one present = Triple-bind _ _ _ _ gets_eq-Moves λ a.
      Triple-if _ (explores j.decision) _ _
        (λ _.
          Triple-if _ (ltb a.runtime_calls_used a.session.budget.max_runtime_calls) _ _
            (λ lt.
              Triple-weaken _ _ _ (λ s h. spare a s lt h) (review_with-Moves f found j one present))
            (λ _. Triple-weaken _ _ _ (λ s h. h.0) (skip_review-Moves j)))
        (λ _. Triple-pure _ _ (λ s h. h.0))

  revise_with-Moves :
      (found : Found) (j : Judged) (review : CandidateReviewResult)
      → Moves b (0, 0) critique (revise_with w found j review) (λ _. At b (0, 0) critique)
  unfolding revise_with legal_transitions
  revise_with-Moves found j review =
      Triple-bind _ _ _ _ (modify-Moves (set_candidate _) (replaced _)) λ _.
        Triple-bind _ _ _ _ (score_candidate-Moves w _ _ _ refl) λ k.
          Triple-bind _ _ _ _ (modify-Moves (update_candidate _) (updated _))
            λ _. Triple-pure _ _ (λ s h. h)

  pub revise_candidate-Moves :
      (found : Found) (j : Judged) (review : Option CandidateReviewResult)
      → Moves b
          (0, 0)
          (judged_state review)
          (revise_candidate w found j review)
          (λ _. At b (0, 0) (judged_state review))
  unfolding revise_candidate
  revise_candidate-Moves found j none = Triple-pure _ _ (λ s h. h)
  revise_candidate-Moves found j (some review) =
      Triple-if _ (revision_ready (some review)) _ _ (λ _. revise_with-Moves found j review)
        (λ _. Triple-pure _ _ (λ s h. h))
