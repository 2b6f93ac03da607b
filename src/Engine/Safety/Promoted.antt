-- ===== src/Engine/Safety/Promoted.antt =====
-- The promotion of a candidate, or its falling short, keeps the invariant.
use wander_mind.Models.Session.{no_improvement_patience_exhausted}
use wander_mind.Scoring.Markers.{has_arbitrary_framing}
use wander_mind.Float.{Float}
use wander_mind.Machine.{legal_transitions}
use wander_mind.Engine.State.{RunState}
use wander_mind.Models.Budget.{WanderBudget}
use wander_mind.Engine.Review.{Judged, update_candidate}
use wander_mind.Engine.Safety.Moves.{
  transition_to-Moves, gets-Moves, modify-Moves, Moves, ask-Moves, left_from,
}
use wander_mind.Engine.Safety.Invariant.{At}
use wander_mind.Engine.Safety.Reviewed.{judged_state, updated}
use wander_mind.Models.Thought.{CandidateReviewResult, Candidate, Wonder}
use wander_mind.Engine.Components.{Components}
use wander_mind.Engine.Promote.{
  hit_guard, after_surface, store_wonder, set_stagnant, fall_short, add_wonder, promote, conclude,
}
use wander_mind.Engine.Surfacing.{surfaces}
use wander_mind.Engine.Admit.{Outcome, leave, break_loop, again}
use wander_mind.Prelude.{
  if◌then◌else◌, refl, ◌≡◌, ◌&&◌, arith, length, none, some, true, false, leb, is_some, ℕ, Option,
  Bool,
}
use wander_mind.Exec.Triple.{Triple-bind, Triple-pure, Triple-if}
use wander_mind.Models.Enums.CognitiveState.{wander, persist, surface}
use wander_mind.Models.Enums.{CognitiveState, GuardReason}

-- Where the machine stands when a round ends.
abbrev pub ended_state : Outcome → CognitiveState
ended_state again = wander
ended_state (leave ending) = left_from ending

abbrev pub RoundPost : WanderBudget → Outcome → RunState → Type 0
RoundPost b outcome s = At b (0, 0) (ended_state outcome) s

module _ {b : WanderBudget} {m : CognitiveState} where
  stored :
      (wonder : Wonder) (s : RunState) → At b (0, 0) m s → At b (0, 0) m (store_wonder wonder s)
  unfolding store_wonder
  stored wonder s h = ground arith

  extended :
      (wonder : Wonder) (s : RunState) → At b (0, 0) m s → At b (0, 0) m (add_wonder wonder s)
  unfolding add_wonder
  extended wonder s h = ground arith

  stagnant : (n : ℕ) (s : RunState) → At b (0, 0) m s → At b (0, 0) m (set_stagnant n s)
  unfolding set_stagnant
  stagnant n s h = ground arith

module _ {b : WanderBudget} {m : CognitiveState} where
  guarded :
      (o : Option GuardReason) (candidate : Candidate) (s : RunState)
      → At b (0, 0) m s
      → At b (0, 0) m (hit_guard o candidate s)
  unfolding hit_guard
  guarded none candidate s h = h
  guarded (some g) candidate s h = updated _ _ (ground arith)

patient :
    {b : WanderBudget} (out_of_patience : Bool) (s : RunState)
    → At b (0, 0) wander s
    → RoundPost b
        (if out_of_patience then leave (break_loop no_improvement_patience_exhausted) else again)
        s
patient true s h = h
patient false s h = h

to_persist :
    (review : Option CandidateReviewResult) → legal_transitions (judged_state review) persist ≡ true
unfolding legal_transitions
to_persist none = refl
to_persist (some review) = refl

to_wander :
    (review : Option CandidateReviewResult) → legal_transitions (judged_state review) wander ≡ true
unfolding legal_transitions
to_wander none = refl
to_wander (some review) = refl

module _ (w : Components) {b : WanderBudget} where
  after_surface-Moves : Moves b (0, 0) surface (after_surface w) (RoundPost b)
  unfolding after_surface legal_transitions
  after_surface-Moves = Triple-bind _ _ _ _ gets-Moves λ s.
      Triple-if _ s.session.budget.stop_on_first_wonder _ _ (λ _. Triple-pure _ _ (λ s h. h))
        (λ _.
          Triple-if _
            (leb s.session.budget.min_candidates (length s.candidates)
              && leb s.session.budget.target_wonders (length s.wonders))
            _ _ (λ _. Triple-pure _ _ (λ s h. h))
            (λ _.
              Triple-bind _ _ _ _ (transition_to-Moves w wander _ _ _ refl)
                λ _. Triple-pure _ _ (λ s h. h)))

  promote-Moves :
      (m : CognitiveState) (j : Judged) (review : Option CandidateReviewResult)
      → legal_transitions m persist ≡ true
      → Moves b (0, 0) m (promote w j review) (RoundPost b)
  unfolding promote legal_transitions
  promote-Moves m j review legal =
      Triple-bind _ _ _ _ (transition_to-Moves w persist _ _ _ legal) λ _.
        Triple-bind _ _ _ _ (ask-Moves w.uuid4) λ id. Triple-bind _ _ _ _ (ask-Moves w.now) λ now.
          Triple-bind _ _ _ _ gets-Moves λ s.
            Triple-bind _ _ _ _ (modify-Moves (store_wonder _) (stored _)) λ _.
              Triple-bind _ _ _ _ (modify-Moves (update_candidate _) (updated _)) λ _.
                Triple-bind _ _ _ _ (modify-Moves (add_wonder _) (extended _)) λ _.
                  Triple-bind _ _ _ _ (transition_to-Moves w surface _ _ _ refl) λ _.
                    Triple-bind _ _ _ _ (modify-Moves (set_stagnant 0) (stagnant 0))
                      λ _. after_surface-Moves

  fall_short-Moves :
      (m : CognitiveState) (j : Judged) (novelty_gain : Float)
      → legal_transitions m wander ≡ true
      → Moves b (0, 0) m (fall_short w j novelty_gain) (RoundPost b)
  unfolding fall_short
  fall_short-Moves m j novelty_gain legal =
      Triple-bind _ _ _ _ (modify-Moves (hit_guard _ _) (guarded _ _)) λ _.
        Triple-bind _ _ _ _ (modify-Moves _ (λ s h. stagnant _ s h)) λ _.
          Triple-bind _ _ _ _ (transition_to-Moves w wander _ _ _ legal)
            λ _. Triple-bind _ _ _ _ gets-Moves λ s. Triple-pure _ _ (λ u h. patient _ u h)

  -- From `score` or `critique` the rest of a round makes legal moves only.
  pub conclude-Moves :
      (j : Judged) (verified : Bool) (review : Option CandidateReviewResult) (novelty_gain : Float)
      → Moves b
          (0, 0)
          (judged_state review)
          (conclude w j verified review novelty_gain)
          (RoundPost b)
  unfolding conclude legal_transitions
  conclude-Moves j verified review novelty_gain = Triple-bind _ _ _ _ gets-Moves λ s.
      Triple-if _
        (surfaces (is_some w.candidate_reviewer) verified
          (has_arbitrary_framing w.casefold s.seed.content) j.scores j.decision review)
        _ _ (λ _. promote-Moves (judged_state review) j review (to_persist review))
        (λ _. fall_short-Moves (judged_state review) j novelty_gain (to_wander review))
