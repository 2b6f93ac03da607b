-- ===== src/Engine/Safety/Finished.antt =====
-- How a run ends: `_stop`, `_complete` and the handler of an exception.

use wander_mind.Machine.{legal_transitions}
use wander_mind.Engine.Safety.Moves.{ask-Moves, transition_to-Moves, Moves, gets_eq-Moves}
use wander_mind.Engine.Components.{Components}
use wander_mind.Models.Budget.{WanderBudget}
use wander_mind.Engine.Safety.Invariant.{Bounds, At, IsIndexed, Raised}
use wander_mind.Engine.State.{Run, Write, save_session, RunState, session_row, ask, write}
use wander_mind.Models.Session.{StopReason, WanderError, failure}
use wander_mind.Engine.Finish.{
  reload_seed, ranks_below, end_session, rank_result, use_seed, WanderRunResult, is_completed,
  handle_error, mark_seed_used, stop, stop_if_legal, complete, fail_if_legal,
}
use mathlib.Core.Bool.{false≢true}
use wander_mind.Prelude.{
  sym, ◌∙◌, refl, ◌≡◌, ◌∷◌, some, true, ℕ, List, Bool, arith, if◌then◌else◌, is_some,
}
use wander_mind.Prelude.Sort.{sort_desc}
use wander_mind.Exec.{◌>>◌, ◌>>=◌, pure, modify, Result, ok, err}
use wander_mind.Exec.Triple.{Triple, Triple-bind, Triple-if, Triple-weaken, Holds}
use wander_mind.Models.Enums.CognitiveState.{stopped, failed, surface}
use wander_mind.Models.Enums.{CognitiveState, SessionStatus}

-- A session that has ended in `state` with `status`, and the bounds of its budget.
pub record Ended (b : WanderBudget) (state : CognitiveState) (status : SessionStatus)
    (reason : StopReason) (s : RunState) : Type 0 where
  pub machine : s.machine ≡ state
  pub session_state : s.session.state ≡ state
  pub session_status : s.session.status ≡ status
  pub ended_at : is_some s.session.ended_at ≡ true
  pub stop_reason : s.session.trace.stop_reason ≡ some reason
  pub indexed : IsIndexed s.session.trace.steps
  pub bounds : Bounds b (0, 0) s

-- The last write is the session as it is.
pub record IsSaved (s : RunState) : Type 0 where
  pub before : List Write
  pub saved : s.writes ≡ session_row s.session ∷ before

-- The result that is returned: the session as it was saved last, all candidates, and the wonders in
-- the order of their rank.
pub record Finished (b : WanderBudget) (status : SessionStatus) (reason : StopReason)
    (result : WanderRunResult) (s : RunState) : Type 0 where
  pub ended : Ended b stopped status reason s
  pub session : result.session ≡ s.session
  pub saved : IsSaved s
  pub candidates : result.candidates ≡ s.candidates
  pub wonders : result.wonders ≡ sort_desc ranks_below s.wonders

abbrev Finishes :
    {A : Type 0}
    → WanderBudget
    → SessionStatus
    → StopReason
    → Run A
    → (A → RunState → Type 0)
    → Type 0
Finishes b status reason action Q = Triple (Ended b stopped status reason) action Q (Raised b)

module _ {b : WanderBudget} {m : CognitiveState} where
  end_session_at :
      (now : ℕ) (status : SessionStatus) (reason : StopReason) (s : RunState)
      → At b (0, 0) m s
      → Ended b m status reason (end_session now status reason s)
  unfolding end_session
  end_session_at now status reason s h = record {
    machine = h.machine;
    session_state = h.state;
    session_status = refl;
    ended_at = refl;
    stop_reason = refl;
    indexed = h.indexed;
    bounds = ground arith;
  }

module _ (w : Components) {b : WanderBudget} {status : SessionStatus} {reason : StopReason} where
  reload_seed-Finishes :
      (completed : Bool)
      → Finishes b status reason (reload_seed w completed) (λ _. Ended b stopped status reason)
  unfolding reload_seed use_seed ◌>>=◌ ask write
  reload_seed-Finishes completed = record { at = λ s h. ground arith }

  rank_and_save :
      Finishes b status reason
        (do result ← rank_result; save_session; pure result)
        (Finished b status reason)
  unfolding rank_result save_session ◌>>=◌
  rank_and_save = record {
    at = λ s h. record {
      ended = ground arith;
      session = refl;
      saved = record { before = s.writes; saved = refl };
      candidates = refl;
      wonders = refl;
    };
  }

module _ (w : Components) {b : WanderBudget} where
  stop_if_legal-Moves :
      (m : CognitiveState) (reason : StopReason)
      → legal_transitions m stopped ≡ true
      → Moves b (0, 0) m (stop_if_legal w reason) (λ _. At b (0, 0) stopped)
  unfolding stop_if_legal
  stop_if_legal-Moves m reason legal = Triple-bind _ _ _ _ gets_eq-Moves λ a.
      Triple-if _ (legal_transitions a.machine stopped) _ _
        (λ _. Triple-weaken _ _ _ (λ s h. h.0) (transition_to-Moves w stopped _ _ _ legal))
        (λ refused. record {
          at = λ s h. absurd (false≢true (sym (rw (h.1, h.0.machine) at refused) ∙ legal));
        })

  ends :
      (now : ℕ) (status : SessionStatus) (reason : StopReason)
      → Moves b
          (0, 0)
          stopped
          (modify (end_session now status reason))
          (λ _. Ended b stopped status reason)
  unfolding modify
  ends now status reason = record { at = end_session_at now status reason }

  -- From a state that may stop, `_stop` ends the session and saves it last.
  pub stop-Moves :
      (m : CognitiveState) (reason : StopReason)
      → legal_transitions m stopped ≡ true
      → Moves b
          (0, 0)
          m
          (stop w reason)
          (Finished b
            (if is_completed reason then SessionStatus.completed else SessionStatus.stopped)
            reason)
  unfolding stop
  stop-Moves m reason legal = Triple-bind _ _ _ _ (stop_if_legal-Moves m reason legal) λ _.
      Triple-bind _ _ _ _ (ask-Moves w.now) λ now.
        Triple-bind _ _ _ _ (ends now _ reason) λ _.
          Triple-bind _ _ _ _ (reload_seed-Finishes w (is_completed reason)) λ _. rank_and_save w

  marks :
      (now : ℕ) {reason : StopReason}
      → Finishes b SessionStatus.completed reason
          (modify (mark_seed_used w now))
          (λ _. Ended b stopped SessionStatus.completed reason)
  unfolding modify mark_seed_used
  marks now = record { at = λ s h. ground arith }

  asks :
      {A : Type 0} (f : ℕ → A) {reason : StopReason}
      → Finishes b SessionStatus.completed reason
          (ask f)
          (λ _. Ended b stopped SessionStatus.completed reason)
  unfolding ask
  asks f = record { at = λ s h. ground arith }

  pub complete-Moves :
      (reason : StopReason)
      → Moves b (0, 0) surface (complete w reason) (Finished b SessionStatus.completed reason)
  unfolding complete legal_transitions
  complete-Moves reason = Triple-bind _ _ _ _ (stop_if_legal-Moves surface reason refl) λ _.
      Triple-bind _ _ _ _ (ask-Moves w.now) λ now. Triple-bind _ _ _ _ (ends now _ reason) λ _.
        Triple-bind _ _ _ _ (asks w.now)
          λ used_at. Triple-bind _ _ _ _ (marks used_at) λ _. rank_and_save w

-- Nothing is raised.
abbrev pub Never : WanderError → RunState → Type 0
Never e s = ⊥

-- The session is as it was saved last.
pub record Failed (b : WanderBudget) (e : WanderError) (s : RunState) : Type 0 where
  pub ended : Ended b failed SessionStatus.failed (failure e) s
  pub saved : IsSaved s

module _ (w : Components) {b : WanderBudget} (e : WanderError) where
  fail_if_legal-Never :
      (m : CognitiveState)
      → legal_transitions m failed ≡ true
      → Triple (At b (0, 0) m) (fail_if_legal w e) (λ _. At b (0, 0) failed) Never
  unfolding fail_if_legal
  fail_if_legal-Never m legal = Triple-bind _ _ _ _ gets_eq-Moves λ a.
      Triple-if _ (legal_transitions a.machine failed) _ _
        (λ _. Triple-weaken _ _ _ (λ s h. h.0) (transition_to-Moves w failed _ _ _ legal))
        (λ refused. record {
          at = λ s h. absurd (false≢true (sym (rw (h.1, h.0.machine) at refused) ∙ legal));
        })

  fails :
      (now : ℕ)
      → Triple
          (At b (0, 0) failed)
          (modify (end_session now SessionStatus.failed (failure e)))
          (λ _. Ended b failed SessionStatus.failed (failure e))
          Never
  unfolding modify
  fails now = record { at = end_session_at now SessionStatus.failed (failure e) }

  saves :
      Triple (Ended b failed SessionStatus.failed (failure e)) save_session (λ _. Failed b e) Never
  unfolding save_session
  saves = record {
    at = λ s h. record { ended = ground arith; saved = record { before = s.writes; saved = refl } };
  }

  handle_error-Never :
      (m : CognitiveState)
      → legal_transitions m failed ≡ true
      → Triple (At b (0, 0) m) (handle_error w e) (λ _. Failed b e) Never
  unfolding handle_error
  handle_error-Never m legal =
      Triple-bind _ _ _ _ (fail_if_legal-Never m legal)
        λ _. Triple-bind _ _ _ _ (ask-Moves w.now) λ now. Triple-bind _ _ _ _ (fails now) λ _. saves

value_of_Never :
    {A : Type 0} (Q : RunState → Type 0) (r : Result WanderError A) (s : RunState)
    → Holds (λ _. Q) Never r s
    → Q s
value_of_Never Q (ok a) s h = h
value_of_Never Q (err e) s h = absurd h

-- The handler takes the session to `failed`, with the error as the reason, and saves it last.
pub handle_error-Failed :
    (w : Components) {b : WanderBudget} (e : WanderError) (s : RunState)
    → Raised b e s
    → Failed b e (handle_error w e s).1
handle_error-Failed w e s h =
    value_of_Never _ (handle_error w e s).0 (handle_error w e s).1
      ((handle_error-Never w e s.machine h.can_fail).at s h.inside)
