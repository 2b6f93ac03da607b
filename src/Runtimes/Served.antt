-- ===== src/Runtimes/Served.antt =====
-- The engine's run with the synthesizer and the reviewer of
-- backend/src/wandermind/application/candidate_runtime_service.py, as the container puts them together.
use mathlib.Core.Path.{subst}
use mathlib.Core.Option.{some-injective}
use wander_mind.Prelude.{
  ℕ, ◌≤◌, ◌≡◌, sym, Option, none, some, List, inl, inr, Bool-cases, arith, String, text,
}
use wander_mind.Exec.{Result, ok, err, continue, gets, ◌>>=◌}
use wander_mind.Models.Thought.{
  Candidate, KnowledgeItem, OperatorContext, OperatorResult, CandidateSynthesisResult,
  CandidateReviewResult,
}
use wander_mind.Engine.Components.{Components}
use wander_mind.Engine.Safety.Explored.{OneCall}
use wander_mind.Runtimes.{RuntimeException, SessionRef, session_uuid, run_with_retry}
use wander_mind.Runtimes.Tracked.{Tracking, Tracked, run_task, start_session, close_session}
use wander_mind.Runtimes.Sessions.{
  is_runtime_error, is_answer_error, caught, closed, finally_close, started, with_session,
}
use wander_mind.Runtimes.Sanitize.{Reviewing}
use wander_mind.Runtimes.Review.{review}
use wander_mind.Runtimes.Synthesis.{
  synthesis_task, unverified, synthesized, ask_synthesis, keep_draft, synthesize,
}
use wander_mind.Runtimes.Grounded.{Acceptable, Promised, review-Promised}

-- A method's answer as the engine sees it: a result, or an exception.
unfoldable pub answer_of : {A : Type 0} → Result RuntimeException A → Option A
answer_of (ok a) = some a
answer_of (err e) = none

module _ (w : Reviewing) (max_retries : ℕ) where
  -- The components with the services put in: `at` is the tracked runtime at each question, in whatever
  -- state others have left it, and the id is that of the engine's session.
  unfoldable pub served : (ℕ → Tracking) → ℕ → Components → Components
  unfolding answer_of synthesize review
  served at session_id components = record components {
    candidate_synthesizer = some (λ t context draft.
        answer_of (synthesize w max_retries context draft (session_uuid session_id) (at t)).0);
    candidate_reviewer =
        some (λ t candidate items. answer_of (review w max_retries candidate items 1 (at t)).0);
  }

-- What holds of a result, if there is one.
abbrev Gives : {A : Type 0} → (A → Type 0) → Result RuntimeException A → Type 0
Gives P (ok a) = P a
Gives P (err e) = Unit

answered :
    {A : Type 0} (P : A → Type 0) (r : Result RuntimeException A) (a : A)
    → Gives P r
    → answer_of r ≡ some a
    → P a
unfolding answer_of
answered P (ok x) a h e = subst P (some-injective x a e) h
answered P (err x) a h e = absurd (cc e)

Gives-bind :
    {A B : Type 0} (P : B → Type 0) (m : Tracked A) (f : A → Tracked B)
    → ((a : A) (s : Tracking) → Gives P (f a s).0)
    → (s : Tracking) → Gives P ((m >>= f) s).0
unfolding ◌>>=◌
Gives-bind {A} P m f h s = next (m s).0 (m s).1
  where
    next : (r : Result RuntimeException A) (s : Tracking) → Gives P (continue r f s).0
    next (ok a) s = h a s
    next (err e) s = tt

module _ (w : Reviewing) where
  with_session-Gives :
      {A : Type 0} (P : A → Type 0) (purpose : String) (handler : RuntimeException → A)
      (body : Tracked A) (s : Tracking)
      → ((e : RuntimeException) → P (handler e))
      → ((s : Tracking) → Gives P (body s).0)
      → Gives P (with_session w.adapter purpose handler body s).0
  unfolding with_session
  with_session-Gives {A} P purpose handler body s handled h =
      begun (start_session w.adapter purpose s).0 (start_session w.adapter purpose s).1
    where
      ended :
          (r : Result RuntimeException A) (c : Result RuntimeException (Unit {0}))
          → Gives P r
          → Gives P (closed r c)
      ended r (ok u) p = p
      ended r (err e) p = elim (Bool-cases (is_runtime_error e)) [
        | inl runtime ↦ rw runtime p
        | inr other ↦ rw other tt
      ]

      begun :
          (r : Result RuntimeException (Unit {0})) (s : Tracking)
          → Gives P (started handler (finally_close w.adapter body) r s).0
      begun (ok u) s = ended (body s).0 (close_session w.adapter (body s).1).0 (h s)
      begun (err e) s = elim (Bool-cases (is_runtime_error e)) [
        | inl runtime ↦ rw runtime (handled e)
        | inr other ↦ rw other tt
      ]

  -- A synthesis counts as one call.
  CountsAtMostOne : CandidateSynthesisResult → Type 0
  CountsAtMostOne r = r.runtime_calls ≤ 1

  ask_synthesis-Gives :
      (n : ℕ) (context : OperatorContext) (draft : OperatorResult) (ref : SessionRef) (s : Tracking)
      → Gives CountsAtMostOne (ask_synthesis w n context draft ref s).0
  unfolding ask_synthesis CountsAtMostOne synthesized gets
  ask_synthesis-Gives n context draft ref =
      Gives-bind _ (run_with_retry (run_task w.adapter (synthesis_task w context draft ref)) n) _
        (λ result. Gives-bind _ _ _ (λ output s. omega arith))

  keep_draft-Gives :
      (draft : OperatorResult) (m : Tracked CandidateSynthesisResult) (s : Tracking)
      → Gives CountsAtMostOne (m s).0
      → Gives CountsAtMostOne (keep_draft w draft m s).0
  unfolding keep_draft CountsAtMostOne unverified
  keep_draft-Gives draft m s h = kept (m s).0 (m s).1 h
    where
      kept :
          (r : Result RuntimeException CandidateSynthesisResult) (s : Tracking)
          → Gives CountsAtMostOne r
          → Gives CountsAtMostOne
              (caught is_answer_error (unverified w draft (some (text s.session.provider))) r)
      kept (ok r) s h = h
      kept (err e) s h = elim (Bool-cases (is_answer_error e)) [
        | inl answer ↦ rw answer (omega arith)
        | inr other ↦ rw other tt
      ]

  synthesize-Gives :
      (n : ℕ) (context : OperatorContext) (draft : OperatorResult) (ref : SessionRef) (s : Tracking)
      → Gives CountsAtMostOne (synthesize w n context draft ref s).0
  unfolding synthesize CountsAtMostOne unverified
  synthesize-Gives n context draft ref s =
      with_session-Gives CountsAtMostOne "candidate_synthesis" (unverified w draft none)
        (keep_draft w draft (ask_synthesis w n context draft ref)) s (λ e. omega arith)
        (λ s.
          keep_draft-Gives draft (ask_synthesis w n context draft ref) s
            (ask_synthesis-Gives n context draft ref s))

  review-Gives :
      (n : ℕ) (c : Candidate) (items : List KnowledgeItem) (s : Tracking)
      → Gives (λ r. r.runtime_calls ≤ 1) (review w n c items 1 s).0
  unfolding Promised Acceptable
  review-Gives n c items s = calls (review w n c items 1 s).0 (review-Promised w items n c 1 s)
    where
      calls :
          (r : Result RuntimeException CandidateReviewResult)
          → Promised w items r
          → Gives (λ r. r.runtime_calls ≤ 1) r
      calls (ok r) h = h.0
      calls (err e) h = tt

  served-OneCall :
      (n : ℕ) (at : ℕ → Tracking) (session_id : ℕ) (components : Components)
      → OneCall (served w n at session_id components)
  unfolding served CountsAtMostOne
  served-OneCall n at session_id components = record {
    synthesizer = λ f t context d r present e.
        answered CountsAtMostOne _ r (synthesize-Gives n context d (session_uuid session_id) (at t))
          (subst (λ g. g t context d ≡ some r) (sym (some-injective _ _ present)) e);
    reviewer = λ f t candidate items r present e.
        answered (λ r. r.runtime_calls ≤ 1) _ r (review-Gives n candidate items (at t))
          (subst (λ g. g t candidate items ≡ some r) (sym (some-injective _ _ present)) e);
  }
