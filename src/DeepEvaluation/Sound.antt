-- ===== src/DeepEvaluation/Sound.antt =====
-- What a deep evaluation by backend/src/wandermind/application/explore_service.py comes to, whatever the
-- runtime answers.
use wander_mind.Prelude.{
  ℕ, ◌+◌, ◌≤◌, ◌≡◌, refl, Bool, true, false, ◌&&◌, List, is_some, ltb, length, min, if◌then◌else◌,
  arith,
}
use wander_mind.Exec.{Result, ok, err}
use wander_mind.Models.Thought.{Candidate, KnowledgeItem}
use wander_mind.Models.Evaluation.{EvaluationStatus, DeepEvaluationResult}
use wander_mind.Runtimes.{RuntimeException}
use wander_mind.Runtimes.Tracked.{Tracking}
use wander_mind.Runtimes.Opened.{Refused}
use wander_mind.Runtimes.Handled.{Ends}
use wander_mind.DeepEvaluation.{Evaluating}
use wander_mind.DeepEvaluation.Services.{evaluate}
use wander_mind.DeepEvaluation.Evidence.{IsSourced}
use wander_mind.DeepEvaluation.Stages.{opened, rejects, Behind, stages-Opens}

-- What an evaluation returns: the explorer is asked first where it is wanted, and evidence and
-- critique only where the budget has calls left.
pub record IsSound (context : List KnowledgeItem) (max_runtime_calls : ℕ) (include_explorer : Bool)
    (r : DeepEvaluationResult) : Type 0 where
  pub explored : is_some r.explorer ≡ true → (include_explorer ≡ true) × (1 ≤ max_runtime_calls)
  pub sourced : IsSourced context r.evidence
  pub completed :
      r.evidence.status ≡ EvaluationStatus.completed
      → (if include_explorer then 2 else 1) ≤ max_runtime_calls
  pub criticised :
      rejects r.critic.verdict ≡ false → (if include_explorer then 3 else 2) ≤ max_runtime_calls

-- The tests of `evaluate`.
abbrev first_call : ℕ → Bool → Bool
first_call n wanted = wanted && ltb 0 n

abbrev used : ℕ → Bool → ℕ
used n wanted = if first_call n wanted then 1 else 0

abbrev second_call : ℕ → Bool → Bool
second_call n wanted = ltb (used n wanted) n

abbrev third_call : ℕ → Bool → Bool
third_call n wanted = ltb (if second_call n wanted then used n wanted + 1 else used n wanted) n

opened-within :
    (n k : ℕ) (wanted : Bool)
    → opened (third_call n wanted) (opened (second_call n wanted) (opened (first_call n wanted) k))
      ≤ k + min n (if wanted then 3 else 2)
opened-within n k true = ground arith
opened-within n k false = ground arith

Behind-IsSound :
    (context : List KnowledgeItem) (n : ℕ) (wanted : Bool) (r : DeepEvaluationResult)
    → Behind context (first_call n wanted) (second_call n wanted) (third_call n wanted) r
    → IsSound context n wanted r
Behind-IsSound context n true r h = record {
  explored = λ e. (refl, ground (arith, h.explored e));
  sourced = h.sourced;
  completed = λ e. ground (arith, h.completed e);
  criticised = λ e. ground (arith, h.criticised e);
}
Behind-IsSound context n false r h = record {
  explored = λ e. absurd (cc (h.explored e));
  sourced = h.sourced;
  completed = λ e. ground (arith, h.completed e);
  criticised = λ e. ground (arith, h.criticised e);
}

module _ (w : Evaluating) (candidate : Candidate) (context : List KnowledgeItem) where
  -- Whatever the runtime and the validation answer, an evaluation opens at most `max_runtime_calls`
  -- sessions, and at most three, two without an explorer. What it returns has references that are
  -- distinct ones of the context, no claim and an uncertainty of at least 0.8 where there is none,
  -- evidence that is completed or a verdict other than reject only where the calls sufficed for it.
  -- What it raises is a runtime error only if the runtime refused with it to start a session.
  pub evaluate-IsSound :
      (max_runtime_calls : ℕ) (include_explorer : Bool) (s : Tracking)
      → Ends
          (length s.runtime_sessions + min max_runtime_calls (if include_explorer then 3 else 2))
          (IsSound context max_runtime_calls include_explorer)
          (Refused w.adapter)
          (evaluate w candidate context max_runtime_calls include_explorer s).0
          (evaluate w candidate context max_runtime_calls include_explorer s).1
  unfolding evaluate
  evaluate-IsSound n wanted s =
      ended (evaluate w candidate context n wanted s).0 (evaluate w candidate context n wanted s).1
        ((stages-Opens w candidate context (first_call n wanted) (second_call n wanted)
            (third_call n wanted) (length s.runtime_sessions)).at
          s (omega arith))
    where
      k : ℕ
      k = length s.runtime_sessions

      ended :
          (r : Result RuntimeException DeepEvaluationResult) (t : Tracking)
          → Ends
              (opened
                (third_call n wanted)
                (opened (second_call n wanted) (opened (first_call n wanted) k)))
              (Behind context (first_call n wanted) (second_call n wanted) (third_call n wanted))
              (Refused w.adapter)
              r
              t
          → Ends
              (k + min n (if wanted then 3 else 2))
              (IsSound context n wanted)
              (Refused w.adapter)
              r
              t
      ended (ok r) t h =
          (Behind-IsSound context n wanted r h.0, omega (arith, h.1, opened-within n k wanted))
      ended (err e) t h = (h.0, omega (arith, h.1, opened-within n k wanted))
