-- ===== src/DeepEvaluation/Stages.antt =====
-- The three stages of `DeepEvaluationService.evaluate` of
-- backend/src/wandermind/application/explore_service.py: what each leaves, and how many sessions it opens.
use wander_mind.Prelude.{
  ℕ, suc, ◌≤◌, ◌≡◌, refl, inl, inr, ◌⊎◌, Bool, true, false, Option, none, some, List, is_some,
  contains, if◌then◌else◌, Text, arith,
}
use wander_mind.Exec.{Result, ok, err, pure, ◌>>=◌}
use wander_mind.Exec.Triple.{Holds, Triple-bind, Triple-pure, Triple-post}
use wander_mind.Models.Thought.{Candidate, KnowledgeItem}
use wander_mind.Models.Evaluation.{
  EvidenceOutput, EvaluationStatus, CriticVerdict, DeepEvaluationResult,
}
use wander_mind.Runtimes.{
  RuntimeErrorBase, RuntimeException, runtime_error, validation_error, RuntimeTask, run_with_retry,
}
use wander_mind.Runtimes.Tracked.{Tracking, Tracked, run_task, error_name}
use wander_mind.Runtimes.Sessions.{is_runtime_error, is_answer_error, except, in_session, validated}
use wander_mind.Runtimes.Opened.{Within, Opens, Refused, run_task-Quiet, run_with_retry-Quiet}
use wander_mind.Runtimes.Handled.{
  Ends, Other-IsRefused, unanswered-IsRefused, except-Opens, in_session-Opens,
}
use wander_mind.DeepEvaluation.{Evaluating}
use wander_mind.DeepEvaluation.Prompts.{
  explorer_task, evidence_task, critic_task, critic_unavailable,
}
use wander_mind.DeepEvaluation.Services.{
  no_evidence, no_critique, collected, ask, explore, ask_evidence, collect, critique, explore_some,
  explore_if, collect_if, critique_if,
}
use wander_mind.DeepEvaluation.Evidence.{IsSourced, sanitize_evidence-IsSourced}

no_evidence-IsSourced :
    (context : List KnowledgeItem) (t : Text) → IsSourced context (no_evidence t)
unfolding no_evidence contains
no_evidence-IsSourced context t = record {
  sourced = tt;
  unsourced = λ e. (refl, refl, omega arith);
}

-- Of what a `try` leaves: a failed answer has no evidence.
abbrev Attempt : List KnowledgeItem → EvidenceOutput ⊎ EvidenceOutput → Type 0
Attempt context (inl failed) = IsSourced context failed
Attempt context (inr evidence) = Unit

collected-IsSourced :
    (context : List KnowledgeItem) (r : EvidenceOutput ⊎ EvidenceOutput)
    → Attempt context r
    → IsSourced context (collected context r)
unfolding collected
collected-IsSourced context (inl failed) h = h
collected-IsSourced context (inr evidence) h = sanitize_evidence-IsSourced evidence context

-- The sessions after a step that may open one.
abbrev pub opened : Bool → ℕ → ℕ
opened b k = if b then suc k else k

opened-le : (b : Bool) (k : ℕ) → k ≤ opened b k
opened-le true k = omega arith
opened-le false k = omega arith

-- One step after another; the second knows what the first one left.
then_Opens :
    {A B : Type 0} (k l n : ℕ) (Q : A → Type 0) (T : B → Type 0) (R : RuntimeException → Type 0)
    (m : Tracked A) (f : A → Tracked B)
    → l ≤ n
    → Opens k l m Q R
    → ((a : A) → Q a → Opens l n (f a) T R)
    → Opens k n (m >>= f) T R
then_Opens {A} k l n Q T R m f le h next =
    Triple-bind (λ a s. Q a × Within l s) _ m f
      (record { at = λ s p. widen (m s).0 (m s).1 (h.at s p) })
      (λ a. record { at = λ s p. (next a p.0).at s p.1 })
  where
    widen :
        (r : Result RuntimeException A) (s : Tracking)
        → Ends l Q R r s
        → Holds (λ a s. Q a × Within l s) (λ e s. R e × Within n s) r s
    widen (ok a) s p = p
    widen (err e) s p = (p.0, omega (arith, p.1, le))

unfoldable pub rejects : CriticVerdict → Bool
rejects CriticVerdict.reject = true
rejects _ = false

-- Which of the three calls are behind a result.
pub record Behind (context : List KnowledgeItem) (b1 b2 b3 : Bool) (r : DeepEvaluationResult)
    : Type 0 where
  pub explored : is_some r.explorer ≡ true → b1 ≡ true
  pub sourced : IsSourced context r.evidence
  pub completed : r.evidence.status ≡ EvaluationStatus.completed → b2 ≡ true
  pub criticised : rejects r.critic.verdict ≡ false → b3 ≡ true

module _ (w : Evaluating) (candidate : Candidate) (context : List KnowledgeItem) where
  ask-Opens :
      {A : Type 0} (k n : ℕ) (task : RuntimeTask) (validate : Text → Option A)
      (error : RuntimeException)
      → Opens k k (ask w n task validate error) (λ a. Unit {0}) (λ e. Unit {0})
  unfolding ask validated
  ask-Opens {A} k n task validate error =
      Triple-bind (λ r s. Unit {0} × Within k s) _ (run_with_retry (run_task w.adapter task) n) _
        (run_with_retry-Quiet k _ n (run_task-Quiet k w.adapter task))
        (λ result. record { at = λ s h. answered (validate result.structured) s h.1 })
    where
      answered :
          (a : Option A) (s : Tracking)
          → Within k s
          → Ends k (λ a. Unit {0}) (λ e. Unit {0}) (validated error a) s
      answered none s h = (tt, h)
      answered (some a) s h = (tt, h)

  ask_evidence-Opens :
      (k : ℕ) → Opens k k (ask_evidence w candidate context) (Attempt context) (λ e. Unit {0})
  unfolding ask_evidence
  ask_evidence-Opens k =
      Triple-bind (λ e s. Unit {0} × Within k s) _
        (ask w w.evidence_retries (evidence_task w candidate context) w.validate_evidence
          validation_error)
        _
        (ask-Opens k w.evidence_retries (evidence_task w candidate context) w.validate_evidence
          validation_error)
        (λ evidence. Triple-pure _ _ (λ s h. h))

  collect-Opens :
      (k : ℕ)
      → Opens k (suc k) (collect w candidate context) (IsSourced context) (Refused w.adapter)
  unfolding collect
  collect-Opens k =
      Triple-bind (λ r s. Attempt context r × Within (suc k) s) _
        (in_session w.adapter "evidence" (except _ _ (ask_evidence w candidate context))) _
        (in_session-Opens k (Attempt context) (Refused w.adapter) w.adapter "evidence" _ (λ e r. r)
          (except-Opens (suc k) (suc k) (Attempt context) (Refused w.adapter) is_answer_error _
            (ask_evidence w candidate context) (λ e. Unit {0}) (unanswered-IsRefused w.adapter)
            (λ e. no_evidence-IsSourced context (error_name e)) (ask_evidence-Opens (suc k))))
        (λ r. Triple-pure _ _ (λ s h. (collected-IsSourced context r h.0, h.1)))

  critique-Opens :
      (k : ℕ) (evidence : EvidenceOutput)
      → Opens k (suc k) (critique w candidate evidence) (λ c. Unit {0}) (Refused w.adapter)
  unfolding critique
  critique-Opens k evidence =
      in_session-Opens k (λ c. Unit {0}) (Refused w.adapter) w.adapter "critic"
        (except is_answer_error (λ e. no_critique (critic_unavailable candidate))
          (ask w w.critic_retries (critic_task w candidate evidence) w.validate_critic
            validation_error))
        (λ e r. r)
        (except-Opens (suc k) (suc k) (λ c. Unit {0}) (Refused w.adapter) is_answer_error _
          (ask w w.critic_retries (critic_task w candidate evidence) w.validate_critic
            validation_error)
          (λ e. Unit {0}) (unanswered-IsRefused w.adapter) (λ e. tt)
          (ask-Opens (suc k) w.critic_retries (critic_task w candidate evidence) w.validate_critic
            validation_error))

  abbrev malformed : RuntimeException
  malformed = runtime_error RuntimeErrorBase.malformed_output

  explore-Opens :
      (k : ℕ) → Opens k (suc k) (explore w candidate context) (λ o. Unit {0}) (λ e. Unit {0})
  unfolding explore
  explore-Opens k =
      in_session-Opens k (λ o. Unit {0}) (λ e. Unit {0}) w.adapter "explorer"
        (ask w w.explorer_retries (explorer_task w candidate context) w.validate_explorer malformed)
        (λ e r. tt)
        (ask-Opens (suc k) w.explorer_retries (explorer_task w candidate context)
          w.validate_explorer malformed)

  explore_if-Opens :
      (b : Bool) (k : ℕ)
      → Opens k
          (opened b k)
          (explore_if w b candidate context)
          (λ o. is_some o ≡ true → b ≡ true)
          (Refused w.adapter)
  unfolding explore_if explore_some
  explore_if-Opens false k = Triple-pure _ _ (λ s h. (λ there. there, h))
  explore_if-Opens true k =
      except-Opens k (suc k) (λ o. is_some o ≡ true → true ≡ true) (Refused w.adapter)
        is_runtime_error _ (explore_some w candidate context) (λ e. Unit {0})
        (Other-IsRefused w.adapter) (λ e there. refl)
        (Triple-bind (λ o s. Unit {0} × Within (suc k) s) _ (explore w candidate context) _
          (explore-Opens k) (λ o. Triple-pure _ _ (λ s h. (λ there. refl, h.1))))

  collect_if-Opens :
      (b : Bool) (k : ℕ)
      → Opens k
          (opened b k)
          (collect_if w b candidate context)
          (λ e. IsSourced context e × (e.status ≡ EvaluationStatus.completed → b ≡ true))
          (Refused w.adapter)
  unfolding collect_if no_evidence
  collect_if-Opens false k =
      Triple-pure _ _ (λ s h. ((no_evidence-IsSourced context _, λ e. cc), h))
  collect_if-Opens true k =
      Triple-post (λ e s. IsSourced context e × Within (suc k) s) _ (collect w candidate context)
        (λ e s h. ((h.0, λ done. refl), h.1)) (collect-Opens k)

  critique_if-Opens :
      (b : Bool) (k : ℕ) (evidence : EvidenceOutput)
      → Opens k
          (opened b k)
          (critique_if w b candidate evidence)
          (λ c. rejects c.verdict ≡ false → b ≡ true)
          (Refused w.adapter)
  unfolding critique_if rejects no_critique
  critique_if-Opens false k evidence = Triple-pure _ _ (λ s h. (λ e. cc, h))
  critique_if-Opens true k evidence =
      Triple-post (λ c s. Unit {0} × Within (suc k) s) _ (critique w candidate evidence)
        (λ c s h. (λ passed. refl, h.1)) (critique-Opens k evidence)

  -- `evaluate` with its tests decided.
  abbrev pub stages : Bool → Bool → Bool → Tracked DeepEvaluationResult
  stages b1 b2 b3 = do
    explorer ← explore_if w b1 candidate context
    evidence ← collect_if w b2 candidate context
    critic ← critique_if w b3 candidate evidence
    pure (record { explorer = explorer; evidence = evidence; critic = critic })

  pub stages-Opens :
      (b1 b2 b3 : Bool) (k : ℕ)
      → Opens k
          (opened b3 (opened b2 (opened b1 k)))
          (stages b1 b2 b3)
          (Behind context b1 b2 b3)
          (Refused w.adapter)
  stages-Opens b1 b2 b3 k =
      let k1 = opened b1 k in
      let k2 = opened b2 k1 in
      let k3 = opened b3 k2 in
      then_Opens k k1 k3 _ _ _ (explore_if w b1 candidate context) _
        (omega (arith, opened-le b2 k1, opened-le b3 k2)) (explore_if-Opens b1 k)
        (λ explorer explored.
          then_Opens k1 k2 k3 _ _ _ (collect_if w b2 candidate context) _ (opened-le b3 k2)
            (collect_if-Opens b2 k1)
            (λ evidence collected.
              then_Opens k2 k3 k3 _ _ _ (critique_if w b3 candidate evidence) _ (omega arith)
                (critique_if-Opens b3 k2 evidence)
                (λ critic criticised. Triple-pure _ _ (λ s h. (
                  record {
                    explored = explored;
                    sourced = collected.0;
                    completed = collected.1;
                    criticised = criticised;
                  },
                  h,
                )))))
