-- ===== src/Runtimes/Attempts.antt =====
-- What a task costs the session that it runs in, with all its attempts.
use wander_mind.Repositories.Bundle.{
  KnowledgeItem_entity, KnowledgeEdge_entity, Seed_entity, Wonder_entity, Candidate_entity,
  WanderSession_entity, Feedback_entity, RuntimeSession_entity,
}
use wander_mind.Prelude.{
  ℕ, zero, suc, ◌+◌, ◌≤◌, ◌≡◌, refl, sym, ap, ◌∙◌, inl, inr, Bool-cases, arith,
}
use wander_mind.Exec.{Result, ok, err, gets, modify, ◌>>=◌}
use wander_mind.Repositories.Store.{get}
use wander_mind.Runtimes.{
  Adapter, RuntimeException, RuntimeTask, RuntimeTaskResult, run_with_retry, is_retried, retry_with,
}
use wander_mind.Runtimes.Tracked.{
  Tracking, count_or, set_session, count_question, touch, record_usage, record_failure, finish_task,
  run_task,
}
use wander_mind.Runtimes.Charges.{
  calls_of, failures_of, succeeded, Charged, IsStored, CountsOne, Attempted, failure_calls,
  usage_calls, settled, settled-Charged, finish_task-err, finish_task-ok, bound, bound-Charged,
  bound-IsStored,
}

module _ (w : Adapter) (task : RuntimeTask) (counts : CountsOne w) where
  finished :
      (t : ℕ) (s : Tracking) (r : Result RuntimeException RuntimeTaskResult)
      → ((a : RuntimeTaskResult) → r ≡ ok a → count_or a.usage.runtime_calls 1 ≡ 1)
      → IsStored s
      → (failures : ℕ) × Attempted w s (finish_task w t r s) 1 failures
  unfolding settled record_failure touch record_usage failures_of
  finished t s (err e) count h =
      let x = record_failure w t (w.elapsed t) e s.session in
      let (calls, failed) = failure_calls w t e s.session in
      (
        1,
        rw (finish_task-err w t e s h)
            (record { charged = settled-Charged w s x 1 refl calls failed h; counted = refl }),
      )
  finished t s (ok a) count h =
      let (usage, same, returned) = finish_task-ok w t a s h in
      let x = record_usage w t usage s.session in
      let calls =
        ap (λ u. calls_of (record_usage w t u s.session)) same
        ∙ usage_calls w t a.usage s.session (count a refl) in
      (
        0,
        rw returned (record {
          charged = settled-Charged w s x 0 refl calls (omega arith) h;
          counted = refl;
        }),
      )

  run_task-Attempted :
      (s : Tracking) → IsStored s → (failures : ℕ) × Attempted w s (run_task w task s) 1 failures
  unfolding run_task set_session count_question bound ◌>>=◌ modify gets CountsOne
  run_task-Attempted s h =
      let s1 = bound w task.wander_session_id s in
      let (calls, failed, same) = bound-Charged w task.wander_session_id s in
      let (failures, a) =
        finished s.asked s1 (w.run_task s.asked task) (counts s.asked task)
          (bound-IsStored w task.wander_session_id s h) in
      (
        failures,
        record {
          charged = record {
            calls = omega (arith, a.charged.calls, calls);
            failed = omega (arith, a.charged.failed, failed);
            same_id = a.charged.same_id ∙ same;
            stored =
                ap (λ k. get k (run_task w task s).1.runtime_sessions) (sym same)
                ∙ a.charged.stored;
          };
          counted = a.counted;
        },
      )

  Charged-then :
      (a b f g : ℕ) (s t u : Tracking)
      → Charged a f s t
      → Charged b g t u
      → Charged (a + b) (f + g) s u
  Charged-then a b f g s t u p q = record {
    calls = omega (arith, p.calls, q.calls);
    failed = omega (arith, p.failed, q.failed);
    same_id = q.same_id ∙ p.same_id;
    stored = rw (sym p.same_id) q.stored;
  }

  Charged-IsStored : (a f : ℕ) (s t : Tracking) → Charged a f s t → IsStored t
  Charged-IsStored a f s t p = rw p.same_id (rw p.stored refl)

  -- What all attempts of a task come to.
  pub record Retried (max_retries : ℕ) (s : Tracking)
      (r : Result RuntimeException RuntimeTaskResult × Tracking) : Type 0 where
    pub attempts : ℕ
    pub failures : ℕ
    pub at_least_one : 1 ≤ attempts
    pub at_most : attempts ≤ max_retries + 1
    pub charged : Charged attempts failures s r.1
    pub counted : failures + succeeded r.0 ≡ attempts

  once :
      (n : ℕ) (s : Tracking) (r : Result RuntimeException RuntimeTaskResult × Tracking)
      (failures : ℕ)
      → Attempted w s r 1 failures
      → Retried n s r
  once n s r failures a = record {
    attempts = 1;
    failures = failures;
    at_least_one = omega arith;
    at_most = omega arith;
    charged = a.charged;
    counted = a.counted;
  }

  retry_step :
      (n : ℕ) (s t : Tracking) (r : Result RuntimeException RuntimeTaskResult) (failures : ℕ)
      (again : Result RuntimeException RuntimeTaskResult × Tracking)
      → Attempted w s (r, t) 1 failures
      → Retried n t again
      → Retried (suc n) s (retry_with r t again)
  retry_step n s t (ok a) failures again first rest = once (suc n) s (ok a, t) failures first
  retry_step n s t (err e) failures again first rest = elim (Bool-cases (is_retried e)) [
    | inl e' ↦ rw e' (record {
      attempts = 1 + rest.attempts;
      failures = failures + rest.failures;
      at_least_one = omega arith;
      at_most = omega (arith, rest.at_most);
      charged =
          Charged-then 1 rest.attempts failures rest.failures s t again.1 first.charged
            rest.charged;
      counted = omega (arith, first.counted, rest.counted);
    })
    | inr e' ↦ rw e' (once (suc n) s (err e, t) failures first)
  ]

  -- Under a delegate that counts one call for a task or none, a task in a stored session ends after
  -- at most `max_retries + 1` attempts, at least one; the session's calls have grown by the attempts
  -- and its failures by those that failed, all of them if the task raises and all but one if it
  -- returns; and the repository has the session as it is.
  pub run_with_retry-Retried :
      (max_retries : ℕ) (s : Tracking)
      → IsStored s
      → Retried max_retries s (run_with_retry (run_task w task) max_retries s)
  unfolding run_with_retry
  run_with_retry-Retried zero s h =
      let (failures, a) = run_task-Attempted s h in once zero s (run_task w task s) failures a
  run_with_retry-Retried (suc n) s h =
      let (failures, a) = run_task-Attempted s h in
      let t = (run_task w task s).1 in
      retry_step n s t (run_task w task s).0 failures (run_with_retry (run_task w task) n t) a
        (run_with_retry-Retried n t (Charged-IsStored 1 failures s t a.charged))
