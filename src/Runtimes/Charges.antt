-- ===== src/Runtimes/Charges.antt =====
-- What one attempt at a task costs the session that it runs in.
use wander_mind.Repositories.Bundle.{
  KnowledgeItem_entity, KnowledgeEdge_entity, Seed_entity, Wonder_entity, Candidate_entity,
  WanderSession_entity, Feedback_entity, RuntimeSession_entity,
}
use wander_mind.Prelude.{ℕ, ◌+◌, true, ◌≡◌, refl, sym, ap, Option, none, some, is_some, arith}
use wander_mind.Exec.{Result, ok, err, pure, raise, gets, modify, ◌>>=◌, bind_ok}
use wander_mind.Models.Runtime.{RuntimeSession}
use wander_mind.Repositories.Store.{get, update, replaced}
use wander_mind.Repositories.Store.Laws.{get-replaced}
use wander_mind.Runtimes.{
  Adapter, RuntimeException, RuntimeTask, RuntimeUsage, RuntimeTaskResult, SessionRef, session_uuid,
  not_a_uuid,
}
use wander_mind.Runtimes.Tracked.{
  Tracking, plus_count, count_or, set_default, set_session, bind_wander_session, saved,
  update_session, touch, record_usage, record_failure, completed_usage, finish_task,
}

unfoldable pub calls_of : RuntimeSession → ℕ
unfolding count_or
calls_of session = count_or session.cost.runtime_calls 0

unfoldable pub failures_of : RuntimeSession → ℕ
unfolding count_or
failures_of session = count_or session.cost.failures 0

abbrev pub succeeded : {A : Type 0} → Result RuntimeException A → ℕ
succeeded (ok a) = 1
succeeded (err e) = 0

-- The session was charged for so many attempts and failures, and is stored as it is.
pub record Charged (attempts failures : ℕ) (s s' : Tracking) : Type 0 where
  pub calls : calls_of s'.session ≡ calls_of s.session + attempts
  pub failed : failures_of s'.session ≡ failures_of s.session + failures
  pub same_id : s'.session.id ≡ s.session.id
  pub stored : get s.session.id s'.runtime_sessions ≡ some s'.session

-- The session in hand is one of the repository.
abbrev pub IsStored : Tracking → Type 0
IsStored s = is_some (get s.session.id s.runtime_sessions) ≡ true

-- The delegate counts one call for a task, or leaves the count out.
unfoldable pub CountsOne : Adapter → Type 0
unfolding count_or
CountsOne w =
    (t : ℕ) (task : RuntimeTask) (r : RuntimeTaskResult)
    → w.run_task t task ≡ ok r
    → count_or r.usage.runtime_calls 1 ≡ 1

plus_count-some : (a : Option ℕ) (n : ℕ) → count_or (plus_count a (some n)) 0 ≡ count_or a 0 + n
unfolding plus_count count_or
plus_count-some none n = omega arith
plus_count-some (some a) n = refl

set_default-one : (a : Option ℕ) → count_or a 1 ≡ 1 → set_default a 1 ≡ some 1
unfolding set_default count_or
set_default-one none h = refl
set_default-one (some a) h = ap some h

update_session-returns :
    (s : Tracking)
    → IsStored s
    → update_session s
      ≡ (ok tt, record s { runtime_sessions = replaced s.session s.runtime_sessions })
unfolding update_session saved update
update_session-returns s h = rw h refl

replaced_stored :
    (s : Tracking)
    → IsStored s
    → get s.session.id (replaced s.session s.runtime_sessions) ≡ some s.session
replaced_stored s h = ground (arith, h, get-replaced s.session.id s.session s.runtime_sessions)

module _ (w : Adapter) where
  -- What one attempt comes to.
  pub record Attempted (s : Tracking) (r : Result RuntimeException RuntimeTaskResult × Tracking)
      (attempts failures : ℕ) : Type 0 where
    pub charged : Charged attempts failures s r.1
    pub counted : failures + succeeded r.0 ≡ attempts

  pub failure_calls :
      (t : ℕ) (e : RuntimeException) (x : RuntimeSession)
      → (calls_of (record_failure w t (w.elapsed t) e x) ≡ calls_of x + 1)
        × (failures_of (record_failure w t (w.elapsed t) e x) ≡ failures_of x + 1)
  unfolding record_failure touch calls_of failures_of count_or
  failure_calls t e x = (plus_count-some x.cost.runtime_calls 1, plus_count-some x.cost.failures 1)

  pub usage_calls :
      (t : ℕ) (u : RuntimeUsage) (x : RuntimeSession)
      → count_or u.runtime_calls 1 ≡ 1
      → calls_of (record_usage w t (completed_usage w x (w.elapsed t) u) x) ≡ calls_of x + 1
  unfolding record_usage touch completed_usage count_or plus_count calls_of
  usage_calls t u x h =
      rw (set_default-one u.runtime_calls h) (plus_count-some x.cost.runtime_calls 1)

  -- The state after an attempt that left the session `x`.
  unfoldable pub settled : Tracking → RuntimeSession → Tracking
  unfolding replaced
  settled s x = record s { session = x; runtime_sessions = replaced x s.runtime_sessions }

  pub settled-Charged :
      (s : Tracking) (x : RuntimeSession) (failures : ℕ)
      → x.id ≡ s.session.id
      → calls_of x ≡ calls_of s.session + 1
      → failures_of x ≡ failures_of s.session + failures
      → IsStored s
      → Charged 1 failures s (settled s x)
  unfolding settled
  settled-Charged s x failures same calls failed h = record {
    calls = calls;
    failed = failed;
    same_id = same;
    stored = rw (sym same) (replaced_stored (record s { session = x }) (rw same h));
  }

  pub finish_task-err :
      (t : ℕ) (e : RuntimeException) (s : Tracking)
      → IsStored s
      → finish_task w t (err e) s
        ≡ (err e, settled s (record_failure w t (w.elapsed t) e s.session))
  unfolding finish_task set_session settled record_failure touch ◌>>=◌ modify raise
  finish_task-err t e s h =
      bind_ok update_session (λ r. raise e) (set_session (record_failure w t (w.elapsed t) e) s) _
        tt (update_session-returns (set_session (record_failure w t (w.elapsed t) e) s) h)

  pub finish_task-ok :
      (t : ℕ) (a : RuntimeTaskResult) (s : Tracking)
      → IsStored s
      → (usage : RuntimeUsage) × (usage ≡ completed_usage w s.session (w.elapsed t) a.usage)
        × (finish_task w t (ok a) s
            ≡ (ok (record a { usage = usage }), settled s (record_usage w t usage s.session)))
  unfolding finish_task set_session settled record_usage touch ◌>>=◌ modify pure gets
  finish_task-ok t a s h =
      let usage = completed_usage w s.session (w.elapsed t) a.usage in
      (
        usage,
        refl,
        bind_ok update_session (λ r. pure (record a { usage = usage }))
            (set_session (record_usage w t usage) s) _ tt
            (update_session-returns (set_session (record_usage w t usage) s) h),
      )

  unfoldable pub bound : Option SessionRef → Tracking → Tracking
  unfolding bind_wander_session
  bound ref s = record s { asked = s.asked + 1; session = bind_wander_session ref s.session }

  pub bound-Charged :
      (ref : Option SessionRef) (s : Tracking)
      → (calls_of (bound ref s).session ≡ calls_of s.session)
        × (failures_of (bound ref s).session ≡ failures_of s.session)
        × ((bound ref s).session.id ≡ s.session.id)
  unfolding bound bind_wander_session calls_of failures_of
  bound-Charged none s = (refl, refl, refl)
  bound-Charged (some (session_uuid id)) s = (refl, refl, refl)
  bound-Charged (some not_a_uuid) s = (refl, refl, refl)

  pub bound-IsStored :
      (ref : Option SessionRef) (s : Tracking) → IsStored s → IsStored (bound ref s)
  unfolding bound bind_wander_session
  bound-IsStored ref s h = rw ((bound-Charged ref s).2) h
