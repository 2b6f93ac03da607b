-- ===== src/Runtimes/Opened.antt =====
-- How many sessions the tracked runtime opens, and which runtime errors come through.
use wander_mind.Repositories.Bundle.{RuntimeSession_entity}
use wander_mind.Prelude.{
  ℕ, zero, suc, ◌≤◌, ◌≡◌, refl, inl, inr, String, true, List, [], ◌∷◌, length, is_some, Bool-cases,
  arith, length-append,
}
use wander_mind.Exec.{Result, ok, err, lift, gets, modify, pure, raise, ◌>>=◌}
use wander_mind.Exec.Triple.{Triple, Holds, Triple-bind}
use wander_mind.Models.Runtime.{RuntimeSession}
use wander_mind.Repositories.Store.{get, replaced, create, update}
use wander_mind.Runtimes.{
  Adapter, RuntimeException, other_exception, RuntimeTask, RuntimeTaskResult, run_with_retry,
  is_retried, retry_with,
}
use wander_mind.Runtimes.Tracked.{
  Tracking, Tracked, saved, set_session, count_question, create_session, update_session, touch,
  record_usage, record_failure, completed_usage, finish_task, run_task, start_session,
  close_session,
}
use wander_mind.Runtimes.Sessions.{is_runtime_error}

-- At most `k` sessions are stored.
abbrev pub Within : ℕ → Tracking → Type 0
Within k s = length s.runtime_sessions ≤ k

-- From at most `k` sessions to at most `l`, with `Q` of a result and `R` of an exception.
abbrev pub Opens :
    {A : Type 0} → ℕ → ℕ → Tracked A → (A → Type 0) → (RuntimeException → Type 0) → Type 0
Opens k l m Q R = Triple (Within k) m (λ a s. Q a × Within l s) (λ e s. R e × Within l s)

length-replaced :
    (x : RuntimeSession) (xs : List RuntimeSession) → length (replaced x xs) ≡ length xs
unfolding replaced
length-replaced x [] = refl
length-replaced x (y ∷ ys) = omega (arith, length-replaced x ys)

update_session-Opens : (k : ℕ) → Opens k k update_session (λ u. Unit {0}) (λ e. e ≡ other_exception)
unfolding update_session update saved
update_session-Opens k = record { at = λ s h. split s h }
  where
    split :
        (s : Tracking)
        → Within k s
        → Holds
            (λ u s. Unit {0} × Within k s)
            (λ e s. (e ≡ other_exception) × Within k s)
            (update_session s).0
            (update_session s).1
    split s h = elim (Bool-cases (is_some (get s.session.id s.runtime_sessions))) [
      | inl there ↦ rw there (tt, omega (arith, length-replaced s.session s.runtime_sessions))
      | inr missing ↦ rw missing (refl, h)
    ]

create_session-Opens :
    (k : ℕ) → Opens k (suc k) create_session (λ u. Unit {0}) (λ e. e ≡ other_exception)
unfolding create_session create saved
create_session-Opens k = record { at = λ s h. split s h }
  where
    split :
        (s : Tracking)
        → Within k s
        → Holds
            (λ u s. Unit {0} × Within (suc k) s)
            (λ e s. (e ≡ other_exception) × Within (suc k) s)
            (create_session s).0
            (create_session s).1
    split s h = elim (Bool-cases (is_some (get s.session.id s.runtime_sessions))) [
      | inl there ↦ rw there (refl, omega arith)
      | inr fresh ↦ rw fresh (tt, omega (arith, length-append s.runtime_sessions (s.session ∷ [])))
    ]

-- A change of the session at hand stores nothing.
modify-Opens :
    (k : ℕ) (f : Tracking → Tracking)
    → ((s : Tracking) → (f s).runtime_sessions ≡ s.runtime_sessions)
    → Opens k k (modify f) (λ u. Unit {0}) (λ e. Unit {0})
unfolding modify
modify-Opens k f same = record { at = λ s h. (tt, rw (same s) h) }

-- Nothing is known of what is raised.
abbrev pub Quiet : {A : Type 0} → ℕ → Tracked A → Type 0
Quiet k m = Opens k k m (λ a. Unit {0}) (λ e. Unit {0})

module _ (k : ℕ) where
  then_Quiet :
      {A B : Type 0} (m : Tracked A) (f : A → Tracked B)
      → Quiet k m
      → ((a : A) → Quiet k (f a))
      → Quiet k (m >>= f)
  then_Quiet m f h next =
      Triple-bind (λ a s. Unit {0} × Within k s) (λ b s. Unit {0} × Within k s) m f h
        (λ a. record { at = λ s p. (next a).at s p.1 })

  update-Quiet : Quiet k update_session
  update-Quiet = record { at = λ s h. weaken _ _ ((update_session-Opens k).at s h) }
    where
      weaken :
          (r : Result RuntimeException (Unit {0})) (s : Tracking)
          → Holds (λ u s. Unit {0} × Within k s) (λ e s. (e ≡ other_exception) × Within k s) r s
          → Holds (λ u s. Unit {0} × Within k s) (λ e s. Unit {0} × Within k s) r s
      weaken (ok u) s h = h
      weaken (err e) s h = (tt, h.1)

  module _ (w : Adapter) where
    finish_task-Quiet :
        (t : ℕ) (r : Result RuntimeException RuntimeTaskResult) → Quiet k (finish_task w t r)
    unfolding finish_task raise pure gets set_session
    finish_task-Quiet t (err e) =
        then_Quiet (modify (set_session (record_failure w t (w.elapsed t) e))) _
          (modify-Opens k _ (λ s. refl))
          (λ u. then_Quiet update_session _ update-Quiet (λ u. record { at = λ s h. (tt, h) }))
    finish_task-Quiet t (ok result) =
        then_Quiet (gets (λ (s : Tracking). s)) _ (record { at = λ s h. (tt, h) })
          (λ s.
            let usage = completed_usage w s.session (w.elapsed t) result.usage in
            then_Quiet (modify (set_session (record_usage w t usage))) _
              (modify-Opens k _ (λ s. refl))
              (λ u. then_Quiet update_session _ update-Quiet (λ u. record { at = λ s h. (tt, h) })))

    pub run_task-Quiet : (task : RuntimeTask) → Quiet k (run_task w task)
    unfolding run_task gets set_session count_question
    run_task-Quiet task = then_Quiet _ _ (modify-Opens k _ (λ s. refl)) (λ u.
        then_Quiet (gets (λ (s : Tracking). s)) _ (record { at = λ s h. (tt, h) })
          (λ s.
            then_Quiet (modify count_question) _ (modify-Opens k _ (λ s. refl))
              (λ u. finish_task-Quiet s.asked (w.run_task s.asked task))))

  pub run_with_retry-Quiet :
      {A : Type 0} (m : Tracked A) (n : ℕ) → Quiet k m → Quiet k (run_with_retry m n)
  unfolding run_with_retry
  run_with_retry-Quiet m zero h = h
  run_with_retry-Quiet {A} m (suc n) h =
      let rest = run_with_retry-Quiet m n h in
      record { at = λ s p. step rest (m s).0 (m s).1 (h.at s p) }
    where
      step :
          Quiet k (run_with_retry m n)
          → (r : Result RuntimeException A) (t : Tracking)
          → Holds (λ a s. Unit {0} × Within k s) (λ e s. Unit {0} × Within k s) r t
          → Holds
              (λ a s. Unit {0} × Within k s)
              (λ e s. Unit {0} × Within k s)
              (retry_with r t (run_with_retry m n t)).0
              (retry_with r t (run_with_retry m n t)).1
      step rest (ok a) t p = p
      step rest (err e) t p = elim (Bool-cases (is_retried e)) [
        | inl again ↦ rw again (rest.at t p.1)
        | inr last ↦ rw last p
      ]

-- An exception that is a runtime error is one with which the delegate refused to start a session.
abbrev pub Refused : Adapter → RuntimeException → Type 0
Refused w e =
    is_runtime_error e ≡ true → (t : ℕ) × (purpose : String) × (w.start_session t purpose ≡ err e)

other-Refused : (w : Adapter) (e : RuntimeException) → e ≡ other_exception → Refused w e
unfolding is_runtime_error
other-Refused w (RuntimeException.runtime_error e) h = cc
other-Refused w RuntimeException.validation_error h = λ runtime. absurd (cc)
other-Refused w RuntimeException.other_exception h = λ runtime. absurd (cc)

module _ (w : Adapter) (k : ℕ) where
  pub close_session-Quiet : Quiet k (close_session w)
  unfolding close_session gets set_session count_question lift
  close_session-Quiet =
      then_Quiet k (gets (λ (s : Tracking). s)) _ (record { at = λ s h. (tt, h) })
        (λ s. then_Quiet k (modify count_question) _ (modify-Opens k _ (λ s. refl)) (λ u.
          then_Quiet k (lift (w.close_session s.asked)) _ (record { at = λ s h. lifted _ s h })
            (λ u.
              then_Quiet k (modify (set_session (touch w s.asked))) _ (modify-Opens k _ (λ s. refl))
                (λ u. update-Quiet k))))
    where
      lifted :
          (r : Result RuntimeException (Unit {0})) (s : Tracking)
          → Within k s
          → Holds (λ u s. Unit {0} × Within k s) (λ e s. Unit {0} × Within k s) r s
      lifted (ok u) s h = (tt, h)
      lifted (err e) s h = (tt, h)

  create-Refused : Opens k (suc k) create_session (λ u. Unit {0}) (Refused w)
  create-Refused = record { at = λ s h. created _ _ ((create_session-Opens k).at s h) }
    where
      created :
          (r : Result RuntimeException (Unit {0})) (s : Tracking)
          → Holds
              (λ u s. Unit {0} × Within (suc k) s)
              (λ e s. (e ≡ other_exception) × Within (suc k) s)
              r
              s
          → Holds (λ u s. Unit {0} × Within (suc k) s) (λ e s. Refused w e × Within (suc k) s) r s
      created (ok u) s h = h
      created (err e) s h = (other-Refused w e h.0, h.1)

  -- What the delegate answered, at a question of this purpose.
  lift_start-Opens :
      (t : ℕ) (purpose : String)
      → Triple
          (Within k)
          (lift (w.start_session t purpose))
          (λ session s. Within k s)
          (λ e s. Refused w e × Within (suc k) s)
  unfolding lift
  lift_start-Opens t purpose = record { at = λ s h. lifted _ s refl h }
    where
      lifted :
          (r : Result RuntimeException RuntimeSession) (s : Tracking)
          → w.start_session t purpose ≡ r
          → Within k s
          → Holds (λ session s. Within k s) (λ e s. Refused w e × Within (suc k) s) r s
      lifted (ok session) s e h = h
      lifted (err error) s e h = (λ runtime. (t, purpose, e), omega arith)

  pub start_session-Opens :
      (purpose : String) → Opens k (suc k) (start_session w purpose) (λ u. Unit {0}) (Refused w)
  unfolding start_session gets set_session count_question modify
  start_session-Opens purpose =
      Triple-bind (λ a s. Within k s) _ (gets (λ (s : Tracking). s)) _ (record { at = λ s h. h })
        (λ s.
          Triple-bind (λ a s. Within k s) _ (modify count_question) _ (record { at = λ s h. h })
            (λ u.
              Triple-bind (λ a s. Within k s) _ (lift (w.start_session s.asked purpose)) _
                (lift_start-Opens s.asked purpose)
                (λ session.
                  Triple-bind (λ a s. Within k s) _ (modify (set_session (λ old. session))) _
                    (record { at = λ s h. h }) (λ u. create-Refused))))
