-- ===== src/Coordinator/Orphans.antt =====
-- A stop leaves no unfinished session without a task, and none of its own.
use wander_mind.Prelude.{
  ℕ, true, false, ◌≡◌, refl, sym, ap, ◌∙◌, Option, none, some, List, ◌==◌, is_some, contains,
  if◌then◌else◌, Bool-cases, inl, inr, arith, ==_iff,
}
use wander_mind.Exec.{Result, ok, pure, gets, modify, ◌>>=◌, bind_ok}
use wander_mind.Models.Session.{WanderSession}
use wander_mind.Repositories.Store.{get, replaced, StoreError}
use wander_mind.Repositories.Bundle.{WanderSession_entity}
use wander_mind.Repositories.Store.Laws.{get-id}
use wander_mind.Coordinator.{
  Coordinator, is_unfinished, end_task, save_session, cancel_task, stop, stop_found,
  stop_unfinished, cancel_requested_session, mark_stopped, StoreError,
}
use wander_mind.Coordinator.Marks.{
  unfinished, mark_stopped-StopResult, save_session-returns, get-replaced_other,
}
use wander_mind.Coordinator.Steps.{
  Attended, mark_stopped-Attended, cancel_task-up, cancel_task-Attended, contains-without_id,
  true-ne-false,
}

-- A session saved while it has a task, or by a run that made it outside the coordinator.
pub saved-Attended :
    (direct : List ℕ) (slots : ℕ) (y : WanderSession) (s : Coordinator)
    → (contains direct y.id ≡ false → contains s.tasks y.id ≡ true)
    → Attended direct slots s
    → Attended direct slots (record s { sessions = replaced y s.sessions })
saved-Attended direct slots y s task h = record {
  attended = λ k own going. elim (Bool-cases (y.id == k)) [
    | inl e ↦
        let same = (==_iff y.id k).0 e in
        ap (λ (j : ℕ). contains s.tasks j) (sym same)
        ∙ task (ap (λ (j : ℕ). contains direct j) same ∙ own)
    | inr e ↦ h.attended k own (ap unfinished (sym (get-replaced_other y s k e)) ∙ going)
  ];
  slots_left = h.slots_left;
  alive = h.alive;
  up = h.up;
}

-- A stop answers with the session as it is then stored, which is not unfinished; and the session that
-- was unfinished has no task any more.
pub record Answered (id : ℕ) (s : Coordinator)
    (r : Result StoreError (Option WanderSession) × Coordinator) : Type 0 where
  pub returned : r.0 ≡ ok (get id r.1.sessions)
  pub over : unfinished (get id r.1.sessions) ≡ false
  pub idle : unfinished (get id s.sessions) ≡ true → contains r.1.tasks id ≡ false

module _ (now : ℕ → ℕ) (direct : List ℕ) (slots : ℕ) where
  flagged : WanderSession → Coordinator → Coordinator
  unfolding replaced cancel_requested_session
  flagged x s = record s { sessions = replaced (cancel_requested_session x) s.sessions }

  cancelled : ℕ → Coordinator → Coordinator
  cancelled id s = if contains s.tasks id then cancel_task now id s else s

  stop_unfinished-runs :
      (id : ℕ) (x : WanderSession) (s : Coordinator)
      → is_some (get x.id s.sessions) ≡ true
      → stop_unfinished now id x s ≡ mark_stopped now id (cancelled id (flagged x s))
  unfolding stop_unfinished flagged cancelled cancel_requested_session ◌>>=◌ modify
  stop_unfinished-runs id x s there =
      bind_ok (save_session (cancel_requested_session x)) _ s _ (cancel_requested_session x)
        (save_session-returns (cancel_requested_session x) s there)

  flagged-Attended :
      (x : WanderSession) (s : Coordinator)
      → (contains direct x.id ≡ false → contains s.tasks x.id ≡ true)
      → Attended direct slots s
      → Attended direct slots (flagged x s)
  unfolding flagged cancel_requested_session
  flagged-Attended x s task h = saved-Attended direct slots (cancel_requested_session x) s task h

  cancelled-Attended :
      (id : ℕ) (s : Coordinator) → Attended direct slots s → Attended direct slots (cancelled id s)
  unfolding cancelled
  cancelled-Attended id s h = elim (Bool-cases (contains s.tasks id)) [
    | inl e ↦ rw e (cancel_task-Attended direct slots now id s h)
    | inr e ↦ rw e h
  ]

  cancelled-idle :
      (id : ℕ) (s : Coordinator)
      → s.shutting_down ≡ false
      → contains (cancelled id s).tasks id ≡ false
  unfolding cancelled end_task
  cancelled-idle id s up = elim (Bool-cases (contains s.tasks id)) [
    | inl e ↦
        rw (e, cancel_task-up direct slots now id s up)
          (contains-without_id id id (mark_stopped now id s).1.tasks ∙ ground arith)
    | inr e ↦ rw e e
  ]

  record StopDone (id : ℕ) (s : Coordinator) : Type 0 where
    pub answered : Answered id s (stop now id s)
    pub attended : Attended direct slots (stop now id s).1

  stop-StopDone : (id : ℕ) (s : Coordinator) → Attended direct slots s → StopDone id s
  unfolding stop stop_found unfinished pure gets ◌>>=◌
  stop-StopDone id s h = by_stored (get id s.sessions) refl
    where
      by_stored : (o : Option WanderSession) → get id s.sessions ≡ o → StopDone id s
      by_stored none e = record {
        answered = rw e (record {
          returned = ap ok (sym e);
          over = rw e refl;
          idle = λ going. absurd (true-ne-false going (rw e refl));
        });
        attended = rw e h;
      }
      by_stored (some x) e = elim (Bool-cases (is_unfinished x.status)) [
        | inl going ↦
            let same = get-id id s.sessions x e in
            let there = ap (λ (k : ℕ). is_some (get k s.sessions)) same ∙ ap is_some e in
            let task = λ (own : contains direct x.id ≡ false).
              ap (λ (k : ℕ). contains s.tasks k) same
              ∙ h.attended id (ap (λ (k : ℕ). contains direct k) (sym same) ∙ own)
                  (ap unfinished e ∙ going) in
            let t = cancelled id (flagged x s) in
            let m = mark_stopped-StopResult now id t in
            let run = stop_unfinished-runs id x s there in
            let before = flagged-Attended x s task h in
            record {
              answered =
                  rw (e, going, run)
                    (record {
                      returned = m.returned;
                      over = m.settles.settled;
                      idle = λ g.
                          ap (λ (xs : List ℕ). contains xs id) m.settles.tasks
                          ∙ cancelled-idle id (flagged x s) before.up;
                    });
              attended =
                  rw (e, going, run)
                    (mark_stopped-Attended direct slots now id t
                      (cancelled-Attended id (flagged x s) before));
            }
        | inr over ↦ record {
          answered =
              rw (e, over)
                (record {
                  returned = ap ok (sym e);
                  over = rw e over;
                  idle = λ going. absurd (true-ne-false going (rw e over));
                });
          attended = rw (e, over) h;
        }
      ]

  -- Where every unfinished session that was not made outside the coordinator has a task, a stop of any
  -- id never raises; it answers with what is then stored under the id, which is not unfinished, and
  -- leaves no task for a session that was; and still every such session has a task.
  pub stop-Answered :
      (id : ℕ) (s : Coordinator)
      → Attended direct slots s
      → Answered id s (stop now id s) × Attended direct slots (stop now id s).1
  stop-Answered id s h = let d = stop-StopDone id s h in (d.answered, d.attended)
