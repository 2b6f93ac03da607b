-- ===== src/Coordinator/Steps.antt =====
-- The steps that a coordinator may take, in any order: calls of its users and what its tasks do.
use wander_mind.Prelude.{
  ℕ, ◌≤◌, ◌<◌, Text, Bool, true, false, not, ◌&&◌, ◌≡◌, refl, sym, ap, ◌∙◌, Option, none, some,
  List, [], ◌∷◌, ◌==◌, is_some, contains, length, if◌then◌else◌, Bool-cases, inl, inr, arith,
  ==_iff,
}
use wander_mind.Models.Session.{WanderSession, is_terminal_status}
use wander_mind.Models.Enums.{SessionStatus}
use wander_mind.Models.Thought.{Seed}
use wander_mind.Repositories.Store.{get}
use wander_mind.Repositories.Bundle.{WanderSession_entity, Seed_entity}
use wander_mind.Repositories.Store.Laws.{get-id}
use wander_mind.Coordinator.{
  Coordinator, is_unfinished, without_id, end_task, submit, cancel_task, fail_stored, fail_task,
  begin_seeded, begin_stored, begin_task, mark_stopped, mark_failed,
}
use wander_mind.Coordinator.Marks.{
  unfinished, Settles, mark_stopped-StopResult, mark_failed-Settles,
}

-- Every unfinished session that was not made outside, by a run that is no task of the coordinator (those
-- of `direct`), has a task; no more tasks run than there are slots, and those that run are
-- not done.
pub record Attended (direct : List ℕ) (slots : ℕ) (s : Coordinator) : Type 0 where
  pub attended :
      (k : ℕ)
      → contains direct k ≡ false
      → unfinished (get k s.sessions) ≡ true
      → contains s.tasks k ≡ true
  pub slots_left : length s.running ≤ slots
  pub alive : (k : ℕ) → contains s.running k ≡ true → contains s.tasks k ≡ true
  pub up : s.shutting_down ≡ false

pub contains-without_id :
    (id k : ℕ) (xs : List ℕ) → contains (without_id id xs) k ≡ (not (id == k) && contains xs k)
unfolding without_id contains
contains-without_id id k [] = ground arith
contains-without_id id k (x ∷ xs) = ground (arith, contains-without_id id k xs)

length-without_id : (id : ℕ) (xs : List ℕ) → length (without_id id xs) ≤ length xs
unfolding without_id
length-without_id id [] = omega arith
length-without_id id (x ∷ xs) = ground (arith, length-without_id id xs)

pub true-ne-false : {b : Bool} → b ≡ true → b ≡ false → ⊥
true-ne-false {b} h k = ground (arith, h, k)

at_same :
    (id k : ℕ) (s : Coordinator)
    → (id == k) ≡ true
    → unfinished (get id s.sessions) ≡ unfinished (get k s.sessions)
at_same id k s e = ap (λ (j : ℕ). unfinished (get j s.sessions)) ((==_iff id k).0 e)

module _ (direct : List ℕ) (slots : ℕ) where
  pub submit-Attended :
      (id : ℕ) (s : Coordinator) → Attended direct slots s → Attended direct slots (submit id s)
  unfolding submit contains
  submit-Attended id s h = elim (Bool-cases (contains s.tasks id)) [
    | inl there ↦ rw there h
    | inr new ↦ rw new (record {
      attended = λ k own going. ground (arith, h.attended k own going);
      slots_left = h.slots_left;
      alive = λ k r. ground (arith, h.alive k r);
      up = h.up;
    })
  ]

  -- A session that is not unfinished needs no task.
  pub end_task-Attended :
      (id : ℕ) (s : Coordinator)
      → Attended direct slots s
      → unfinished (get id s.sessions) ≡ false
      → Attended direct slots (end_task id s)
  unfolding end_task
  end_task-Attended id s h over = record {
    attended = λ k own going.
        contains-without_id id k s.tasks ∙ both (apart k going) (h.attended k own going);
    slots_left = omega (arith, h.slots_left, length-without_id id s.running);
    alive = λ k r.
        contains-without_id id k s.tasks
        ∙ kept (id == k) (contains s.running k) (contains s.tasks k)
            (sym (contains-without_id id k s.running) ∙ r) (h.alive k);
    up = h.up;
  }
    where
      both : {a b : Bool} → a ≡ false → b ≡ true → (not a && b) ≡ true
      both {a} {b} p q = rw (p, q) refl

      kept : (a b c : Bool) → (not a && b) ≡ true → (b ≡ true → c ≡ true) → (not a && c) ≡ true
      kept a b c p q = ground (arith, p, q)

      apart : (k : ℕ) → unfinished (get k s.sessions) ≡ true → (id == k) ≡ false
      apart k going = elim (Bool-cases (id == k)) [
        | inl e ↦ absurd (true-ne-false (at_same id k s e ∙ going) over)
        | inr e ↦ e
      ]

  pub Settles-Attended :
      (id : ℕ) (s t : Coordinator)
      → Settles id s t
      → Attended direct slots s
      → Attended direct slots t
  Settles-Attended id s t m h = record {
    attended = λ k own going.
        ap (λ (xs : List ℕ). contains xs k) m.tasks ∙ h.attended k own (before k going);
    slots_left = rw m.running h.slots_left;
    alive = λ k r.
        ap (λ (xs : List ℕ). contains xs k) m.tasks
        ∙ h.alive k (ap (λ (xs : List ℕ). contains xs k) (sym m.running) ∙ r);
    up = m.shutting_down ∙ h.up;
  }
    where
      before : (k : ℕ) → unfinished (get k t.sessions) ≡ true → unfinished (get k s.sessions) ≡ true
      before k going = elim (Bool-cases (id == k)) [
        | inl e ↦ absurd (true-ne-false (at_same id k t e ∙ going) m.settled)
        | inr e ↦ ap unfinished (sym (m.others k e)) ∙ going
      ]

  module _ (now : ℕ → ℕ) where
    pub mark_stopped-Attended :
        (id : ℕ) (s : Coordinator)
        → Attended direct slots s
        → Attended direct slots (mark_stopped now id s).1
    mark_stopped-Attended id s h =
        Settles-Attended id s _ (mark_stopped-StopResult now id s).settles h

    pub cancel_task-up :
        (id : ℕ) (s : Coordinator)
        → s.shutting_down ≡ false
        → cancel_task now id s ≡ end_task id (mark_stopped now id s).1
    unfolding cancel_task
    cancel_task-up id s up =
        ap (λ (b : Bool). end_task id (if b then s else (mark_stopped now id s).1)) up

    pub cancel_task-Attended :
        (id : ℕ) (s : Coordinator)
        → Attended direct slots s
        → Attended direct slots (cancel_task now id s)
    cancel_task-Attended id s h = rw (cancel_task-up id s h.up) (
        end_task-Attended id (mark_stopped now id s).1 (mark_stopped-Attended id s h)
          (mark_stopped-StopResult now id s).settles.settled)

    pub fail_task-Attended :
        (id : ℕ) (reason : Text) (s : Coordinator)
        → Attended direct slots s
        → Attended direct slots (fail_task now id reason s)
    unfolding fail_task fail_stored unfinished
    fail_task-Attended id reason s h = by_stored (get id s.sessions) refl
      where
        by_stored :
            (o : Option WanderSession)
            → get id s.sessions ≡ o
            → Attended direct slots (end_task id (fail_stored now reason (get id s.sessions) s))
        by_stored none e = rw e (end_task-Attended id s h (rw e refl))
        by_stored (some x) e = elim (Bool-cases (is_unfinished x.status)) [
          | inl going ↦
              let same = get-id id s.sessions x e in
              let m =
                mark_failed-Settles now x reason s
                  (ap (λ (k : ℕ). is_some (get k s.sessions)) same ∙ ap is_some e) in
              let t = (mark_failed now x reason s).1 in
              rw (e, going)
                (end_task-Attended id t (Settles-Attended x.id s t m h)
                  (ap (λ (k : ℕ). unfinished (get k t.sessions)) (sym same) ∙ m.settled))
          | inr over ↦ rw (e, over) (end_task-Attended id s h (rw e over))
        ]

    pub is_terminal-over :
        (status : SessionStatus) → is_terminal_status status ≡ true → is_unfinished status ≡ false
    unfolding is_terminal_status is_unfinished
    is_terminal-over SessionStatus.pending h = ground (arith, h)
    is_terminal-over SessionStatus.running h = ground (arith, h)
    is_terminal-over SessionStatus.completed h = refl
    is_terminal-over SessionStatus.stopped h = refl
    is_terminal-over SessionStatus.failed h = refl

    pub begin_task-Attended :
        (id : ℕ) (s : Coordinator)
        → contains s.tasks id ≡ true
        → length s.running < slots
        → Attended direct slots s
        → Attended direct slots (begin_task now id s)
    unfolding begin_task contains begin_stored begin_seeded unfinished
    begin_task-Attended id s waits room h = by_stored (get id s.sessions) refl
      where
        t : Coordinator
        t = record s { running = id ∷ s.running }

        here : Attended direct slots t
        here = record {
          attended = h.attended;
          slots_left = omega (arith, room);
          alive = λ k r. elim (Bool-cases (id == k)) [
            | inl e ↦ ap (λ (j : ℕ). contains s.tasks j) (sym ((==_iff id k).0 e)) ∙ waits
            | inr e ↦ h.alive k (rw e at r)
          ];
          up = h.up;
        }

        by_seed :
            (x : WanderSession) (o : Option Seed)
            → get id s.sessions ≡ some x
            → Attended direct slots (begin_seeded now x o t)
        by_seed x none e =
            let same = get-id id s.sessions x e in
            let m =
              mark_failed-Settles now x _ t
                (ap (λ (k : ℕ). is_some (get k s.sessions)) same ∙ ap is_some e) in
            end_task-Attended x.id _ (Settles-Attended x.id t _ m here) m.settled
        by_seed x (some seed) e = here

        by_stored :
            (o : Option WanderSession)
            → get id s.sessions ≡ o
            → Attended direct slots (begin_stored now id (get id s.sessions) t)
        by_stored none e = rw e (end_task-Attended id t here (rw e refl))
        by_stored (some x) e = elim (Bool-cases (is_terminal_status x.status)) [
          | inl over ↦
              rw (e, over) (end_task-Attended id t here (rw e (is_terminal-over x.status over)))
          | inr going ↦ rw (e, going) (by_seed x (get x.seed_id s.seeds) e)
        ]
