-- ===== src/Coordinator/Recovery.antt =====
-- What `recover` leaves: every unfinished session has a task.
use wander_mind.Prelude.{
  ℕ, ◌⊎◌, true, false, ◌≡◌, refl, sym, ap, ◌∙◌, some, List, [], ◌∷◌, ◌==◌, is_some, contains,
  if◌then◌else◌, Bool-cases, inl, inr, arith, ==_iff,
}
use wander_mind.Exec.{ok, pure, modify, ◌>>=◌}
use wander_mind.Models.Session.{WanderSession}
use wander_mind.Models.Thought.{Seed}
use wander_mind.Repositories.Store.{get, replaced}
use wander_mind.Repositories.Store.Laws.{get-replaced}
use wander_mind.Repositories.Bundle.{WanderSession_entity}
use wander_mind.Coordinator.{Coordinator, is_unfinished, submit, recovered_session, recover_each}
use wander_mind.Coordinator.Marks.{unfinished, save_session-returns, get-replaced_other}
use wander_mind.Coordinator.Steps.{true-ne-false}

-- The state of a new process: nothing runs.
abbrev pub restarted : List WanderSession → List Seed → Coordinator
restarted sessions seeds = record {
  sessions = sessions;
  seeds = seeds;
  tasks = [];
  running = [];
  shutting_down = false;
  asked = 0;
}

-- What is still to be submitted stands in the list.
pub record Recovering (xs : List WanderSession) (s : Coordinator) : Type 0 where
  pub pending :
      (k : ℕ)
      → unfinished (get k s.sessions) ≡ true
      → (contains s.tasks k ≡ true) ⊎ (unfinished (get k xs) ≡ true)
  pub stored : (k : ℕ) → is_some (get k xs) ≡ true → is_some (get k s.sessions) ≡ true
  pub idle : s.running ≡ []
  pub up : s.shutting_down ≡ false

get-head :
    (x : WanderSession) (xs : List WanderSession) (k : ℕ)
    → get k (x ∷ xs) ≡ (if x.id == k then some x else get k xs)
unfolding get
get-head x xs k = refl

pub submit-contains :
    (id k : ℕ) (s : Coordinator) → (id == k) ≡ true → contains (submit id s).tasks k ≡ true
unfolding submit contains
submit-contains id k s e = elim (Bool-cases (contains s.tasks id)) [
  | inl c ↦ rw c (ap (λ (j : ℕ). contains s.tasks j) (sym ((==_iff id k).0 e)) ∙ c)
  | inr c ↦ rw (c, e) refl
]

pub submit-keeps :
    (id k : ℕ) (s : Coordinator) → contains s.tasks k ≡ true → contains (submit id s).tasks k ≡ true
unfolding submit contains
submit-keeps id k s h = ground (arith, h)

pub submit-rest :
    (id : ℕ) (s : Coordinator)
    → ((submit id s).sessions ≡ s.sessions)
      × ((submit id s).running ≡ s.running)
      × ((submit id s).shutting_down ≡ s.shutting_down)
unfolding submit
submit-rest id s = elim (Bool-cases (contains s.tasks id)) [
  | inl c ↦ rw c (refl, refl, refl)
  | inr c ↦ rw c (refl, refl, refl)
]

tail_stored :
    (x : WanderSession) (xs : List WanderSession) (k : ℕ)
    → is_some (get k xs) ≡ true
    → is_some (get k (x ∷ xs)) ≡ true
unfolding get
tail_stored x xs k h = ground (arith, h)

head_stored : (x : WanderSession) (xs : List WanderSession) → is_some (get x.id (x ∷ xs)) ≡ true
unfolding get
head_stored x xs = ground arith

resaved : WanderSession → Coordinator → Coordinator
unfolding replaced recovered_session
resaved x s = record s { sessions = replaced (recovered_session x) s.sessions }

-- One session of the list submitted, or passed over.
submitted-Recovering :
    (x : WanderSession) (xs : List WanderSession) (s : Coordinator)
    → Recovering (x ∷ xs) s
    → Recovering xs (submit x.id (resaved x s))
unfolding resaved recovered_session
submitted-Recovering x xs s h =
    let t = resaved x s in
    let (same, running, up) = submit-rest x.id t in
    record {
      pending = λ k going. elim (Bool-cases (x.id == k)) [
        | inl e ↦ inl (submit-contains x.id k t e)
        | inr e ↦
            elim (h.pending k (
              ap unfinished
                (sym (get-replaced_other (recovered_session x) s k e) ∙ ap (get k) (sym same))
              ∙ going)) [
                | inl there ↦ inl (submit-keeps x.id k t there)
                | inr later ↦ inr (rw (get-head x xs k, e) at later)
              ]
      ];
      stored = λ k there.
          ap (λ ys. is_some (get k ys)) same ∙ kept k (h.stored k (tail_stored x xs k there));
      idle = running ∙ h.idle;
      up = up ∙ h.up;
    }
  where
    kept :
        (k : ℕ)
        → is_some (get k s.sessions) ≡ true
        → is_some (get k (replaced (recovered_session x) s.sessions)) ≡ true
    kept k there = ground (arith, there, get-replaced k (recovered_session x) s.sessions)

passed-Recovering :
    (x : WanderSession) (xs : List WanderSession) (s : Coordinator)
    → is_unfinished x.status ≡ false
    → Recovering (x ∷ xs) s
    → Recovering xs s
unfolding unfinished
passed-Recovering x xs s over h = record {
  pending = λ k going. elim (h.pending k going) [
    | inl there ↦ inl there
    | inr later ↦ elim (Bool-cases (x.id == k)) [
      | inl e ↦ absurd (true-ne-false (rw (get-head x xs k, e) at later) over)
      | inr e ↦ inr (rw (get-head x xs k, e) at later)
    ]
  ];
  stored = λ k there. h.stored k (tail_stored x xs k there);
  idle = h.idle;
  up = h.up;
}

pub recover_each-Recovering :
    (xs : List WanderSession) (s : Coordinator)
    → Recovering xs s
    → ((recover_each xs s).0 ≡ ok tt) × Recovering [] (recover_each xs s).1
unfolding recover_each pure modify ◌>>=◌ resaved recovered_session
recover_each-Recovering [] s h = (refl, h)
recover_each-Recovering (x ∷ xs) s h = elim (Bool-cases (is_unfinished x.status)) [
  | inl going ↦
      let saved = save_session-returns (recovered_session x) s (h.stored x.id (head_stored x xs)) in
      rw (going, saved)
        (recover_each-Recovering xs (submit x.id (resaved x s)) (submitted-Recovering x xs s h))
  | inr over ↦ rw over (recover_each-Recovering xs s (passed-Recovering x xs s over h))
]
