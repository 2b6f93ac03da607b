-- ===== src/Engine/Safety/Moves.antt =====
-- Triples for `_record`, `_transition` and the questions to the components.
use wander_mind.Prelude.{ℕ, ◌+◌, ◌≡◌, refl, Text, String, true, Option, none, some, arith}
use wander_mind.Exec.{ok, err, Result, modify, gets}
use wander_mind.Exec.Triple.{Triple-bind, Triple-pure, Triple, Holds}
use wander_mind.Models.Enums.{CognitiveState}
use wander_mind.Models.Enums.CognitiveState.{failed, wander, surface}
use wander_mind.Engine.Admit.{Ending, complete_now}
use wander_mind.Models.Budget.{WanderBudget}
use wander_mind.Models.Session.{StepFields, WanderError, invalid_state_transition}
use wander_mind.Machine.{legal_transitions, transition, InvalidStateTransition}
use wander_mind.Engine.Components.{Components}
use wander_mind.Engine.State.{Write, write, RunState, Run, ask, attempt, or_raise}
use wander_mind.Engine.Record.{record_step, transition_to, enter, cancel_requested}
use wander_mind.Engine.Safety.Invariant.{IndexedFrom-append, Bounds, At, Raised}

-- One action of the body: from the state `m` with `room` to what `Q` says, raising only as `Raised`.
abbrev pub Moves :
    {A : Type 0} → WanderBudget → ℕ × ℕ → CognitiveState → Run A → (A → RunState → Type 0) → Type 0
Moves b room m action Q = Triple (At b room m) action Q (Raised b)

pub Bounds-room :
    {b : WanderBudget} {room : ℕ × ℕ} {s : RunState} → Bounds b room s → Bounds b (0, 0) s
Bounds-room h = record {
  budget = h.budget;
  candidates = omega (arith, h.candidates);
  moves = h.moves;
  switches = h.switches;
  calls = omega (arith, h.calls);
  saved_moves = h.saved_moves;
  saved_switches = h.saved_switches;
}

-- Where the machine stands when the loop is left: it completes from `surface`, and does all else from
-- `wander`.
abbrev pub left_from : Ending → CognitiveState
left_from (complete_now reason) = surface
left_from _ = wander

module _ {b : WanderBudget} {room : ℕ × ℕ} {m : CognitiveState} where
  pub At-room : (s : RunState) → At b room m s → At b (0, 0) m s
  At-room s h = record {
    machine = h.machine;
    state = h.state;
    running = h.running;
    indexed = h.indexed;
    bounds = Bounds-room h.bounds;
  }

  pub Raised-At :
      (e : WanderError) (s : RunState)
      → (e ≡ invalid_state_transition → ⊥)
      → legal_transitions m failed ≡ true
      → At b room m s
      → Raised b e s
  Raised-At e s legal can_fail h = record {
    legal = legal;
    can_fail = rw h.machine can_fail;
    inside = record {
      machine = refl;
      state = rw h.machine h.state;
      running = h.running;
      indexed = h.indexed;
      bounds = Bounds-room h.bounds;
    };
  }

module _ {b : WanderBudget} {room : ℕ × ℕ} {m : CognitiveState}
    {R : WanderError → RunState → Type 0} where
  pub ask-Moves : {A : Type 0} (f : ℕ → A) → Triple (At b room m) (ask f) (λ _. At b room m) R
  unfolding ask
  ask-Moves f = record { at = λ s h. ground arith }

  pub gets-Moves : Triple (At b room m) (gets (λ s. s)) (λ _. At b room m) R
  unfolding gets
  gets-Moves = record { at = λ s h. h }

  pub write-Moves : (row : Write) → Triple (At b room m) (write row) (λ _. At b room m) R
  unfolding write
  write-Moves row = record { at = λ s h. ground arith }

  -- The value read is the state itself.
  pub gets_eq-Moves : Triple (At b room m) (gets (λ s. s)) (λ a s. At b room m s × (a ≡ s)) R
  unfolding gets
  gets_eq-Moves = record { at = λ s h. (h, refl) }

  pub modify-Moves :
      {room' : ℕ × ℕ} (g : RunState → RunState)
      → ((s : RunState) → At b room m s → At b room' m (g s))
      → Triple (At b room m) (modify g) (λ _. At b room' m) R
  unfolding modify
  modify-Moves g h = record { at = h }

module _ {b : WanderBudget} {room : ℕ × ℕ} {m : CognitiveState} where
  answered :
      {A : Type 0} (e : WanderError) (o : Option A) (s : RunState)
      → (e ≡ invalid_state_transition → ⊥)
      → legal_transitions m failed ≡ true
      → At b room m s
      → Holds (λ (_ : A). At b room m) (Raised b) (or_raise e o) s
  answered e none s legal can_fail h = Raised-At e s legal can_fail h
  answered e (some a) s legal can_fail h = h

  answered_with :
      {A : Type 0} (Good : A → Type 0) (e : WanderError) (o : Option A) (s : RunState)
      → ((a : A) → o ≡ some a → Good a)
      → (e ≡ invalid_state_transition → ⊥)
      → legal_transitions m failed ≡ true
      → At b room m s
      → Holds (λ (a : A) (u : RunState). At b room m u × Good a) (Raised b) (or_raise e o) s
  answered_with Good e none s good legal can_fail h = Raised-At e s legal can_fail h
  answered_with Good e (some a) s good legal can_fail h = (h, good a refl)

  -- What is known of every answer is known of the value.
  pub attempt_with-Moves :
      {A : Type 0} (Good : A → Type 0) (e : WanderError) (f : ℕ → Option A)
      → ((t : ℕ) (a : A) → f t ≡ some a → Good a)
      → (e ≡ invalid_state_transition → ⊥)
      → legal_transitions m failed ≡ true
      → Moves b room m (attempt e f) (λ a s. At b room m s × Good a)
  unfolding attempt
  attempt_with-Moves Good e f good legal can_fail = record {
    at = λ s h.
        answered_with Good e (f s.tick) (record s { tick = s.tick + 1 }) (good s.tick) legal
          can_fail (ground arith);
  }

  pub attempt-Moves :
      {A : Type 0} (e : WanderError) (f : ℕ → Option A)
      → (e ≡ invalid_state_transition → ⊥)
      → legal_transitions m failed ≡ true
      → Moves b room m (attempt e f) (λ _. At b room m)
  unfolding attempt
  attempt-Moves e f legal can_fail = record {
    at =
        λ s h. answered e (f s.tick) (record s { tick = s.tick + 1 }) legal can_fail (ground arith);
  }

moved :
    {b : WanderBudget} {room : ℕ × ℕ} {m : CognitiveState} (s : RunState)
    (t target : CognitiveState)
    → t ≡ target
    → At b room m s
    → At b room target (record s { machine = t; session = record (s.session) { state = target } })
moved s t target e h = record {
  machine = e;
  state = refl;
  running = h.running;
  indexed = h.indexed;
  bounds = ground arith;
}

module _ (w : Components) {b : WanderBudget} {room : ℕ × ℕ} {m : CognitiveState} where
  record_step-At :
      (state : CognitiveState) (action : String) (reason : Text) (step_fields : StepFields)
      (s : RunState)
      → At b room m s
      → At b room m (record_step w state action reason step_fields s).1
  unfolding record_step
  record_step-At state action reason step_fields s h = record {
    machine = h.machine;
    state = h.state;
    running = h.running;
    indexed = IndexedFrom-append 0 s.session.trace.steps _ h.indexed (omega arith);
    bounds = ground arith;
  }

module _ (w : Components) {b : WanderBudget} {room : ℕ × ℕ} {m : CognitiveState}
    {R : WanderError → RunState → Type 0} where
  pub record_step-Moves :
      (state : CognitiveState) (action : String) (reason : Text) (step_fields : StepFields)
      → Triple (At b room m) (record_step w state action reason step_fields) (λ _. At b room m) R
  unfolding record_step
  record_step-Moves state action reason step_fields = record {
    at = record_step-At w state action reason step_fields;
  }

module _ (w : Components) {b : WanderBudget} {room : ℕ × ℕ} {m : CognitiveState} where
  transition_to-eq :
      (s : RunState) (target : CognitiveState)
      → At b room m s
      → legal_transitions m target ≡ true
      → transition s.machine target ≡ ok target
  unfolding transition
  transition_to-eq s target h legal = rw (h.machine, legal)

  entered :
      (R : WanderError → RunState → Type 0) (target : CognitiveState) (action : String)
      (reason : Text) (step_fields : StepFields) (s : RunState)
      (r : Result InvalidStateTransition CognitiveState)
      → r ≡ ok target
      → At b room m s
      → Holds
          (λ _. At b room target)
          R
          (enter w target action reason step_fields r s).0
          (enter w target action reason step_fields r s).1
  unfolding enter
  entered R target action reason step_fields s (ok t) e h =
      (record_step-Moves w target action reason step_fields).at
        (record s { machine = t; session = record (s.session) { state = target } })
        (moved s t target (cc) h)
  entered R target action reason step_fields s (err x) e h = cc

module _ (w : Components) {b : WanderBudget} {room : ℕ × ℕ} {m : CognitiveState}
    {R : WanderError → RunState → Type 0} where
  pub transition_to-Moves :
      (target : CognitiveState) (action : String) (reason : Text) (step_fields : StepFields)
      → legal_transitions m target ≡ true
      → Triple
          (At b room m)
          (transition_to w target action reason step_fields)
          (λ _. At b room target)
          R
  unfolding transition_to
  transition_to-Moves target action reason step_fields legal = record {
    at = λ s h.
        entered w R target action reason step_fields s (transition s.machine target)
          (transition_to-eq w s target h legal) h;
  }

module _ (w : Components) {b : WanderBudget} {room : ℕ × ℕ} {m : CognitiveState} where
  pub cancel_requested-Moves : Moves b room m (cancel_requested w) (λ _. At b room m)
  unfolding cancel_requested
  cancel_requested-Moves =
      Triple-bind _ _ _ _ (ask-Moves w.stored_session) (λ _. Triple-pure _ _ (λ s h. h))
