-- ===== src/Engine/Safety/Invariant.antt =====
-- What holds of the locals of `run` while the machine is in a given state.
use wander_mind.Prelude.{ℕ, suc, ◌+◌, ◌≤◌, ◌≡◌, true, List, [], ◌∷◌, ◌++◌, length, arith}
use wander_mind.Models.Enums.{CognitiveState, SessionStatus}
use wander_mind.Models.Budget.{WanderBudget}
use wander_mind.Models.Session.{WanderStep, WanderError, invalid_state_transition}
use wander_mind.Machine.{legal_transitions}
use wander_mind.Engine.State.{RunState}

-- Each step carries its own position.
abbrev pub IndexedFrom : ℕ → List WanderStep → Type 0
IndexedFrom n [] = Unit
IndexedFrom n (step ∷ steps) = (step.index ≡ n) × IndexedFrom (suc n) steps

abbrev pub IsIndexed : List WanderStep → Type 0
IsIndexed steps = IndexedFrom 0 steps

pub IndexedFrom-append :
    (n : ℕ) (steps : List WanderStep) (step : WanderStep)
    → IndexedFrom n steps
    → step.index ≡ n + length steps
    → IndexedFrom n (steps ++ step ∷ [])
IndexedFrom-append n [] step h e = (omega (arith, e), tt)
IndexedFrom-append n (x ∷ xs) step h e =
    (h.0, IndexedFrom-append (suc n) xs step h.1 (omega (arith, e)))

-- The bounds of the budget `b` with `room.0` candidates and `room.1` runtime calls to spare, and the checkpoint in the
-- session's metadata.
pub record Bounds (b : WanderBudget) (room : ℕ × ℕ) (s : RunState) : Type 0 where
  pub budget : s.session.budget ≡ b
  pub candidates : length s.candidates + room.0 ≤ b.max_candidates
  pub moves : s.wander_moves ≤ b.max_steps
  pub switches : s.patch_switches ≤ b.max_patch_switches
  pub calls : s.runtime_calls_used + room.1 ≤ b.max_runtime_calls
  pub saved_moves : s.session.metadata.wander_moves ≡ s.wander_moves
  pub saved_switches : s.session.metadata.patch_switches ≡ s.patch_switches

-- The machine, the session's state and the session's status agree, and the trace is numbered.
pub record At (b : WanderBudget) (room : ℕ × ℕ) (m : CognitiveState) (s : RunState) : Type 0 where
  pub machine : s.machine ≡ m
  pub state : s.session.state ≡ m
  pub running : s.session.status ≡ SessionStatus.running
  pub indexed : IsIndexed s.session.trace.steps
  pub bounds : Bounds b room s

-- What holds when an exception leaves the body: it is no illegal move, and the machine stands where
-- the handler may move to `failed`.
pub record Raised (b : WanderBudget) (e : WanderError) (s : RunState) : Type 0 where
  pub legal : e ≡ invalid_state_transition → ⊥
  pub can_fail : legal_transitions s.machine CognitiveState.failed ≡ true
  pub inside : At b (0, 0) s.machine s
