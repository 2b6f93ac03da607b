-- ===== src/Machine.antt =====
-- backend/src/wandermind/cognitive/state_machine.py: the states of a wander run, and the moves
-- between them.
pub mod Graph
use wander_mind.Prelude.{Bool, true, false, if◌then◌else◌}
use wander_mind.Exec.{Result, ok, err}
use wander_mind.Models.Enums.{CognitiveState}
use wander_mind.Models.Enums.CognitiveState.{
  idle, seeding, wander, collision, generate, score, explore, critique, persist, surface, stopped,
  failed,
}

-- `target in LEGAL_TRANSITIONS[state]`
unfoldable pub legal_transitions : CognitiveState → CognitiveState → Bool
legal_transitions idle seeding = true
legal_transitions idle stopped = true
legal_transitions idle failed = true
legal_transitions seeding wander = true
legal_transitions seeding stopped = true
legal_transitions seeding failed = true
legal_transitions wander collision = true
legal_transitions wander stopped = true
legal_transitions wander failed = true
legal_transitions collision generate = true
legal_transitions collision wander = true
legal_transitions collision stopped = true
legal_transitions collision failed = true
legal_transitions generate score = true
legal_transitions generate wander = true
legal_transitions generate failed = true
legal_transitions score explore = true
legal_transitions score wander = true
legal_transitions score persist = true
legal_transitions score stopped = true
legal_transitions score failed = true
legal_transitions explore critique = true
legal_transitions explore persist = true
legal_transitions explore wander = true
legal_transitions explore failed = true
legal_transitions critique persist = true
legal_transitions critique wander = true
legal_transitions critique stopped = true
legal_transitions critique failed = true
legal_transitions persist surface = true
legal_transitions persist wander = true
legal_transitions persist failed = true
legal_transitions surface wander = true
legal_transitions surface stopped = true
legal_transitions _ _ = false

-- `InvalidStateTransition`, with the two states that its message names.
pub record InvalidStateTransition : Type 0 where
  pub from_state : CognitiveState
  pub to_state : CognitiveState

-- The machine is its `state`; a move gives the new one, or raises and leaves the old one.
unfoldable pub transition :
    CognitiveState → CognitiveState → Result InvalidStateTransition CognitiveState
transition state target =
    if legal_transitions state target
    then ok target
    else err (record { from_state = state; to_state = target })
