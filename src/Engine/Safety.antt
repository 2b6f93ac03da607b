-- ===== src/Engine/Safety.antt =====
-- Why a wander run keeps to its budgets and to the legal moves of its state machine: an invariant
-- of the locals of `run`, and the triples that carry it through each part of the loop.
pub mod Invariant
pub mod Moves
pub mod Admitted
pub mod Explored
pub mod Generated
pub mod Reviewed
pub mod Promoted
pub mod Rounds
pub mod Finished
pub mod Bodies
pub mod Runs
