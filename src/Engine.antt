-- ===== src/Engine.antt =====
-- backend/src/wandermind/cognitive/engine.py: the run of a wander session.
pub mod Reason
pub mod Components
pub mod State
pub mod Record
pub mod Admit
pub mod Explore
pub mod Review
pub mod Surfacing
pub mod Promote
pub mod Finish
pub mod Pairs
pub mod Prepare
pub mod Run
pub mod Safety
