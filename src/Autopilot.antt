-- ===== src/Autopilot.antt =====
-- `AutopilotSupervisor` of backend/src/wandermind/application/autopilot_service.py.
pub mod State
pub mod Promotion
pub mod Cycle
pub mod Control
pub mod Frame
pub mod Accounts
pub mod Operations
pub mod Reconcile
pub mod Origins
pub mod Standing
pub mod Sources
pub mod Overflow
