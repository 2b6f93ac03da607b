-- ===== src/Repositories.antt =====
-- backend/src/wandermind/repositories/in_memory.py.
pub mod Store
pub mod Bundle
pub mod Each
