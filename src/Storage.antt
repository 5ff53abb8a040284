-- ===== src/Storage.antt =====
-- storage/: the stores of the runtime.
pub mod FileStore
pub mod MemoryStore
pub mod Revisions
pub mod Writes
pub mod Refinement
pub mod Governance
pub mod Permits
