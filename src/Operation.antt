-- ===== src/Operation.antt =====
-- operation/: the lifecycle of an operation.
pub mod State
pub mod Model
