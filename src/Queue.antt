-- ===== src/Queue.antt =====
-- runtime_ops/queue.py: the run-now queue of a runtime root, its claims and their recovery.
pub mod Checks
pub mod Transition
pub mod Store
pub mod Topology
pub mod Facts
pub mod Claims
pub mod Recovery
pub mod Completion
pub mod Deferral
pub mod Invariant
pub mod Fifo
