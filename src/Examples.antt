-- ===== src/Examples.antt =====
-- Concrete runs of the modelled code, and its theorems at concrete inputs.
mod Toy
mod Lifecycles
mod Leases
mod Queues
mod Journals
mod Locks
mod Postures
mod Graphs
mod Workflows
mod Stores
mod Reactions
mod Coordination
mod Authorities
mod Permissions
