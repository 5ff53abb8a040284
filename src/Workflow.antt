-- ===== src/Workflow.antt =====
-- workflow/: the runner of the planned steps of an operation.
pub mod Steps
pub mod Runner
