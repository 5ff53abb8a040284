-- ===== src/Workflow/Runner/Limit.antt =====
-- The limit that a policy sets on the number of planned steps.
use rexec_op.Base.{◌≡◌, ◌≢◌, ◌⊎◌, false, Option, length}
use rexec_op.Base.Int.{ℤ, pos, ◌<ℤ◌, ◌≤ℤ◌}
use rexec_op.Json.Python.{Python}
use rexec_op.Workflow.Steps.{
  WorkflowRunResult, EvidenceSink, Execution, RunArguments, Progress, Outcome, drop,
}
use rexec_op.Workflow.Runner.Loop.{Covers}
use rexec_op.Workflow.Runner.Outcomes.{Tells}

module _ {World : Type 0} (execution : Execution World) ⦃py : Python⦄
    (sink : Option (EvidenceSink World)) (arguments : RunArguments) where
  -- A run that was refused before its first step.
  pub record IsRefused (w : World) (limit : ℤ) (result : WorkflowRunResult) (w' : World)
      : Type 0 where
    pub limits : limit ≢ pos 0
    pub exceeds : limit <ℤ pos (length arguments.planned_steps)
    pub unsuccessful : result.success ≡ false
    pub denied : result.error_class ≡ "policy_denied"
    pub stays : result.next_step_index ≡ arguments.start_index
    pub leaves : w' ≡ w

  -- A run that went through the loop.
  pub record IsLooped (limit : ℤ) (result : WorkflowRunResult) : Type 0 where
    pub allows : (limit ≡ pos 0) ⊎ (pos (length arguments.planned_steps) ≤ℤ limit)
    pub start : Progress
    pub outcome : Outcome
    pub starts_at : start.index ≡ arguments.start_index
    pub covers :
        Covers execution sink arguments arguments.max_steps 0
          (drop arguments.start_index arguments.planned_steps)
          start.index
          start.executed
          outcome
    pub tells : Tells execution sink arguments outcome result
