-- ===== src/Examples/Workflows.antt =====
-- A plan of two steps; the world counts the steps that were executed.
use rexec_op.Base.{
  ℕ, suc, ◌+◌, ◌≤◌, String, ◌≡◌, refl, ◌⊎◌, true, false, Option, none, some, List, [], ◌∷◌, ◌++◌,
  ok, all, contains, length,
}
use rexec_op.Base.Actions.{go_on}
use rexec_op.Base.Int.{ℤ, pos, pos_part}
use rexec_op.Json.{str, int, obj, arr, of_list, Fields, end, field}
use rexec_op.Workflow.Steps.{
  id_of, as_dict, StepExecutionResult, Execution, RunArguments, Progress, WorkflowRunResult,
  is_listed, readonly_modes, is_used_up,
}
use rexec_op.Workflow.Runner.{run, run_step, loop}
use rexec_op.Workflow.Runner.Outcomes.{run_success, run_within}
use rexec_op.Workflow.Runner.Resume.{resume, loop_in_parts}
use rexec_op.Examples.Toy.{toy}

abbrev step_result : String → StepExecutionResult
step_result id = record {
  step_id = id;
  success = true;
  output = end;
  error = "";
  runtime_receipt_binding = end;
  receipt_conformance = end;
}

abbrev counting : Execution ℕ
counting = record {
  execute = λ c results w. (ok (step_result (id_of c.step), c.shared_state), suc w);
  Request = Unit {0};
  validated_max_output_bytes = λ v. ok (pos 65536);
  Seconds = Unit {0};
  seconds = λ v. ok tt;
  request = λ limit bytes seconds binding. ok tt;
  request_dict = λ r. end;
  limits_dict = λ r. end;
  receipt = λ r success executed results specs required error error_class. ok end;
}

abbrev plan : List Fields
plan = field "id" (str "check") end ∷ field "id" (str "apply") end ∷ []

abbrev arguments : Option ℤ → Fields → RunArguments
arguments limit enforcement = record {
  operation_id = "op1";
  target = "web";
  mode = "apply";
  planned_steps = plan;
  shared_state = end;
  start_index = 0;
  max_steps = limit;
  policy_enforcement = enforcement;
}

abbrev results : Fields
results =
    field "check" (obj (as_dict (step_result "check")))
      (field "apply" (obj (as_dict (step_result "apply"))) end)

abbrev both_done : WorkflowRunResult
both_done = record {
  operation_id = "op1";
  success = true;
  executed_steps = str "check" ∷ str "apply" ∷ [];
  step_results = results;
  shared_state = field "execution_request" (obj end) (
      field "execution_controls" (obj end) (
        field "executed_steps" (arr (of_list (str "check" ∷ str "apply" ∷ [])))
          (field "step_results" (obj results) (field "execution_receipt" (obj end) end))));
  error = "";
  error_class = "";
  stopped_step_id = "";
  next_step_index = 2;
}

full_run : run counting none (arguments none end) 0 ≡ (ok both_done, 2)
unfolding run run_step
full_run = refl

budget_run : run counting none (arguments (some (pos 2)) end) 0 ≡ (ok both_done, 2)
unfolding run run_step
budget_run = refl

run_success_example :
    (passed : List Fields) × (rest : List Fields) × (plan ≡ passed ++ rest)
    × (2 ≡ 0 + length passed)
    × ((rest ≡ []) ⊎ (is_used_up none (length passed) ≡ true))
    × (contains "apply" readonly_modes ≡ false
        → all (λ s. is_listed (id_of s) (str "check" ∷ str "apply" ∷ [])) passed ≡ true)
run_success_example = run_success counting none (arguments none end) 0 full_run refl

run_within_example :
    (0 ≤ 2) × (2 ≤ 0 + length plan) × ((m : ℤ) → some (pos 2) ≡ some m → 2 ≤ 0 + pos_part m)
run_within_example = run_within counting none (arguments (some (pos 2)) end) 0 budget_run

abbrev one_step : Fields
one_step = field "controls" (obj (field "max_steps" (int (pos 1)) end)) end

abbrev denied : WorkflowRunResult
denied = record {
  operation_id = "op1";
  success = false;
  executed_steps = [];
  step_results = end;
  shared_state =
      field "execution_request" (obj end)
        (field "execution_controls" (obj end) (field "execution_receipt" (obj end) end));
  error = "policy max_steps is lower than planned workflow";
  error_class = "policy_denied";
  stopped_step_id = "";
  next_step_index = 0;
}

abbrev first : Progress
first = record { state = end; executed = []; results = end; index = 0 }

loop_in_parts_example :
    loop counting none (arguments none end) (some (pos (1 + 1))) 0 plan first 0
    ≡ go_on
        (loop counting none (arguments none end) (some (pos 1)) 0 plan first 0)
        (resume counting none (arguments none end) 1)
loop_in_parts_example = loop_in_parts counting none (arguments none end) 1 1 first 0
