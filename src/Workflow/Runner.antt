-- ===== src/Workflow/Runner.antt =====
-- workflow/runner.py: `WorkflowRunner.run`.
pub mod Loop
pub mod Outcomes
pub mod Limit
pub mod Resume
use Prim.Native.String
use rexec_op.Base.{
  ℕ, zero, suc, String, Bool, true, false, not, ◌&&◌, ◌||◌, Option, none, some, List, [], ◌∷◌, ◌++◌,
  ◌==◌, length, any, contains, map, if◌then◌else◌, Result, ok, err, builtin_error, Action, map_ok,
}
use rexec_op.Base.Actions.{returns, lift, ◌>>=◌, ◌>>◌}
use rexec_op.Base.Int.{ℤ, pos, negsuc, eq_ℤ, leb_ℤ, ltb_ℤ}
use rexec_op.Json.{
  Value, null, bool, int, str, arr, obj, Items, nil, cons, Fields, end, field, get, has, put, keys,
  is_empty, is_text, is_true, to_list, of_list,
}
use rexec_op.Json.Python.{Python, text, as_int}
use rexec_op.Json.Coerce.{truthy, list_or_empty, dict_or_empty, dict_or_none, int_or_raise}
use rexec_op.Workflow.Steps.{
  id_of, error_class_of, StepExecutionContext, StepExecutionResult, optional, as_dict,
  WorkflowRunResult, EvidenceSink, Execution, RunArguments, Progress, Round, Outcome, drop, clip,
  is_listed, listed, readonly_modes, declares_continue, continue_on_error, error_of, into_failures,
  with_failure, is_used_up, goes_on, stops, finished, failed,
}

module _ {World : Type 0} (execution : Execution World) where
  abbrev started : Option (EvidenceSink World) → String → Action World (Unit {0})
  started none step_id = returns tt
  started (some sink) step_id = sink.on_step_started step_id

  abbrev completed :
      Option (EvidenceSink World) → String → StepExecutionResult → Action World (Unit {0})
  completed none step_id r = returns tt
  completed (some sink) step_id r = sink.on_step_completed step_id r

  abbrev failed_at :
      Option (EvidenceSink World) → String → StepExecutionResult → Action World (Unit {0})
  failed_at none step_id r = returns tt
  failed_at (some sink) step_id r = sink.on_step_failed step_id r

  module _ ⦃py : Python⦄ (sink : Option (EvidenceSink World)) (arguments : RunArguments) where
    abbrev context : Fields → Fields → StepExecutionContext
    context step state = record {
      operation_id = arguments.operation_id;
      target = arguments.target;
      mode = arguments.mode;
      step = step;
      shared_state = state;
    }

    abbrev after_success : Fields → Progress → StepExecutionResult → Action World Round
    after_success step p r = do
      completed sink (id_of step) r
      returns
          (goes_on (record p { executed = listed (id_of step) p.executed; index = suc p.index }))

    abbrev failure_entry : Fields → StepExecutionResult → Value
    failure_entry step r = obj (
        field "error" (str (clip 512 (error_of (id_of step) r)))
          (field "error_class" (str (clip 64 (error_class_of r))) end))

    abbrev continued : Fields → Progress → StepExecutionResult → Result Round
    continued step p r =
        map_ok
          (λ failures. goes_on (record p {
            state = put "step_results" (obj p.results) (put "continued_failures" failures p.state);
            index = suc p.index;
          }))
          (with_failure (id_of step) (failure_entry step r) p.state)

    abbrev after_failure : Fields → Progress → StepExecutionResult → Action World Round
    after_failure step p r = do
      failed_at sink (id_of step) r
      (if continue_on_error step arguments.mode
          then lift (continued step p r)
          else returns (stops p (id_of step) r))

    -- One round of the loop.
    unfoldable pub run_step : Fields → Progress → Action World Round
    run_step step p = do
      started sink (id_of step)
      (r, state) ← execution.execute (context step p.state) p.results
      let q = record p { state = state; results = put (id_of step) (obj (as_dict r)) p.results }
      (if r.success then after_success step q r else after_failure step q r)

    abbrev pub after_round : (Progress → Action World Outcome) → Round → Action World Outcome
    after_round more (goes_on p) = more p
    after_round more (stops p step_id r) = returns (failed p step_id r)

    -- The loop, for the steps from `index` on.
    unfoldable pub loop : Option ℤ → ℕ → List Fields → Progress → Action World Outcome
    loop limit steps_run [] p = returns (finished p)
    loop limit steps_run (step ∷ steps) p =
        if is_used_up limit steps_run
        then returns (finished p)
        else run_step step p >>= after_round (λ q. loop limit (suc steps_run) steps q)

    abbrev pub controls : Fields
    controls = dict_or_none (get "controls" arguments.policy_enforcement)

    abbrev binding : Fields
    binding = dict_or_none (get "binding" arguments.policy_enforcement)

    -- The state with `execution_request`, `execution_controls` and, at the end, the receipt.
    abbrev with_request : execution.Request → Fields → Fields
    with_request request state =
        put "execution_controls" (obj (execution.limits_dict request))
          (put "execution_request" (obj (execution.request_dict request)) state)

    abbrev with_results : Progress → Fields
    with_results p =
        put "step_results" (obj p.results) (put "executed_steps" (arr (of_list p.executed)) p.state)

    abbrev output_digest_required : Bool
    output_digest_required = truthy (get "output_digest_required" controls)

    -- The receipt, and the result that holds it.
    abbrev pub close :
        execution.Request
        → Bool
        → Progress
        → Fields
        → String
        → String
        → String
        → Result WorkflowRunResult
    close request success p state error error_class stopped_step_id =
        map_ok
          (λ receipt. record {
            operation_id = arguments.operation_id;
            success = success;
            executed_steps = p.executed;
            step_results = p.results;
            shared_state = put "execution_receipt" (obj receipt) state;
            error = error;
            error_class = error_class;
            stopped_step_id = stopped_step_id;
            next_step_index = p.index;
          })
          (execution.receipt request success p.executed p.results
            (get "typed_execution_specs" state) output_digest_required error error_class)

    -- What follows the loop.
    abbrev pub conclude : execution.Request → Outcome → Result WorkflowRunResult
    conclude request (finished p) = close request true p (with_results p) "" "" ""
    conclude request (failed p step_id r) =
        close request false p (with_results p) (error_of step_id r) (error_class_of r) step_id

    -- `policy_max_steps and len(planned_steps) > policy_max_steps`
    abbrev pub is_over : ℤ → Bool
    is_over limit = not (eq_ℤ limit (pos 0)) && ltb_ℤ limit (pos (length arguments.planned_steps))

    abbrev max_output_bytes : Value
    max_output_bytes =
        if has "max_output_bytes" controls then get "max_output_bytes" controls else int (pos 65536)

    -- What `run` computes before the loop: its variables, `policy_max_steps` and the request.
    abbrev pub prepared : List Value → Fields → execution.Request → Progress
    prepared executed results request = record {
      state = with_request request arguments.shared_state;
      executed = executed;
      results = results;
      index = arguments.start_index;
    }

    abbrev step_count : ℤ
    step_count = pos (length arguments.planned_steps)

    -- The run once its arguments are read.
    unfoldable pub run_prepared : ℤ → execution.Request → Progress → Action World WorkflowRunResult
    unfolding loop
    run_prepared limit request p =
        if is_over limit
        then lift (
            close request false p p.state "policy max_steps is lower than planned workflow"
              "policy_denied" "")
        else (do
          outcome ← loop arguments.max_steps 0 (drop p.index arguments.planned_steps) p
          lift (conclude request outcome))

    -- What `run` reads from its arguments, in this order.
    abbrev pub executed_before : Result (List Value)
    executed_before = list_or_empty (get "executed_steps" arguments.shared_state)

    abbrev pub results_before : Result Fields
    results_before = dict_or_empty (get "step_results" arguments.shared_state)

    abbrev pub policy_max_steps : Result ℤ
    policy_max_steps = int_or_raise (as_int (get "max_steps" controls))

    abbrev pub output_limit : Result ℤ
    output_limit = execution.validated_max_output_bytes max_output_bytes

    abbrev pub timeout : Result execution.Seconds
    timeout = execution.seconds (get "timeout_seconds" controls)

    abbrev pub request_of : ℤ → ℤ → execution.Seconds → Result execution.Request
    request_of limit bytes seconds =
        execution.request (if eq_ℤ limit (pos 0) then step_count else limit) bytes seconds binding

    unfoldable pub run : Action World WorkflowRunResult
    unfolding run_prepared
    run = do
      executed ← lift executed_before
      results ← lift results_before
      limit ← lift policy_max_steps
      bytes ← lift output_limit
      seconds ← lift timeout
      request ← lift (request_of limit bytes seconds)
      run_prepared limit request (prepared executed results request)

-- `run_single_step`
unfoldable pub run_single_step :
    ⦃py : Python⦄ {World : Type 0} (execution : Execution World)
    → Option (EvidenceSink World)
    → RunArguments
    → Action World WorkflowRunResult
unfolding run
run_single_step execution sink arguments =
    run execution sink (record arguments { max_steps = some (pos 1); policy_enforcement = end })
