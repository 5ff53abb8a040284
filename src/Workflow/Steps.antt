-- ===== src/Workflow/Steps.antt =====
-- The types of workflow/runner.py and of execution/backend.py, and the tests of the runner's loop.
-- The step executor, the evidence sink and the records of execution/model.py are arguments. They
-- work on a `World` that the runner does not look at.
use Prim.Native.String
use rexec_op.Base.{
  ℕ, zero, suc, String, Bool, false, ◌&&◌, Option, none, some, List, [], ◌∷◌, ◌++◌, ◌==◌, any,
  contains, if◌then◌else◌, Result, ok, err, builtin_error, Action,
}
use rexec_op.Base.Int.{ℤ, pos, leb_ℤ}
use rexec_op.Json.{
  Value, bool, str, obj, Fields, end, field, get, has, put, is_empty, is_text, is_true,
}
use rexec_op.Json.Python.{Python, text}

-- StepExecutionContext
pub record StepExecutionContext : Type 0 where
  pub operation_id : String
  pub target : String
  pub mode : String
  pub step : Fields
  pub shared_state : Fields

-- StepExecutionResult
pub record StepExecutionResult : Type 0 where
  pub step_id : String
  pub success : Bool
  pub output : Fields
  pub error : String
  pub runtime_receipt_binding : Fields
  pub receipt_conformance : Fields

abbrev pub optional : String → Fields → Fields → Fields
optional key d rest = if is_empty d then rest else field key (obj d) rest

-- `StepExecutionResult.as_dict`
abbrev pub as_dict : StepExecutionResult → Fields
as_dict r = field "step_id" (str r.step_id) (
    field "success" (bool r.success) (
      field "output" (obj r.output) (
        field "error" (str r.error) (
          optional "runtime_receipt_binding" r.runtime_receipt_binding
            (optional "receipt_conformance" r.receipt_conformance end)))))

-- WorkflowRunResult
pub record WorkflowRunResult : Type 0 where
  pub operation_id : String
  pub success : Bool
  pub executed_steps : List Value
  pub step_results : Fields
  pub shared_state : Fields
  pub error : String
  pub error_class : String
  pub stopped_step_id : String
  pub next_step_index : ℕ

-- WorkflowEvidenceSink; the correlation id is fixed.
pub record EvidenceSink (World : Type 0) : Type 0 where
  pub on_step_started : String → Action World (Unit {0})
  pub on_step_completed : String → StepExecutionResult → Action World (Unit {0})
  pub on_step_failed : String → StepExecutionResult → Action World (Unit {0})

-- What the runner calls of execution/: the executor, and the request and the receipt of
-- execution/model.py. After a continued failure the runner's dict of step results is an entry of
-- the shared state, so `execute` is given it too; it leaves that dict as it is.
pub record Execution (World : Type 0) : Type 1 where
  pub execute : StepExecutionContext → Fields → Action World (StepExecutionResult × Fields)
  pub Request : Type 0
  pub validated_max_output_bytes : Value → Result ℤ
  pub Seconds : Type 0
  pub seconds : Value → Result Seconds
  pub request : ℤ → ℤ → Seconds → Fields → Result Request
  pub request_dict : Request → Fields
  pub limits_dict : Request → Fields
  pub receipt :
      Request → Bool → List Value → Fields → Value → Bool → String → String → Result Fields

-- The arguments of `run`, without the executor and the sink.
pub record RunArguments : Type 0 where
  pub operation_id : String
  pub target : String
  pub mode : String
  pub planned_steps : List Fields
  pub shared_state : Fields
  pub start_index : ℕ
  pub max_steps : Option ℤ
  pub policy_enforcement : Fields

-- The variables of the loop, without `steps_run`.
pub record Progress : Type 0 where
  pub state : Fields
  pub executed : List Value
  pub results : Fields
  pub index : ℕ

-- How a round of the loop ends.
pub data Round : Type 0 where
  goes_on : Progress → Round
  stops : Progress → String → StepExecutionResult → Round

-- How the loop ends.
pub data Outcome : Type 0 where
  finished : Progress → Outcome
  failed : Progress → String → StepExecutionResult → Outcome

-- `xs[n:]`
abbrev pub drop {ℓ} : {A : Type ℓ} → ℕ → List A → List A
drop zero xs = xs
drop (suc n) [] = []
drop (suc n) (x ∷ xs) = drop n xs

-- `s[:n]`
abbrev pub clip : ℕ → String → String
clip zero s = ""
clip (suc n) String.[] = String.[]
clip (suc n) (String.◌∷◌ c s) = String.◌∷◌ c (clip n s)

-- `step_id in executed`
abbrev pub is_listed : String → List Value → Bool
is_listed step_id executed = any (is_text step_id) executed

abbrev pub listed : String → List Value → List Value
listed step_id executed =
    if is_listed step_id executed then executed else executed ++ str step_id ∷ []

abbrev pub readonly_modes : List String
readonly_modes = "dry_run" ∷ "observe" ∷ "emergency_readonly" ∷ []

abbrev pub declares_continue : Value → Bool
declares_continue (obj metadata) = is_true (get "continue_on_error" metadata)
declares_continue _ = false

unfoldable pub continue_on_error : Fields → String → Bool
continue_on_error step mode =
    declares_continue (get "metadata" step) && contains mode readonly_modes

abbrev pub error_of : String → StepExecutionResult → String
error_of step_id r = if r.error == "" then String.◌++◌ "step failed: " step_id else r.error

-- `state.setdefault("continued_failures", {})[step_id] = record`
abbrev pub into_failures : String → Value → Value → Result Value
into_failures step_id entry (obj d) = ok (obj (put step_id entry d))
into_failures step_id entry _ = err builtin_error

abbrev pub with_failure : String → Value → Fields → Result Value
with_failure step_id entry state =
    into_failures step_id entry
      (if has "continued_failures" state then get "continued_failures" state else obj end)

-- `max_steps is not None and steps_run >= max_steps`
abbrev pub is_used_up : Option ℤ → ℕ → Bool
is_used_up none steps_run = false
is_used_up (some limit) steps_run = leb_ℤ limit (pos steps_run)

module _ ⦃py : Python⦄ where
  abbrev pub id_of : Fields → String
  id_of step = text (get "id" step)

  abbrev pub error_class_of : StepExecutionResult → String
  error_class_of r = text (get "error_class" r.output)
