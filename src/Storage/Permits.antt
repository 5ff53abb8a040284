-- ===== src/Storage/Permits.antt =====
-- storage/file_store.py: the execution permits. The directory permits/ is two functions on an
-- operation's identifier and the name of a file; `none` is a file that is not there. The flock makes
-- a save one step.
pub mod Kept
use rexec_op.Base.{
  String, Bool, true, false, ◌&&◌, Option, none, some, ◌==◌, if◌then◌else◌, Result, ok, err,
  validation_error, Action, commit, raise_if, ◌>>=◌, ◌>>◌,
}
use rexec_op.Json.{Fields}
use rexec_op.Json.Python.{Python}
use rexec_op.Json.Coerce.{required}
use rexec_op.Storage.Governance.{exists}

pub record PermitFiles : Type 0 where
  pub steps : String → String → Option Fields
  pub attempts : String → String → Option Fields

-- Write the file `name` of an operation.
abbrev pub with_file :
    String → String → Fields → (String → String → Option Fields) → String → String → Option Fields
with_file operation_id name d files =
    λ o n. if o == operation_id && n == name then some d else files o n

abbrev pub write_permit : Fields → String × String × String → Action PermitFiles (String × String)
write_permit permit (operation_id, step_id, attempt_id) files = (
  ok (operation_id, attempt_id),
  record {
    steps = with_file operation_id step_id permit files.steps;
    attempts = with_file operation_id attempt_id permit files.attempts;
  },
)

module _ ⦃py : Python⦄ where
  -- The operation, the step and the attempt that a permit names.
  unfoldable pub permit_path : Fields → Result (String × String × String)
  permit_path permit = do
    operation_id ← required "operation_id" permit
    step_id ← required "step_id" permit
    attempt_id ← required "attempt_id" permit
    ok (operation_id, step_id, attempt_id)

  abbrev pub unused : PermitFiles → String × String × String → Result (String × String × String)
  unused files (operation_id, step_id, attempt_id) = do
    raise_if (exists (files.attempts operation_id attempt_id))
        (validation_error "runtime attempt permit already exists")
    ok (operation_id, step_id, attempt_id)

  -- `save_execution_permit`; the path that it returns is the pair of its parts.
  unfoldable pub save_execution_permit : Fields → Action PermitFiles (String × String)
  save_execution_permit permit files =
      commit (permit_path permit >>= unused files) (write_permit permit) files

abbrev found_or_raise : String → Option Fields → Result Fields
found_or_raise message none = err (validation_error message)
found_or_raise message (some d) = ok d

pub load_execution_permit : String → String → PermitFiles → Result Fields
load_execution_permit operation_id step_id files =
    found_or_raise "execution permit not found: " (files.steps operation_id step_id)

unfoldable pub load_execution_permit_for_attempt : String → String → PermitFiles → Result Fields
load_execution_permit_for_attempt operation_id attempt_id files =
    found_or_raise "runtime attempt permit not found: " (files.attempts operation_id attempt_id)
