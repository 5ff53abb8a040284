-- ===== src/Attempts.antt =====
-- runtime_ops/attempts.py: the records of connector attempts, and the journal that keeps them.
-- The records are here, the journal in Attempts/Journal. `_now()` and the identifiers are
-- arguments.
pub mod Journal
pub mod Lifecycle
pub mod Sweep
use Prim.Native.Char.{code}
use Prim.Native.String
use Prim.Native.String.{count}
use rexec_op.Base.{
  ℕ, String, Bool, true, false, not, ◌&&◌, ◌||◌, List, [], ◌∷◌, ◌==◌, leb, nat_eq, contains, Option,
  none, some, if◌then◌else◌, Result, ok, err, builtin_error, validation_error, ◌>>=◌, ◌>>◌,
  raise_if,
}
use rexec_op.Base.Int.{ℤ}
use rexec_op.Json.{Value, bool, int, str, obj, Fields, end, field, get, put, is_text}
use rexec_op.Json.Python.{Python, text, as_int, to_text}
use rexec_op.Lease.{or_raise, get_or_null}

-- ATTEMPT_SCHEMA
abbrev pub attempt_schema : String
attempt_schema = "rexecop.execution_attempt.v0.1"

-- `sorted(ATTEMPT_STATUSES)`
abbrev pub attempt_statuses : List String
attempt_statuses = "completed" ∷ "failed" ∷ "indeterminate" ∷ "pending" ∷ "started" ∷ []

abbrev pub terminal_statuses : List String
terminal_statuses = "completed" ∷ "failed" ∷ "indeterminate" ∷ []

-- The modes that only look.
abbrev pub read_only_modes : List String
read_only_modes = "observe" ∷ "dry_run" ∷ "emergency_readonly" ∷ []

-- `s.startswith(prefix)`
abbrev pub starts_with : String → String → Bool
starts_with s String.[] = true
starts_with String.[] (String.◌∷◌ d p) = false
starts_with (String.◌∷◌ c s) (String.◌∷◌ d p) = nat_eq (code c) (code d) && starts_with s p

-- What `start` is told of an attempt.
pub record Request : Type 0 where
  pub operation_id : String
  pub attempt_id : String
  pub operation_revision : ℤ
  pub step_id : String
  pub plan : Value
  pub execution_spec : Option Fields
  pub target : String
  pub mode : String
  pub lease : Fields
  pub execution_permit_ref : String

module _ ⦃py : Python⦄ where
  -- catalog/digest.py: `canonical_digest`; every number here is finite.
  unfoldable pub canonical_digest : Value → String
  canonical_digest v = py.sha256 (py.dump v)

  -- The record that `build_pending_attempt` returns.
  abbrev pub pending_attempt : Request → ℤ → ℕ → Fields
  pending_attempt r epoch now = field "schema" (str attempt_schema) (
      field "attempt_id" (str r.attempt_id) (
        field "operation_id" (str r.operation_id) (
          field "operation_revision" (int r.operation_revision) (
            field "step_id" (str r.step_id) (
              field "status" (str "pending") (
                field "plan_digest" (str (String.◌++◌ "sha256:" (canonical_digest r.plan))) (
                  field "execution_spec_digest" (str (text (get_or_null "digest" r.execution_spec)))
                    (field "target" (str r.target) (
                      field "mode" (str r.mode) (
                        field "side_effectful" (bool (not (contains r.mode read_only_modes))) (
                          field "execution_permit_ref" (str r.execution_permit_ref) (
                            field "lease_epoch" (int epoch) (
                              field "process_instance_id"
                                (str (text (get "process_instance_id" r.lease)))
                                (field "created_at" (str (py.iso now)) end))))))))))))))

  unfoldable pub build_pending_attempt : Request → ℕ → Result Fields
  build_pending_attempt r now = do
    raise_if (not (starts_with r.attempt_id "attempt-") || not (leb (count r.attempt_id) 96))
        (validation_error "invalid execution attempt id")
    epoch ← or_raise (as_int (get "lease_epoch" r.lease))
    ok (pending_attempt r epoch now)

  abbrev pub mark_attempt_started : Fields → ℕ → Fields
  mark_attempt_started d now = put "started_at" (str (py.iso now)) (put "status" (str "started") d)

  -- The update of `finish_attempt_record`.
  abbrev pub finished : Fields → String → String → String → ℕ → Fields
  finished d status result_digest error_class now = put "error_class" (str error_class) (
      put "result_digest" (str result_digest)
        (put "finished_at" (str (py.iso now)) (put "status" (str status) d)))

  unfoldable pub finish_attempt_record : Fields → String → String → String → ℕ → Result Fields
  finish_attempt_record d status result_digest error_class now = do
    raise_if (not (contains status terminal_statuses))
        (validation_error "invalid attempt terminal status")
    raise_if (not (is_text "started" (get "status" d)))
        (validation_error "execution attempt is not started")
    ok (finished d status result_digest error_class now)

  unfoldable pub finish_attempt_indeterminate_if_started : Fields → String → ℕ → Result Fields
  unfolding finish_attempt_record
  finish_attempt_indeterminate_if_started d result_digest now =
      let status = text (get "status" d) in
      if contains status terminal_statuses
      then ok d
      else if not (status == "started")
      then err (validation_error "execution attempt is not started or terminal")
      else finish_attempt_record d "indeterminate" result_digest "outcome_indeterminate" now
