-- ===== src/Queue/Transition.antt =====
-- The transition record that a claim keeps of its last change: `_transition_record` of
-- runtime_ops/queue.py and the projections of its fields.
pub mod Projection
pub mod Valid
use Prim.Native.Nat.{min}
use Prim.Native.String.{count}
use rexec_op.Base.{
  ℕ, suc, ◌+◌, ◌-◌, String, Bool, true, false, not, ◌&&◌, ◌||◌, List, [], ◌∷◌, ◌==◌, ltb, all, any,
  contains, if◌then◌else◌, Result, ok, err, builtin_error, Option, none, some, ◌>>=◌,
}
use rexec_op.Base.Int.{ℤ, pos}
use rexec_op.Json.{Value, int, str, obj, Fields, end, field, get, is_text}
use rexec_op.Json.Python.{Python, text}
use rexec_op.Attempts.{attempt_statuses}
use rexec_op.Queue.Checks.{
  transition_schema, max_transition_attempt_count, max_transition_identity_length, bounded_epoch,
  has_line_break,
}

-- `_bounded_identity`
unfoldable pub bounded_identity : String → String
unfolding has_line_break
bounded_identity s =
    if s == "" || (ltb max_transition_identity_length (count s) || has_line_break s)
    then "invalid"
    else s

-- _PROCESS_IDENTITY_REDACTION_MARKERS
abbrev pub redaction_markers : List String
redaction_markers =
    "redacted-process-identity" ∷ "redacted-process-identity-2" ∷ "redacted-process-identity-3" ∷ []

-- `value in {prior, current}`
abbrev pub is_owner_token : String → String → String → Bool
is_owner_token prior current s = s == prior || s == current

-- The loop over the markers; `none` is the AssertionError after it.
abbrev pub first_marker : String → String → List String → Option String
first_marker prior current [] = none
first_marker prior current (m ∷ ms) =
    if is_owner_token prior current m then first_marker prior current ms else some m

abbrev pub project : String → String → String → Option String
project prior current bounded =
    if is_owner_token prior current bounded
    then first_marker prior current redaction_markers
    else some bounded

abbrev is_dict : Value → Bool
is_dict (obj d) = true
is_dict _ = false

-- `attempt.get("status") == status`
abbrev pub has_status : String → Value → Bool
has_status s (obj d) = is_text s (get "status" d)
has_status s _ = false

abbrev pub count_status : String → List Value → ℕ
count_status s [] = 0
count_status s (v ∷ vs) = if has_status s v then suc (count_status s vs) else count_status s vs

-- The loop over the statuses, with the attempts that may still be counted.
unfoldable pub status_counts : List String → ℕ → List Value → Fields
status_counts [] remaining attempts = end
status_counts (s ∷ ss) remaining attempts =
    let n = min (count_status s attempts) remaining in
    field s (int (pos n)) (status_counts ss (remaining - n) attempts)

abbrev pub total_counts : Fields → ℕ
total_counts end = 0
total_counts (field k (int (pos n)) d) = n + total_counts d
total_counts (field k v d) = total_counts d

abbrev pub or_assertion : Option String → Result String
or_assertion none = err builtin_error
or_assertion (some s) = ok s

module _ ⦃py : Python⦄ where
  -- `_project_process_identity`
  unfoldable pub project_process_identity : Value → String → String → Option String
  unfolding bounded_identity
  project_process_identity v prior current = project prior current (bounded_identity (text v))

  abbrev pub transition_fields_of :
      Fields → Fields → String → String → String → Fields → String → String → ℕ → Fields
  transition_fields_of claim lease disposition reason state counts prior current now =
      field "private_schema" (str transition_schema) (
        field "disposition" (str disposition) (
          field "reason" (str reason) (
            field "operation_state" (str state) (
              field "attempt_count" (int (pos (total_counts counts))) (
                field "attempt_status_counts" (obj counts) (
                  field "claim_attempt" (int (pos (bounded_epoch (get "attempt" claim)))) (
                    field "prior_lease_epoch" (int (pos (bounded_epoch (get "lease_epoch" claim))))
                      (field "prior_process_instance_id" (str prior) (
                        field "current_lease_epoch"
                          (int (pos (bounded_epoch (get "lease_epoch" lease))))
                          (field "current_process_instance_id" (str current)
                            (field "recorded_at" (str (py.iso now)) end)))))))))))

  -- `_transition_record`; an attempt that is no dict has no `get`, which is an AttributeError.
  unfoldable pub transition_record :
      Fields → Fields → ℕ → String → String → String → List Value → Result Fields
  unfolding status_counts project_process_identity bounded_epoch
  transition_record claim lease now disposition reason state attempts =
      let prior_token = text (get "owner_token" claim) in
      let current_token = text (get "owner_token" lease) in
      if all is_dict attempts
      then (do
        prior ←
            or_assertion
              (project_process_identity (get "process_instance_id" claim) prior_token current_token)
        current ←
            or_assertion
              (project_process_identity (get "process_instance_id" lease) prior_token current_token)
        ok (
            transition_fields_of claim lease disposition reason state
              (status_counts attempt_statuses max_transition_attempt_count attempts) prior current
              now))
      else err builtin_error
