-- ===== src/Examples/Permissions.antt =====
-- Execution permits that are issued, saved and accepted.
use rexec_op.Base.{
  ◌≤◌, String, ◌≡◌, true, refl, [], ◌∷◌, none, some, ok, err, arith, validation_error,
}
use rexec_op.Base.Int.{pos}
use rexec_op.Json.{int, same, str, obj, Fields, end, field, put, readable}
use rexec_op.Json.Python.{parse_time}
use rexec_op.Attempts.{canonical_digest}
use rexec_op.Operation.Model.{Operation}
use rexec_op.Lease.{
  LeaseDir, EpochFile, validate, new_lease, read_unlocked, require_owner, is_stale,
}
use rexec_op.Storage.Permits.{
  PermitFiles, permit_path, save_execution_permit, load_execution_permit_for_attempt,
}
use rexec_op.Storage.Permits.Kept.{after_permits, permit_saved_once}
use rexec_op.Permits.{
  PermitRequest, permit_with, governance_decision, record_digest, new_permit, issue,
}
use rexec_op.Permits.Checks.{Readings, all_same, require_bound, require_governed, require_fresh}
use rexec_op.Permits.Bound.{AreOneAttempt, fresh_for_one}
use rexec_op.Permits.Fresh.{expiry_of, require_fresh-issue}
use rexec_op.Examples.Authorities.{gov, claimed}
use rexec_op.Examples.Toy.{toy, toy_iso, toy_from_iso, read_row, row}

abbrev operation : Operation
operation = record {
  id = "op1";
  profile = "lab";
  environment = "lab";
  intent = "restart";
  target = "web";
  mode = "apply";
  requested_by = "alice";
  state = "running";
  created_at = "T";
  updated_at = "T";
  correlation_id = "";
  current_step_id = "";
  govengine_decision_type = "allow";
  govengine_decision_summary = "";
  sclite_refs = end;
  metadata = end;
  history = [];
  evidence_event_ids = [];
  operation_revision = pos 2;
}

abbrev lease : Fields
lease = new_lease "w1" "p1" (pos 3) "token" 0 20 0

abbrev lease_dir : LeaseDir
lease_dir = record { lease = readable (obj lease); epoch = EpochFile.number (pos 3) }

abbrev request : PermitRequest gov
request = record {
  operation = operation;
  plan = obj end;
  attempt_id = "attempt-1";
  execution_spec = field "digest" (str "e") end;
  target_binding = field "target" (str "web") end;
  lease = lease;
  governance_admission_digest = "admission";
  governance_claim = some (claimed true);
  governed_claim = none;
}

abbrev no_files : PermitFiles
no_files = record { steps = λ o n. none; attempts = λ o n. none }

abbrev bound : Fields
bound =
    permit_with gov request "s1" "signed_decision" (pos 3) "TT" "TTTTTTTT"
      (field "governance_decision" (obj (governance_decision gov true true true)) end)

abbrev permit : Fields
permit = put "permit_digest" (str (record_digest gov bound)) bound

abbrev files : PermitFiles
files = (issue gov request "s1" 1 10 no_files).1

issued : issue gov request "s1" 1 10 no_files ≡ (ok permit, files)
unfolding issue new_permit save_execution_permit permit_path canonical_digest toy_iso row
    toy_from_iso read_row toy
issued = refl

abbrev readings : Readings
readings = record { permit_checked = 5; lease_checked = 5; grant_checked = 6 }

owned : validate lease 5 lease_dir ≡ ok tt
unfolding validate require_owner read_unlocked is_stale parse_time toy_iso row toy_from_iso read_row
    toy
owned = refl

expires_then : expiry_of gov permit ≡ ok 7
unfolding toy_from_iso read_row toy
expires_then = refl

accepted : require_fresh gov permit request readings lease_dir ≡ ok tt
accepted =
    (require_fresh-issue gov request "s1" 1 10 no_files readings lease_dir 7 issued expires_then
      (omega arith) (omega arith) owned refl).1

require_fresh-issue_example :
    (7 ≤ 11) × (require_fresh gov permit request readings lease_dir ≡ ok tt)
require_fresh-issue_example =
    require_fresh-issue gov request "s1" 1 10 no_files readings lease_dir 7 issued expires_then
      (omega arith) (omega arith) owned refl

-- The same request at a later state, with more in its execution spec.
abbrev later_request : PermitRequest gov
later_request = record request {
  operation = record operation { state = "validating"; requested_by = "bob" };
  execution_spec = field "digest" (str "e") (field "timeout" (int (pos 5)) end);
}

abbrev later_readings : Readings
later_readings = record { permit_checked = 6; lease_checked = 6; grant_checked = 6 }

later_owned : validate lease 6 lease_dir ≡ ok tt
unfolding validate require_owner read_unlocked is_stale parse_time toy_iso row toy_from_iso read_row
    toy
later_owned = refl

later_accepted : require_fresh gov permit later_request later_readings lease_dir ≡ ok tt
unfolding require_fresh require_bound require_governed all_same same canonical_digest toy_iso row
    toy_from_iso read_row toy
later_accepted = rw later_owned refl

fresh_for_one_example : AreOneAttempt gov request later_request
fresh_for_one_example =
    fresh_for_one gov permit request later_request readings later_readings lease_dir lease_dir
      accepted later_accepted

abbrev other_permit : String → Fields
other_permit attempt =
    field "operation_id" (str "op1")
      (field "step_id" (str "s1") (field "attempt_id" (str attempt) end))

first_saved : (save_execution_permit permit no_files).0 ≡ ok ("op1", "attempt-1")
unfolding save_execution_permit permit_path
first_saved = refl

again_path : permit_path (other_permit "attempt-1") ≡ ok ("op1", "s1", "attempt-1")
unfolding permit_path
again_path = refl

abbrev later_files : PermitFiles
later_files =
    after_permits (other_permit "attempt-2" ∷ []) (save_execution_permit permit no_files).1

permit_saved_once_example :
    (load_execution_permit_for_attempt "op1" "attempt-1" later_files ≡ ok permit)
    × (save_execution_permit (other_permit "attempt-1") later_files
        ≡ (err (validation_error "runtime attempt permit already exists"), later_files))
permit_saved_once_example =
    permit_saved_once permit (other_permit "attempt-1") no_files (other_permit "attempt-2" ∷ [])
      first_saved again_path
