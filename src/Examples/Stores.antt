-- ===== src/Examples/Stores.antt =====
-- Operations in the two stores, and governance decisions.
use rexec_op.Base.{
  String, ◌≡◌, ◌≢◌, refl, inl, arith, List, [], ◌∷◌, none, ok, err, true, concurrency_conflict,
}
use rexec_op.Base.Int.{ℤ, pos}
use rexec_op.Json.{end, missing}
use rexec_op.Operation.Model.{Operation, as_dict, from_dict}
use rexec_op.Operation.Model.RoundTrip.{from_dict_round_trip}
use rexec_op.Storage.FileStore.{Files, save_operation}
use rexec_op.Storage.Revisions.{after_saves, stale_refused}
use rexec_op.Storage.Refinement.{
  Call, save_call, load_call, file_answers, memory_answers, stores_agree,
}
use rexec_op.Storage.Governance.{Claim, Directory, is_invalid, claim_governance_decision_once}
use rexec_op.Storage.Governance.Once.{after_claims, claimed_once}
use rexec_op.Examples.Toy.{toy}

abbrev operation : String → ℤ → Operation
operation id revision = record {
  id = id;
  profile = "lab";
  environment = "lab";
  intent = "check";
  target = "web";
  mode = "observe";
  requested_by = "alice";
  state = "created";
  created_at = "T";
  updated_at = "T";
  correlation_id = "";
  current_step_id = "";
  govengine_decision_type = "";
  govengine_decision_summary = "";
  sclite_refs = end;
  metadata = end;
  history = [];
  evidence_event_ids = [];
  operation_revision = revision;
}

from_dict_round_trip_example :
    from_dict (as_dict (operation "op1" (pos 3))) ≡ ok (operation "op1" (pos 3))
from_dict_round_trip_example = from_dict_round_trip (operation "op1" (pos 3)) refl

abbrev calls : List Call
calls =
    save_call (operation "op1" (pos 0))
    ∷ save_call (operation "op1" (pos 0))
    ∷ save_call (operation "op1" (pos 1))
    ∷ load_call "op1"
    ∷ load_call "op2"
    ∷ []

stores_agree_example : file_answers calls (λ id. missing) ≡ memory_answers calls (λ id. none)
stores_agree_example = stores_agree calls

abbrev no_files : Files
no_files = λ id. missing

first_save : (save_operation (operation "op1" (pos 0)) no_files).0 ≡ ok (operation "op1" (pos 1))
unfolding save_operation
first_save = refl

abbrev others : List Operation
others = operation "op2" (pos 0) ∷ operation "op1" (pos 1) ∷ []

abbrev later_files : Files
later_files = after_saves others (save_operation (operation "op1" (pos 0)) no_files).1

stale_refused_example :
    save_operation (operation "op1" (pos 0)) later_files
    ≡ (err (concurrency_conflict "concurrency_conflict: operation "), later_files)
stale_refused_example =
    stale_refused (operation "op1" (pos 0)) (operation "op1" (pos 0)) no_files others first_save
      refl (omega arith)

abbrev claim : String → Claim
claim nonce = record {
  decision_digest = "sha256:0123456789abcdef0123456789abcdef0123456789abcdef0123456789abcdef";
  nonce = nonce;
  attempt_id = "attempt-1";
  runtime_instance_id = "runtime-1";
}

abbrev empty_directory : Directory
empty_directory = record { decisions = λ k. none; nonces = λ k. none }

granted : (claim_governance_decision_once (claim "n1") empty_directory).0 ≡ ok true
unfolding claim_governance_decision_once is_invalid
granted = refl

abbrev later_directory : Directory
later_directory =
    after_claims (claim "n2" ∷ []) (claim_governance_decision_once (claim "n1") empty_directory).1

claimed_once_example :
    ((claim_governance_decision_once (claim "n3") later_directory).0 ≢ ok true)
    × ((claim_governance_decision_once (claim "n3") later_directory).1 ≡ later_directory)
claimed_once_example =
    claimed_once (claim "n1") (claim "n3") empty_directory (claim "n2" ∷ []) granted (inl refl)
