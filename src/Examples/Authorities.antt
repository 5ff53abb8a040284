-- ===== src/Examples/Authorities.antt =====
-- Decisions of GovEngine that are taken, and execution permits.
use rexec_op.Base.{Option, String, ◌≡◌, ◌≢◌, refl, Bool, true, false, none, some, [], Result, ok}
use rexec_op.Base.Int.{pos}
use rexec_op.Json.{str, obj, end, field, same}
use rexec_op.Storage.Governance.{Directory, is_invalid, claim_governance_decision_once}
use rexec_op.Authority.{
  CapabilityDescriptor, GovEngine, RuntimeAttemptGovernanceFacts, facts_dict, drift_from,
  require_bindings, checked_decision, ClaimedGovernanceDecision, claim_of, authorize_and_claim,
}
use rexec_op.Authority.Consumed.{IsGranted, nonce_of, authorized_binds, authority_spent}
use rexec_op.Authority.Governed.{ClaimedGovernedAttempt, SignedGovernedAttemptBundle}
use rexec_op.Authority.Attempt.{
  Lookup, answered, required_governed_admission_version, governed_admission_surface,
  require_governance_request_bindings, require_mode, require_current, authorize_and_claim_attempt,
}
use rexec_op.Authority.Claimed.{IsClaimOf, IsCurrent, attempt_authorized}
use rexec_op.Examples.Toy.{toy, toy_from_iso, read_row}

abbrev facts : RuntimeAttemptGovernanceFacts
facts = record {
  operation_id = "op1";
  step_id = "s1";
  attempt_id = "attempt-1";
  runtime_instance_id = "runtime-1";
  lease_id = "lease-1";
  lease_epoch = pos 3;
  fencing_token_digest = "f";
  execution_spec_digest = "e";
  payload_digest = "p";
  requested_scope_digest = "r";
  capability_inventory_digest = "c";
  inventory_epoch = pos 1;
}

abbrev digest_of : Bool → String
digest_of true = "sha256:0123456789abcdef0123456789abcdef0123456789abcdef0123456789abcdef"
digest_of false = "sha256:fedcba9876543210fedcba9876543210fedcba9876543210fedcba9876543210"

abbrev nonce : Bool → String
nonce true = "n1"
nonce false = "n2"

abbrev builtin_descriptor : CapabilityDescriptor
builtin_descriptor = record {
  certification_tier = "builtin";
  identity_class = "";
  live_backend_posture = "";
  egress_class = "";
  network_boundary = end;
}

-- Two decisions, each with its own grant.
abbrev pub gov : GovEngine
gov = record {
  Decision = Bool;
  Grant = Bool;
  Signed = Bool;
  decision_digest = digest_of;
  allowed = λ d. true;
  authorization = λ d. some d;
  nonce = nonce;
  expires_at = λ grant. "TTTTTTTT";
  authorization_id = λ grant. "a1";
  requested_scope_digest = λ grant. "r";
  capability_inventory_digest = λ grant. "c";
  inventory_epoch = λ grant. pos 1;
  policy_pack_digest = λ grant. "pack";
  policy_epoch = λ grant. pos 1;
  grant_dict = λ grant. facts_dict facts;
  record_digest = λ signed. "record";
  signer_id = λ signed. "signer";
  GovernanceRequest = Unit {0};
  TypedRequest = Unit {0};
  RawRequest = String;
  validate_typed = λ raw. some tt;
  Admission = Unit {0};
  Approval = Unit {0};
  request_facts = λ r. facts;
  execution_facts = λ r.
      field "metadata" (obj (field "actual_operation_mode" (str "apply") end))
        (field "runtime_attempt" (obj (facts_dict facts)) end);
  approval_attestation = λ r. some tt;
  approval_id = λ a. "approval-1";
  revocation_ref = λ a. "ref-1";
  descriptor = λ t. builtin_descriptor;
  allowed_network_egress = λ t. [];
  schema_version = λ a. "v0.1";
  admission_allowed = λ a. true;
  surface_version = some "v0.1";
  surface_v02_version = none;
  validated = λ version a t r d now. some a;
  actual_operation_mode = λ a. "apply";
  admission_digest = λ a. "admission";
  governance_request_digest = λ a. "request";
  governance_decision_digest = λ a. "decision";
  approval_attestation_digest = λ a. "approval";
  decision_expires_at = λ a. "TTTTTTTT";
  trusted = λ d signed. some d;
}

abbrev empty_directory : Directory
empty_directory = record { decisions = λ k. none; nonces = λ k. none }

abbrev pub claimed : Bool → ClaimedGovernanceDecision gov
claimed d = record { decision = d; signed_artifact = d; facts = facts }

abbrev taken : Directory
taken = (authorize_and_claim gov facts 2 (ok (true, true)) empty_directory).1

first_authorized :
    authorize_and_claim gov facts 2 (ok (true, true)) empty_directory ≡ (ok (claimed true), taken)
unfolding authorize_and_claim checked_decision require_bindings drift_from facts_dict
    claim_governance_decision_once is_invalid toy_from_iso read_row same toy
first_authorized = refl

second_authorized :
    authorize_and_claim gov facts 3 (ok (false, false)) taken
    ≡ (ok (claimed false), (authorize_and_claim gov facts 3 (ok (false, false)) taken).1)
unfolding authorize_and_claim checked_decision require_bindings drift_from facts_dict
    claim_governance_decision_once is_invalid toy_from_iso read_row same toy
second_authorized = refl

authorized_binds_example :
    (offered : Bool) × (grant : Bool) × (◌≡◌ {A = Result (Bool × Bool)}
      (ok (true, true))
      (ok (offered, true)))
    × (facts ≡ facts)
    × IsGranted gov facts 2 offered true true grant
    × (claim_governance_decision_once (claim_of gov true grant facts) empty_directory
        ≡ (ok true, taken))
authorized_binds_example =
    authorized_binds gov facts 2 (ok (true, true)) empty_directory first_authorized

authority_spent_example :
    (digest_of false ≢ digest_of true) × (nonce_of gov false ≢ nonce_of gov true)
authority_spent_example =
    authority_spent gov facts facts 2 3 (ok (true, true)) (ok (false, false)) empty_directory []
      first_authorized second_authorized

abbrev attempt : ClaimedGovernedAttempt gov
attempt = record {
  governance_request = tt;
  governed_admission = tt;
  decision = true;
  signed_artifact = true;
  typed_execution_request = tt;
  expected_actual_operation_mode = "apply";
  facts = facts;
}

abbrev none_revoked : String → String → String → Lookup
none_revoked id digest ref = answered false

abbrev bundle : SignedGovernedAttemptBundle gov
bundle = record {
  governance_request = tt;
  governed_admission = tt;
  decision = true;
  signed_artifact = true;
}

abbrev authorize :
    RuntimeAttemptGovernanceFacts → Unit {0} → String → Result (SignedGovernedAttemptBundle gov)
authorize f typed mode = ok bundle

abbrev attempt_taken : Directory
attempt_taken =
    (authorize_and_claim_attempt gov none_revoked authorize facts "raw" "apply" 2 empty_directory).1

attempt_claimed :
    authorize_and_claim_attempt gov none_revoked authorize facts "raw" "apply" 2 empty_directory
    ≡ (ok attempt, attempt_taken)
unfolding authorize_and_claim_attempt require_current governed_admission_surface
    required_governed_admission_version require_mode require_governance_request_bindings
    require_bindings drift_from facts_dict claim_governance_decision_once is_invalid same toy
attempt_claimed = refl

attempt_authorized_example :
    (typed : Unit {0}) × (answered_bundle : SignedGovernedAttemptBundle gov) × (grant : Bool) × (◌≡◌
      {A = Option (Unit {0})}
      (some tt)
      (some typed))
    × (authorize facts typed "apply" ≡ ok answered_bundle)
    × IsClaimOf gov none_revoked facts typed "apply" answered_bundle attempt
    × IsCurrent gov none_revoked attempt 2
    × (◌≡◌ {A = Option Bool} (some true) (some grant))
    × (claim_governance_decision_once (claim_of gov true grant facts) empty_directory
        ≡ (ok true, attempt_taken))
attempt_authorized_example =
    attempt_authorized gov none_revoked authorize facts "raw" "apply" 2 empty_directory
      attempt_claimed
