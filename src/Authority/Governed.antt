-- ===== src/Authority/Governed.antt =====
-- adapters/govengine_port/runtime_authority.py: the records of a governed attempt that a permit
-- binds.
use rexec_op.Base.{String}
use rexec_op.Json.{str, Fields, end, field}
use rexec_op.Authority.{GovEngine, RuntimeAttemptGovernanceFacts}

module _ (g : GovEngine) where
  pub record ClaimedGovernedAttempt : Type 0 where
    pub governance_request : g.GovernanceRequest
    pub governed_admission : g.Admission
    pub decision : g.Decision
    pub signed_artifact : g.Signed
    pub typed_execution_request : g.TypedRequest
    pub expected_actual_operation_mode : String
    pub facts : RuntimeAttemptGovernanceFacts

  pub record SignedGovernedAttemptBundle : Type 0 where
    pub governance_request : g.GovernanceRequest
    pub governed_admission : g.Admission
    pub decision : g.Decision
    pub signed_artifact : g.Signed

  abbrev pub governed_attempt_binding : ClaimedGovernedAttempt → Fields
  governed_attempt_binding c = field "schema" (str "rexecop.governed_admission_binding.v0.1") (
      field "actual_operation_mode" (str (g.actual_operation_mode c.governed_admission)) (
        field "composite_admission_digest" (str (g.admission_digest c.governed_admission)) (
          field "governance_request_digest" (str (g.governance_request_digest c.governed_admission))
            (field "governance_decision_digest"
              (str (g.governance_decision_digest c.governed_admission))
              (field "approval_attestation_digest"
                (str (g.approval_attestation_digest c.governed_admission))
                (field "decision_expires_at" (str (g.decision_expires_at c.governed_admission))
                  end))))))
