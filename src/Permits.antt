-- ===== src/Permits.antt =====
-- runtime_ops/permit.py: the permit of one runtime attempt. `ttl` and the instants are microseconds;
-- each reading of the clock is an argument.
pub mod Checks
pub mod Bound
pub mod Issued
pub mod Fresh
use Prim.Native.String
use rexec_op.Base.{
  ℕ, ◌+◌, String, Bool, true, false, not, ◌&&◌, Option, none, some, List, [], ◌∷◌, ◌==◌, leb, ltb,
  contains, if◌then◌else◌, Result, ok, err, builtin_error, validation_error, Action, ◌>>=◌, ◌>>◌,
  raise_if, commit,
}
use rexec_op.Base.Int.{ℤ}
use rexec_op.Json.{
  Value, int, str, arr, obj, nil, cons, Fields, end, field, get, put, pop, same, is_text,
}
use rexec_op.Json.Python.{Python, text, as_int}
use rexec_op.Json.Coerce.{required, int_or_raise}
use rexec_op.Attempts.{canonical_digest}
use rexec_op.Operation.Model.{Operation}
use rexec_op.Lease.{LeaseDir, validate}
use rexec_op.Storage.Permits.{PermitFiles, save_execution_permit}
use rexec_op.Authority.{GovEngine, ClaimedGovernanceDecision, compare_digest, aware}
use rexec_op.Authority.Governed.{ClaimedGovernedAttempt, governed_attempt_binding}

abbrev pub execution_permit_schema : String
execution_permit_schema = "rexecop.runtime_attempt_permit.v0.1"

-- The modes that need no signed decision.
abbrev pub unsigned_modes : List String
unsigned_modes = "observe" ∷ "dry_run" ∷ "emergency_readonly" ∷ []

abbrev pub refused : {A : Type 0} → String → Result A
refused message = err (validation_error message)

abbrev pub require : Bool → String → Result (Unit {0})
require true message = ok tt
require false message = refused message

-- `assert grant is not None`
abbrev pub asserted : {A : Type 0} → Option A → Result A
asserted none = err builtin_error
asserted (some a) = ok a

module _ (g : GovEngine) where
  -- What both `issue` and `require_fresh` are told.
  pub record PermitRequest : Type 0 where
    pub operation : Operation
    -- `plan.as_dict()`
    pub plan : Value
    pub attempt_id : String
    pub execution_spec : Fields
    pub target_binding : Fields
    pub lease : Fields
    pub governance_admission_digest : String
    pub governance_claim : Option (ClaimedGovernanceDecision g)
    pub governed_claim : Option (ClaimedGovernedAttempt g)

  -- `_governance_binding_mode`
  abbrev pub governance_binding_mode :
      Option (ClaimedGovernanceDecision g) → Option (ClaimedGovernedAttempt g) → Result String
  governance_binding_mode (some c) (some c') =
      refused "execution_permit_invalid: multiple governance claims"
  governance_binding_mode none (some c) = ok "governed_attempt"
  governance_binding_mode (some c) none = ok "signed_decision"
  governance_binding_mode none none = ok "legacy_read_only"

  -- `governed_claim or governance_claim`
  abbrev pub claim_of :
      Option (ClaimedGovernanceDecision g)
      → Option (ClaimedGovernedAttempt g)
      → Option (g.Decision × g.Signed)
  claim_of c (some c') = some (c'.decision, c'.signed_artifact)
  claim_of (some c) none = some (c.decision, c.signed_artifact)
  claim_of none none = none

  -- `_require_governed_actual_operation_mode`
  unfoldable pub require_governed_actual_operation_mode :
      String → String → ClaimedGovernedAttempt g → String → Result (Unit {0})
  require_governed_actual_operation_mode permit_mode operation_mode c message =
      require
        (permit_mode == operation_mode
          && (operation_mode == c.expected_actual_operation_mode
              && is_text c.expected_actual_operation_mode
                  (get "actual_operation_mode" (governed_attempt_binding g c))))
        message

  module _ ⦃py : Python⦄ where
    abbrev pub sha256_of : Value → String
    sha256_of v = String.◌++◌ "sha256:" (canonical_digest v)

    -- `record_digest`
    abbrev pub record_digest : Fields → String
    record_digest permit = sha256_of (obj (pop "permit_digest" permit))

    -- `int(lease.get("lease_epoch") or 0)`
    abbrev pub lease_epoch : Fields → Result ℤ
    lease_epoch lease = int_or_raise (as_int (get "lease_epoch" lease))

    abbrev pub authority : Fields
    authority =
        field "governance" (str "govengine")
          (field "runtime_binding" (str "rexecop") (field "truth" (str "sclite") end))

    abbrev pub non_claims : Value
    non_claims = arr (
        cons (str "This record does not evaluate policy or grant governance authority.")
          (cons (str "This record is a freshness binding, not a SCLite truth artifact.") nil))

    -- The record that `issue` starts from, with what is appended to it.
    abbrev pub permit_with : PermitRequest → String → String → ℤ → String → String → Fields → Fields
    permit_with r step_id mode epoch issued_at expires_at rest =
        field "schema" (str execution_permit_schema) (
          field "operation_id" (str r.operation.id) (
            field "operation_revision" (int r.operation.operation_revision) (
              field "step_id" (str step_id) (
                field "attempt_id" (str r.attempt_id) (
                  field "plan_digest" (str (sha256_of r.plan)) (
                    field "execution_spec_digest" (str (text (get "digest" r.execution_spec))) (
                      field "govengine_decision_type" (str r.operation.govengine_decision_type) (
                        field "governance_admission_digest" (str r.governance_admission_digest) (
                          field "governance_binding_mode" (str mode) (
                            field "target_binding" (obj r.target_binding) (
                              field "target_binding_digest" (str (sha256_of (obj r.target_binding)))
                                (field "mode" (str r.operation.mode) (
                                  field "lease_epoch" (int epoch) (
                                    field "process_instance_id"
                                      (str (text (get "process_instance_id" r.lease)))
                                      (field "issued_at" (str issued_at) (
                                        field "expires_at" (str expires_at) (
                                          field "authority" (obj authority)
                                            (field "non_claims" non_claims rest))))))))))))))))))

    abbrev pub permit_record : PermitRequest → String → String → ℤ → String → String → Fields
    permit_record r step_id mode epoch issued_at expires_at =
        permit_with r step_id mode epoch issued_at expires_at end

    -- What a permit says of the signed decision.
    abbrev pub governance_decision : g.Decision → g.Grant → g.Signed → Fields
    governance_decision decision grant signed =
        field "decision_digest" (str (g.decision_digest decision)) (
          field "authorization_id" (str (g.authorization_id grant)) (
            field "nonce_digest" (str (sha256_of (obj (field "nonce" (str (g.nonce grant)) end)))) (
              field "requested_scope_digest" (str (g.requested_scope_digest grant)) (
                field "capability_inventory_digest" (str (g.capability_inventory_digest grant)) (
                  field "inventory_epoch" (int (g.inventory_epoch grant)) (
                    field "policy_pack_digest" (str (g.policy_pack_digest grant)) (
                      field "policy_epoch" (int (g.policy_epoch grant)) (
                        field "signed_record_digest" (str (g.record_digest signed))
                          (field "decision_issuer_ref" (str (g.signer_id signed)) end)))))))))

    -- `min(decision_expiry, permit_expiry).isoformat()`
    abbrev pub earlier_of : g.Grant → String → ℕ → ℕ → String
    earlier_of grant permit_text decided permitted =
        if ltb permitted decided then py.same_iso permit_text else py.same_iso (g.expires_at grant)

    abbrev pub bind_governed :
        Operation → Option (ClaimedGovernedAttempt g) → Fields → Result Fields
    bind_governed o none permit = ok permit
    bind_governed o (some c) permit = do
      require_governed_actual_operation_mode o.mode o.mode c
          "execution_permit_invalid: governed actual operation mode drift"
      ok (put "governed_admission_binding" (obj (governed_attempt_binding g c)) permit)

    -- The part of `issue` under `if claim is None` and its else.
    abbrev pub bind_claim :
        Operation
        → Option (ClaimedGovernedAttempt g)
        → String
        → Option (g.Decision × g.Signed)
        → Fields
        → Result Fields
    bind_claim o governed permit_text none permit = do
      require (contains o.mode unsigned_modes) "signed_governance_decision_required_for_mutation"
      ok permit
    bind_claim o governed permit_text (some (decision, signed)) permit = do
      grant ← asserted (g.authorization decision)
      decided ← aware (py.from_iso (g.expires_at grant))
      permitted ← aware (py.from_iso permit_text)
      bind_governed o governed (
          put "governance_decision" (obj (governance_decision decision grant signed))
            (put "expires_at" (str (earlier_of grant permit_text decided permitted)) permit))

    -- The permit that `issue` makes, before it is saved.
    unfoldable pub new_permit : PermitRequest → String → ℕ → ℕ → Result Fields
    new_permit r step_id now ttl = do
      mode ← governance_binding_mode r.governance_claim r.governed_claim
      epoch ← lease_epoch r.lease
      raise_if (ltb py.max_instant (now + ttl)) builtin_error
      permit ←
          bind_claim r.operation r.governed_claim (py.iso (now + ttl))
            (claim_of r.governance_claim r.governed_claim)
            (permit_record r step_id mode epoch (py.iso now) (py.iso (now + ttl)))
      ok (put "permit_digest" (str (record_digest permit)) permit)

    abbrev pub save_new :
        Fields → Result (String × String) × PermitFiles → Result Fields × PermitFiles
    save_new permit (ok path, files) = (ok permit, files)
    save_new permit (err e, files) = (err e, files)

    -- `issue`
    unfoldable pub issue : PermitRequest → String → ℕ → ℕ → Action PermitFiles Fields
    issue r step_id now ttl files =
        commit (new_permit r step_id now ttl)
          (λ permit files'. save_new permit (save_execution_permit permit files')) files
