-- ===== src/Permits/Checks.antt =====
-- runtime_ops/permit.py: `require_fresh`.
use rexec_op.Base.{ℕ, Bool, true, not, ◌&&◌, Option, none, some, ◌==◌, leb, Result, ok, ◌>>=◌, ◌>>◌}
use rexec_op.Base.Int.{ℤ}
use rexec_op.Json.{Value, int, str, obj, Fields, end, field, get, same, is_text}
use rexec_op.Json.Python.{Python, text}
use rexec_op.Json.Coerce.{required}
use rexec_op.Operation.Model.{Operation}
use rexec_op.Lease.{LeaseDir, validate}
use rexec_op.Authority.{GovEngine, compare_digest, aware}
use rexec_op.Authority.Governed.{ClaimedGovernedAttempt, governed_attempt_binding}
use rexec_op.Permits.{
  execution_permit_schema, refused, require, asserted, PermitRequest, governance_binding_mode,
  claim_of, require_governed_actual_operation_mode, sha256_of, record_digest, lease_epoch,
  governance_decision,
}

-- Each entry of the first dict is in the second one: no drift.
unfoldable pub all_same : Fields → Fields → Bool
all_same end permit = true
all_same (field key value expected) permit = same (get key permit) value && all_same expected permit

-- The instants at which `require_fresh` reads the clock, one after the other.
pub record Readings : Type 0 where
  pub permit_checked : ℕ
  pub lease_checked : ℕ
  pub grant_checked : ℕ

module _ (g : GovEngine) ⦃py : Python⦄ where
  -- The dict `expected` of `require_fresh`.
  abbrev pub expected_binding : PermitRequest g → ℤ → Fields
  expected_binding r epoch = field "operation_id" (str r.operation.id) (
      field "attempt_id" (str r.attempt_id) (
        field "operation_revision" (int r.operation.operation_revision) (
          field "plan_digest" (str (sha256_of g r.plan)) (
            field "execution_spec_digest" (str (text (get "digest" r.execution_spec))) (
              field "govengine_decision_type" (str r.operation.govengine_decision_type) (
                field "governance_admission_digest" (str r.governance_admission_digest) (
                  field "target_binding_digest" (str (sha256_of g (obj r.target_binding))) (
                    field "mode" (str r.operation.mode) (
                      field "lease_epoch" (int epoch) (
                        field "process_instance_id" (str (text (get "process_instance_id" r.lease)))
                          end))))))))))

  abbrev pub dict_or_refused : Value → Result Fields
  dict_or_refused (obj d) = ok d
  dict_or_refused _ = refused "execution_permit_invalid: missing governance decision binding"

  abbrev pub check_governed :
      Operation → Option (ClaimedGovernedAttempt g) → Fields → Result (Unit {0})
  check_governed o none permit = ok tt
  check_governed o (some c) permit = do
    require_governed_actual_operation_mode g (text (get "mode" permit)) o.mode c
        "execution_permit_stale: governed actual operation mode drift"
    require (same (get "governed_admission_binding" permit) (obj (governed_attempt_binding g c)))
        "execution_permit_stale: governed admission drift"

  -- The part of `require_fresh` under `if claim is not None`.
  abbrev pub check_claim :
      Operation
      → Option (ClaimedGovernedAttempt g)
      → ℕ
      → Option (g.Decision × g.Signed)
      → Fields
      → Result (Unit {0})
  check_claim o governed now none permit = ok tt
  check_claim o governed now (some (decision, signed)) permit = do
    grant ← asserted (g.authorization decision)
    decided ← aware (py.from_iso (g.expires_at grant))
    require (not (leb decided now)) "execution_permit_stale: governance decision expired"
    binding ← dict_or_refused (get "governance_decision" permit)
    require (all_same (governance_decision g decision grant signed) binding)
        "execution_permit_stale: governance drift: "
    check_governed o governed permit

  -- The checks of `require_fresh` that precede those of the lease and the claim.
  unfoldable pub require_bound : Fields → PermitRequest g → ℕ → Result (Unit {0})
  require_bound permit r now = do
    require (is_text execution_permit_schema (get "schema" permit))
        "execution_permit_invalid: unsupported schema"
    equal ← compare_digest (text (get "permit_digest" permit)) (record_digest g permit)
    require equal "execution_permit_invalid: digest mismatch"
    expires_at ← required "expires_at" permit
    expires ← aware (py.from_iso expires_at)
    require (not (leb expires now)) "execution_permit_stale: permit expired"
    epoch ← lease_epoch g r.lease
    require (all_same (expected_binding r epoch) permit) "execution_permit_stale: binding drift: "

  -- Those that follow them.
  unfoldable pub require_governed :
      Fields → PermitRequest g → Readings → LeaseDir → Result (Unit {0})
  require_governed permit r readings dir = do
    validate r.lease readings.lease_checked dir
    mode ← governance_binding_mode g r.governance_claim r.governed_claim
    require (is_text mode (get "governance_binding_mode" permit))
        "execution_permit_stale: governance binding mode drift"
    check_claim r.operation r.governed_claim readings.grant_checked
        (claim_of g r.governance_claim r.governed_claim) permit
    require (text (get "target" r.target_binding) == r.operation.target)
        "execution_permit_stale: target binding drift"

  -- `require_fresh`
  unfoldable pub require_fresh : Fields → PermitRequest g → Readings → LeaseDir → Result (Unit {0})
  require_fresh permit r readings dir = do
    require_bound permit r readings.permit_checked
    require_governed permit r readings dir
