-- ===== src/Authority.antt =====
-- adapters/govengine_port/runtime_authority.py: how the runtime takes a signed decision of GovEngine
-- for one attempt. The records of the package govengine are the interface `GovEngine`.
pub mod Consumed
pub mod Governed
pub mod Attempt
pub mod Current
pub mod Claimed
use rexec_op.Base.{
  ℕ, String, Bool, true, false, not, ◌&&◌, ◌||◌, Option, none, some, List, [], ◌∷◌, ◌==◌, leb,
  if◌then◌else◌, Result, ok, err, builtin_error, validation_error, Error, Action, ◌>>=◌, ◌>>◌,
  raise_if, commit,
}
use rexec_op.Base.Int.{ℤ}
use rexec_op.Json.{Value, null, bool, int, str, arr, obj, Fields, end, field, get, same}
use rexec_op.Json.Python.{Python, is_ascii}
use rexec_op.Storage.Governance.{Claim, Directory, claim_governance_decision_once}

pub record RuntimeAttemptGovernanceFacts : Type 0 where
  pub operation_id : String
  pub step_id : String
  pub attempt_id : String
  pub runtime_instance_id : String
  pub lease_id : String
  pub lease_epoch : ℤ
  pub fencing_token_digest : String
  pub execution_spec_digest : String
  pub payload_digest : String
  pub requested_scope_digest : String
  pub capability_inventory_digest : String
  pub inventory_epoch : ℤ

-- What the runtime reads of the capability descriptor of a typed request.
pub record CapabilityDescriptor : Type 0 where
  pub certification_tier : String
  pub identity_class : String
  pub live_backend_posture : String
  pub egress_class : String
  pub network_boundary : Fields

-- What the runtime reads of govengine's records.
pub record GovEngine : Type 1 where
  pub Decision : Type 0
  pub Grant : Type 0
  pub Signed : Type 0
  pub decision_digest : Decision → String
  pub allowed : Decision → Bool
  pub authorization : Decision → Option Grant
  pub nonce : Grant → String
  pub expires_at : Grant → String
  pub authorization_id : Grant → String
  pub requested_scope_digest : Grant → String
  pub capability_inventory_digest : Grant → String
  pub inventory_epoch : Grant → ℤ
  pub policy_pack_digest : Grant → String
  pub policy_epoch : Grant → ℤ
  pub grant_dict : Grant → Fields
  pub record_digest : Signed → String
  pub signer_id : Signed → String
  pub GovernanceRequest : Type 0
  pub TypedRequest : Type 0
  -- what `validate_typed_execution_governance_request` takes; `none` is its GovApiError
  pub RawRequest : Type 0
  pub validate_typed : RawRequest → Option TypedRequest
  pub Admission : Type 0
  pub Approval : Type 0
  -- the twelve attributes of a governance request that name the attempt
  pub request_facts : GovernanceRequest → RuntimeAttemptGovernanceFacts
  pub execution_facts : GovernanceRequest → Fields
  pub approval_attestation : GovernanceRequest → Option Approval
  pub approval_id : Approval → String
  pub revocation_ref : Approval → String
  pub descriptor : TypedRequest → CapabilityDescriptor
  pub allowed_network_egress : TypedRequest → List String
  pub schema_version : Admission → String
  pub admission_allowed : Admission → Bool
  -- the versions that the installed package names; `none` is ImportError or AttributeError
  pub surface_version : Option String
  pub surface_v02_version : Option String
  -- the validator of the version, at an instant; `none` is its GovApiError
  pub validated :
      String → Admission → TypedRequest → GovernanceRequest → Decision → ℕ → Option Admission
  pub actual_operation_mode : Admission → String
  pub admission_digest : Admission → String
  pub governance_request_digest : Admission → String
  pub governance_decision_digest : Admission → String
  pub approval_attestation_digest : Admission → String
  pub decision_expires_at : Admission → String
  -- `require_trusted_governance_decision` with the host's verifier and policies; `none` is its
  -- GovApiError
  pub trusted : Decision → Signed → Option Decision

-- `RuntimeAttemptGovernanceFacts.as_dict`
unfoldable pub facts_dict : RuntimeAttemptGovernanceFacts → Fields
facts_dict f = field "operation_id" (str f.operation_id) (
    field "step_id" (str f.step_id) (
      field "attempt_id" (str f.attempt_id) (
        field "runtime_instance_id" (str f.runtime_instance_id) (
          field "lease_id" (str f.lease_id) (
            field "lease_epoch" (int f.lease_epoch) (
              field "fencing_token_digest" (str f.fencing_token_digest) (
                field "execution_spec_digest" (str f.execution_spec_digest) (
                  field "payload_digest" (str f.payload_digest) (
                    field "requested_scope_digest" (str f.requested_scope_digest) (
                      field "capability_inventory_digest" (str f.capability_inventory_digest)
                        (field "inventory_epoch" (int f.inventory_epoch) end)))))))))))

-- `hmac.compare_digest(a, b)` on texts: TypeError unless both are ASCII.
abbrev pub compare_digest : String → String → Result Bool
compare_digest a b = if is_ascii a && is_ascii b then ok (a == b) else err builtin_error

-- `_binding_equal`
abbrev pub binding_equal : Value → Value → Result Bool
binding_equal (str a) (str b) = compare_digest a b
binding_equal actual expected = ok (same actual expected)

abbrev add_drift : String → Bool → List String → List String
add_drift key true rest = rest
add_drift key false rest = key ∷ rest

-- The keys of the expected dict whose values differ in the other one.
unfoldable pub drift_from : Fields → Fields → Result (List String)
drift_from actual end = ok []
drift_from actual (field key value expected) = do
  equal ← binding_equal (get key actual) value
  rest ← drift_from actual expected
  ok (add_drift key equal rest)

abbrev pub refused : String → Error
refused reason_code = validation_error reason_code

abbrev pub raise_drift : String → List String → Result (Unit {0})
raise_drift reason_code [] = ok tt
raise_drift reason_code (key ∷ keys) = err (refused reason_code)

-- `TrustedGovernanceDecisionConsumer._require_bindings`
unfoldable pub require_bindings : Fields → RuntimeAttemptGovernanceFacts → Result (Unit {0})
unfolding facts_dict drift_from
require_bindings grant facts = do
  drift ← drift_from grant (facts_dict facts)
  raise_drift "governance_decision_binding_drift" drift

abbrev pub or_refused {ℓ} : {A : Type ℓ} → String → Option A → Result A
or_refused reason_code none = err (refused reason_code)
or_refused reason_code (some a) = ok a

-- A text read by `datetime.fromisoformat` to be compared with an instant that has a zone.
abbrev pub aware : Option (Bool × ℕ) → Result ℕ
aware none = err builtin_error
aware (some (false, t)) = err builtin_error
aware (some (true, t)) = ok t

module _ (g : GovEngine) where
  pub record ClaimedGovernanceDecision : Type 0 where
    pub decision : g.Decision
    pub signed_artifact : g.Signed
    pub facts : RuntimeAttemptGovernanceFacts

  abbrev pub granted : g.Decision → Result g.Grant
  granted decision =
      if not (g.allowed decision)
      then err (refused "governance_decision_denied")
      else or_refused "governance_decision_denied" (g.authorization decision)

  abbrev pub claim_of : g.Decision → g.Grant → RuntimeAttemptGovernanceFacts → Claim
  claim_of decision grant facts = record {
    decision_digest = g.decision_digest decision;
    nonce = g.nonce grant;
    attempt_id = facts.attempt_id;
    runtime_instance_id = facts.runtime_instance_id;
  }

  module _ ⦃py : Python⦄ where
    abbrev pub expiry : g.Grant → Result ℕ
    expiry grant = aware (py.from_iso (g.expires_at grant))

    -- The checks of `authorize_and_claim` before it claims the decision.
    unfoldable pub checked_decision :
        RuntimeAttemptGovernanceFacts
        → ℕ
        → g.Decision × g.Signed
        → Result (g.Decision × g.Grant × g.Signed)
    checked_decision facts now (offered, signed) = do
      decision ← or_refused "governance_decision_untrusted" (g.trusted offered signed)
      grant ← granted decision
      require_bindings (g.grant_dict grant) facts
      expires ← expiry grant
      raise_if (leb expires now) (refused "governance_decision_expired")
      ok (decision, grant, signed)

    abbrev pub claimed_or_refused :
        g.Decision
        → g.Signed
        → RuntimeAttemptGovernanceFacts
        → Bool
        → Result ClaimedGovernanceDecision
    claimed_or_refused decision signed facts true =
        ok (record { decision = decision; signed_artifact = signed; facts = facts })
    claimed_or_refused decision signed facts false = err (refused "governance_decision_reused")

    abbrev pub after_claim :
        {A : Type 0} → Result Bool × Directory → (Bool → Result A) → Result A × Directory
    after_claim (ok claimed, dir) next = (next claimed, dir)
    after_claim (err e, dir) next = (err e, dir)

    -- The claim of a decision that was checked.
    abbrev pub claim_checked :
        RuntimeAttemptGovernanceFacts
        → g.Decision × g.Grant × g.Signed
        → Action Directory ClaimedGovernanceDecision
    claim_checked facts (decision, grant, signed) dir =
        after_claim (claim_governance_decision_once (claim_of decision grant facts) dir)
          (claimed_or_refused decision signed facts)

    -- `TrustedGovernanceDecisionConsumer.authorize_and_claim`, with what the host's authority
    -- answered for the facts.
    unfoldable pub authorize_and_claim :
        RuntimeAttemptGovernanceFacts
        → ℕ
        → Result (g.Decision × g.Signed)
        → Action Directory ClaimedGovernanceDecision
    unfolding checked_decision
    authorize_and_claim facts now answer =
        commit (answer >>= checked_decision facts now) (claim_checked facts)
