-- ===== src/Authority/Attempt.antt =====
-- adapters/govengine_port/runtime_authority.py: how the runtime takes one governed attempt.
use rexec_op.Base.{
  ℕ, String, Bool, true, false, not, ◌&&◌, ◌||◌, Option, none, some, List, [], ◌∷◌, ◌++◌, ◌==◌,
  contains, if◌then◌else◌, Result, ok, err, builtin_error, Action, ◌>>=◌, ◌>>◌, raise_if, commit,
}
use rexec_op.Json.{Value, obj, Fields, get, is_text}
use rexec_op.Json.Python.{Python}
use rexec_op.Storage.Governance.{Directory, claim_governance_decision_once}
use rexec_op.Authority.{
  RuntimeAttemptGovernanceFacts, CapabilityDescriptor, GovEngine, facts_dict, drift_from,
  raise_drift, refused, or_refused, require_bindings, claim_of, after_claim,
}
use rexec_op.Authority.Governed.{ClaimedGovernedAttempt, SignedGovernedAttemptBundle}

-- What the host's lookup of a revoked approval did: it raised, it returned no bool, or it answered.
pub data Lookup : Type 0 where
  raised invalid : Lookup
  answered : Bool → Lookup

abbrev pub require_unless : Bool → String → Result (Unit {0})
require_unless bad reason_code = raise_if bad (refused reason_code)

-- `assert grant is not None`, and a GovApiError that is not caught: an exception of no class of
-- errors.py
abbrev pub asserted : {A : Type 0} → Option A → Result A
asserted none = err builtin_error
asserted (some a) = ok a

abbrev is_sole : String → List String → Bool
is_sole s (t ∷ []) = t == s
is_sole s _ = false

-- The condition on a plugin's posture.
unfoldable pub posture_invalid : CapabilityDescriptor → List String → Bool
posture_invalid d egress =
    not (d.identity_class == "plugin_declared")
    || not (is_text d.egress_class (get "egress" d.network_boundary))
    || not (
        (d.live_backend_posture == "fixture_only" && d.egress_class == "no_network")
        || (d.live_backend_posture == "live_backend" && d.egress_class == "local_subprocess"))
    || not (is_sole d.egress_class egress)

-- `_required_governed_admission_version`
unfoldable pub required_governed_admission_version :
    CapabilityDescriptor → List String → Result String
required_governed_admission_version d egress =
    if not (d.certification_tier == "plugin")
    then ok "v0.1"
    else if posture_invalid d egress
    then err (refused "governed_attempt_plugin_posture_invalid")
    else ok "v0.2"

abbrev pub dict_or_drift : Value → String → Result Fields
dict_or_drift (obj d) reason_code = ok d
dict_or_drift _ reason_code = err (refused reason_code)

-- The drift of `execution_facts["runtime_attempt"]`.
abbrev pub runtime_attempt_drift : Value → Fields → Result (List String)
runtime_attempt_drift (obj d) expected = drift_from d expected
runtime_attempt_drift _ expected = ok ("execution_facts.runtime_attempt" ∷ [])

abbrev pub require_unrevoked : Lookup → Result (Unit {0})
require_unrevoked raised = err (refused "governed_attempt_approval_revocation_lookup_failed")
require_unrevoked invalid = err (refused "governed_attempt_approval_revocation_lookup_invalid")
require_unrevoked (answered revoked) = require_unless revoked "governed_attempt_approval_revoked"

module _ (g : GovEngine) where
  abbrev pub v02_surface : Result String
  v02_surface = do
    later ← or_refused "governed_attempt_v02_surface_unavailable" g.surface_v02_version
    require_unless (not (later == "v0.2")) "governed_attempt_v02_surface_incompatible"
    ok later

  -- `_governed_admission_surface` of a typed request: the version; the validator is `g.validated` of
  -- it.
  unfoldable pub governed_admission_surface : g.TypedRequest → Result String
  governed_admission_surface typed = do
    required ←
        required_governed_admission_version (g.descriptor typed) (g.allowed_network_egress typed)
    version ← or_refused "governed_attempt_surface_unavailable" g.surface_version
    require_unless (not (version == "v0.1")) "governed_attempt_surface_incompatible"
    if required == "v0.2" then v02_surface else ok version

  -- `_require_governance_request_bindings`
  unfoldable pub require_governance_request_bindings :
      g.GovernanceRequest → RuntimeAttemptGovernanceFacts → Result (Unit {0})
  require_governance_request_bindings request facts = do
    drift ← drift_from (facts_dict (g.request_facts request)) (facts_dict facts)
    later ←
        runtime_attempt_drift (get "runtime_attempt" (g.execution_facts request)) (facts_dict facts)
    raise_drift "governed_attempt_binding_drift" (drift ++ later)

  -- The test of the operation mode against the admission and the request.
  unfoldable pub require_mode : String → g.Admission → g.GovernanceRequest → Result (Unit {0})
  require_mode mode admission request = do
    require_unless (not (contains mode ("apply" ∷ "recovery" ∷ [])))
        "governed_attempt_operation_mode_invalid"
    metadata ←
        dict_or_drift (get "metadata" (g.execution_facts request))
          "governed_attempt_actual_operation_mode_drift"
    require_unless
        (not (
          mode == g.actual_operation_mode admission
          && is_text (g.actual_operation_mode admission) (get "actual_operation_mode" metadata)))
        "governed_attempt_actual_operation_mode_drift"

  module _ (is_revoked : String → String → String → Lookup) where
    -- `require_current`
    unfoldable pub require_current : ClaimedGovernedAttempt g → ℕ → Result (Unit {0})
    require_current c now = do
      version ← governed_admission_surface c.typed_execution_request
      require_unless (not (g.schema_version c.governed_admission == version))
          "governed_attempt_surface_version_mismatch"
      decision ← or_refused "governed_attempt_untrusted" (g.trusted c.decision c.signed_artifact)
      admission ← or_refused "governed_attempt_untrusted" (
          g.validated version c.governed_admission c.typed_execution_request c.governance_request
            decision now)
      require_unless (not (g.admission_allowed admission) || not (g.allowed decision))
          "governed_attempt_denied"
      require_mode c.expected_actual_operation_mode admission c.governance_request
      grant ← or_refused "governance_decision_denied" (g.authorization decision)
      require_bindings (g.grant_dict grant) c.facts
      require_governance_request_bindings c.governance_request c.facts
      approval ←
          or_refused "governed_attempt_approval_attestation_missing"
            (g.approval_attestation c.governance_request)
      require_unrevoked (
          is_revoked (g.approval_id approval) (g.approval_attestation_digest admission)
            (g.revocation_ref approval))

  abbrev pub claimed_or_reused : ClaimedGovernedAttempt g → Bool → Result (ClaimedGovernedAttempt g)
  claimed_or_reused c true = ok c
  claimed_or_reused c false = err (refused "governance_decision_reused")

  -- The claim of the caller's facts, request and mode, with what the authority answered.
  abbrev pub claim_from :
      RuntimeAttemptGovernanceFacts
      → g.TypedRequest
      → String
      → SignedGovernedAttemptBundle g
      → ClaimedGovernedAttempt g
  claim_from facts typed mode bundle = record {
    governance_request = bundle.governance_request;
    governed_admission = bundle.governed_admission;
    decision = bundle.decision;
    signed_artifact = bundle.signed_artifact;
    typed_execution_request = typed;
    expected_actual_operation_mode = mode;
    facts = facts;
  }

  module _ (is_revoked : String → String → String → Lookup) ⦃py : Python⦄ where
    abbrev pub claim_attempt :
        ClaimedGovernedAttempt g × g.Grant → Action Directory (ClaimedGovernedAttempt g)
    claim_attempt (c, grant) dir =
        after_claim g (claim_governance_decision_once (claim_of g c.decision grant c.facts) dir)
          (claimed_or_reused c)

    -- The claim and its grant, before the decision is claimed. `authorize` is
    -- `authorize_governed_attempt` of the host's authority.
    abbrev pub checked_attempt :
        (RuntimeAttemptGovernanceFacts
          → g.TypedRequest
          → String
          → Result (SignedGovernedAttemptBundle g))
        → RuntimeAttemptGovernanceFacts
        → g.RawRequest
        → String
        → ℕ
        → Result (ClaimedGovernedAttempt g × g.Grant)
    checked_attempt authorize facts raw mode now = do
      typed ← asserted (g.validate_typed raw)
      bundle ← authorize facts typed mode
      let c = claim_from facts typed mode bundle
      require_current is_revoked c now
      grant ← asserted (g.authorization c.decision)
      ok (c, grant)

    -- `TrustedGovernedAttemptConsumer.authorize_and_claim`
    unfoldable pub authorize_and_claim_attempt :
        (RuntimeAttemptGovernanceFacts
          → g.TypedRequest
          → String
          → Result (SignedGovernedAttemptBundle g))
        → RuntimeAttemptGovernanceFacts
        → g.RawRequest
        → String
        → ℕ
        → Action Directory (ClaimedGovernedAttempt g)
    authorize_and_claim_attempt authorize facts raw mode now =
        commit (checked_attempt authorize facts raw mode now) claim_attempt
