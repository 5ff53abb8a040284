-- ===== src/Authority/Claimed.antt =====
-- What a governed attempt that was claimed stands for.
use rexec_op.Base.{
  refl, ℕ, String, ◌≡◌, sym, ap, subst, Bool, true, false, not, ◌||◌, ◌==◌, some, Result, ok, err,
  eq_iff, ok-injective, >>=-eq-ok, >>-eq-ok, commit-eq_ok,
}
use rexec_op.Base.Actions.{returned}
use rexec_op.Json.Python.{Python}
use rexec_op.Storage.Governance.{Directory, claim_governance_decision_once}
use rexec_op.Authority.{
  RuntimeAttemptGovernanceFacts, GovEngine, facts_dict, or_refused, require_bindings, claim_of,
  after_claim,
}
use rexec_op.Authority.Consumed.{Binds, require_bindings-Binds, or_refused-eq_ok}
use rexec_op.Authority.Governed.{ClaimedGovernedAttempt, SignedGovernedAttemptBundle}
use rexec_op.Authority.Attempt.{
  Lookup, answered, require_unless, asserted, governed_admission_surface,
  require_governance_request_bindings, require_mode, require_current, claimed_or_reused,
  claim_attempt, claim_from, checked_attempt, authorize_and_claim_attempt,
}
use rexec_op.Authority.Current.{
  require_unless-eq_ok, require_unrevoked-eq_ok, asserted-eq_ok, undo_negation, neither, HasMode,
  NamesAttempt, require_mode-HasMode, request_bindings-NamesAttempt,
}

module _ (g : GovEngine) (is_revoked : String → String → String → Lookup) where
  -- The claim of the given facts, request and mode, with the records of a bundle.
  pub record IsClaimOf (facts : RuntimeAttemptGovernanceFacts) (typed : g.TypedRequest)
      (mode : String) (bundle : SignedGovernedAttemptBundle g) (c : ClaimedGovernedAttempt g)
      : Type 0 where
    pub holds_facts : c.facts ≡ facts
    pub holds_request : c.typed_execution_request ≡ typed
    pub holds_mode : c.expected_actual_operation_mode ≡ mode
    pub holds_governance_request : c.governance_request ≡ bundle.governance_request
    pub holds_admission : c.governed_admission ≡ bundle.governed_admission
    pub holds_decision : c.decision ≡ bundle.decision
    pub holds_artifact : c.signed_artifact ≡ bundle.signed_artifact

  -- What a governed attempt stands for while it is current.
  pub record IsCurrent (c : ClaimedGovernedAttempt g) (now : ℕ) : Type 0 where
    pub version : String
    pub surfaced : governed_admission_surface g c.typed_execution_request ≡ ok version
    pub versioned : g.schema_version c.governed_admission ≡ version
    pub decision : g.Decision
    pub trusts : g.trusted c.decision c.signed_artifact ≡ some decision
    pub admission : g.Admission
    pub validates :
        g.validated version c.governed_admission c.typed_execution_request c.governance_request
          decision now
        ≡ some admission
    pub admits : g.admission_allowed admission ≡ true
    pub allows : g.allowed decision ≡ true
    pub has_mode : HasMode g c.expected_actual_operation_mode admission c.governance_request
    pub grant : g.Grant
    pub grants : g.authorization decision ≡ some grant
    pub binds : Binds (g.grant_dict grant) (facts_dict c.facts)
    pub names : NamesAttempt g c.governance_request c.facts
    pub approval : g.Approval
    pub attested : g.approval_attestation c.governance_request ≡ some approval
    pub unrevoked :
        is_revoked
          (g.approval_id approval)
          (g.approval_attestation_digest admission)
          (g.revocation_ref approval)
        ≡ answered false

  pub require_current-IsCurrent :
      (c : ClaimedGovernedAttempt g) (now : ℕ)
      → require_current g is_revoked c now ≡ ok tt
      → IsCurrent c now
  unfolding require_current
  require_current-IsCurrent c now h =
      let (version, surfaced, h₁) =
        >>=-eq-ok (governed_admission_surface g c.typed_execution_request) _ h in
      let (versioned, h₂) =
        >>-eq-ok (require_unless (not (g.schema_version c.governed_admission == version)) _) _ h₁ in
      let (decision, trusts, h₃) =
        >>=-eq-ok (or_refused "governed_attempt_untrusted" (g.trusted c.decision c.signed_artifact))
          _ h₂ in
      let (admission, validates, h₄) =
        >>=-eq-ok
          (or_refused "governed_attempt_untrusted" (
            g.validated version c.governed_admission c.typed_execution_request c.governance_request
              decision now))
          _ h₃ in
      let (allowed, h₅) =
        >>-eq-ok
          (require_unless (not (g.admission_allowed admission) || not (g.allowed decision)) _) _
          h₄ in
      let (mode, h₆) =
        >>-eq-ok (require_mode g c.expected_actual_operation_mode admission c.governance_request) _
          h₅ in
      let (grant, grants, h₇) =
        >>=-eq-ok (or_refused "governance_decision_denied" (g.authorization decision)) _ h₆ in
      let (bound, h₈) = >>-eq-ok (require_bindings (g.grant_dict grant) c.facts) _ h₇ in
      let (named, h₉) =
        >>-eq-ok (require_governance_request_bindings g c.governance_request c.facts) _ h₈ in
      let (approval, attested, last) =
        >>=-eq-ok
          (or_refused "governed_attempt_approval_attestation_missing"
            (g.approval_attestation c.governance_request))
          _ h₉ in
      let (admits, allows) =
        neither (g.admission_allowed admission) (g.allowed decision)
          (require_unless-eq_ok _ "governed_attempt_denied" allowed) in
      record {
        version = version;
        surfaced = surfaced;
        versioned = (eq_iff _ _).0 (
            undo_negation _
              (require_unless-eq_ok _ "governed_attempt_surface_version_mismatch" versioned));
        decision = decision;
        trusts = or_refused-eq_ok _ _ trusts;
        admission = admission;
        validates = or_refused-eq_ok _ _ validates;
        admits = admits;
        allows = allows;
        has_mode = require_mode-HasMode g _ _ _ mode;
        grant = grant;
        grants = or_refused-eq_ok _ _ grants;
        binds = require_bindings-Binds _ _ bound;
        names = request_bindings-NamesAttempt g _ _ named;
        approval = approval;
        attested = or_refused-eq_ok _ _ attested;
        unrevoked = require_unrevoked-eq_ok _ last;
      }

  module _ ⦃py : Python⦄ where
    claimed-eq_ok :
        (c : ClaimedGovernedAttempt g) (first : Result Bool × Directory)
        {c' : ClaimedGovernedAttempt g} {dir' : Directory}
        → after_claim g first (claimed_or_reused g c) ≡ (ok c', dir')
        → (first ≡ (ok true, dir')) × (c' ≡ c)
    claimed-eq_ok c (ok true, dir) h =
        let (same_claim, same_dir) = returned h in
        (ap (λ d. (ok true, d)) (sym same_dir), same_claim)
    claimed-eq_ok c (ok false, dir) h = cc
    claimed-eq_ok c (err e, dir) h = cc

    -- A governed attempt that is claimed holds the caller's facts and operation mode and the checked
    -- form of the caller's request; the other records are those that the host's authority answered for
    -- these three. It is current at the instant of the call, and the claim of its decision was granted
    -- in the call.
    pub attempt_authorized :
        (authorize : RuntimeAttemptGovernanceFacts
          → g.TypedRequest
          → String
          → Result (SignedGovernedAttemptBundle g))
        (facts : RuntimeAttemptGovernanceFacts) (raw : g.RawRequest) (mode : String) (now : ℕ)
        (dir : Directory) {c : ClaimedGovernedAttempt g} {dir' : Directory}
        → authorize_and_claim_attempt g is_revoked authorize facts raw mode now dir ≡ (ok c, dir')
        → (typed : g.TypedRequest) × (bundle : SignedGovernedAttemptBundle g) × (grant : g.Grant)
          × (g.validate_typed raw ≡ some typed)
          × (authorize facts typed mode ≡ ok bundle)
          × IsClaimOf facts typed mode bundle c
          × IsCurrent c now
          × (g.authorization c.decision ≡ some grant)
          × (claim_governance_decision_once (claim_of g c.decision grant c.facts) dir
              ≡ (ok true, dir'))
    unfolding authorize_and_claim_attempt
    attempt_authorized authorize facts raw mode now dir {c} {dir'} h =
        let (x, checked, claimed) =
          commit-eq_ok (checked_attempt g is_revoked authorize facts raw mode now)
            (claim_attempt g is_revoked) dir h in
        let (typed, valid, h₁) = >>=-eq-ok (asserted (g.validate_typed raw)) _ checked in
        let (bundle, answered_then, h₂) = >>=-eq-ok (authorize facts typed mode) _ h₁ in
        let c' : ClaimedGovernedAttempt g = claim_from g facts typed mode bundle in
        let (current, h₃) = >>-eq-ok (require_current g is_revoked c' now) _ h₂ in
        let (grant, granted, h₄) = >>=-eq-ok (asserted (g.authorization c'.decision)) _ h₃ in
        let same_pair : (c', grant) ≡ x = ok-injective h₄ in
        let (taken, same_claim) =
          claimed-eq_ok c'
            (claim_governance_decision_once (claim_of g c'.decision grant c'.facts) dir)
            (rw (← same_pair) at claimed) in
        let valid_typed = asserted-eq_ok (g.validate_typed raw) valid in
        subst
          (λ c.
            (typed : g.TypedRequest) × (bundle : SignedGovernedAttemptBundle g) × (grant : g.Grant)
            × (g.validate_typed raw ≡ some typed)
            × (authorize facts typed mode ≡ ok bundle)
            × IsClaimOf facts typed mode bundle c
            × IsCurrent c now
            × (g.authorization c.decision ≡ some grant)
            × (claim_governance_decision_once (claim_of g c.decision grant c.facts) dir
                ≡ (ok true, dir')))
          (sym same_claim)
          (
            typed,
            bundle,
            grant,
            valid_typed,
            answered_then,
            record {
              holds_facts = refl;
              holds_request = refl;
              holds_mode = refl;
              holds_governance_request = refl;
              holds_admission = refl;
              holds_decision = refl;
              holds_artifact = refl;
            },
            require_current-IsCurrent c' now current,
            asserted-eq_ok _ granted,
            taken,
          )
