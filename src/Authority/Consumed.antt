-- ===== src/Authority/Consumed.antt =====
-- What an authorization that was claimed stands for, and that it is spent.
use mathlib.Core.Option
use mathlib.Core.Option.{some-injective}
use rexec_op.Base.{
  arith, ℕ, ◌<◌, String, ◌≡◌, refl, sym, ap, subst, ◌∙◌, ◌≢◌, ◌⊎◌, Bool, true, false, ◌&&◌, Option,
  none, some, List, [], ◌∷◌, ◌==◌, leb, ◌>>=◌, Result, ok, err, commit-eq_ok, >>=-eq-ok, >>-eq-ok,
  raise_if-eq_ok, ok-injective, Bool-cases, inl, inr, eq_iff, builtin_error, raise_if, ◌>>◌, err≢ok,
}
use rexec_op.Base.Actions.{returned}
use rexec_op.Json.{Value, null, bool, int, str, arr, obj, Fields, end, field, get, same}
use rexec_op.Json.Python.{Python, is_ascii}
use rexec_op.Storage.Governance.{Claim, Directory, claim_governance_decision_once}
use rexec_op.Storage.Governance.Once.{after_claims, claimed_once}
use rexec_op.Authority.{
  GovEngine, RuntimeAttemptGovernanceFacts, facts_dict, compare_digest, binding_equal, raise_drift,
  or_refused, granted, after_claim, claimed_or_refused, drift_from, require_bindings,
  ClaimedGovernanceDecision, claim_of, expiry, refused, checked_decision, claim_checked,
  authorize_and_claim,
}

-- A bound value: the same text, or a number that Python counts as equal.
abbrev pub Agrees : Value → Value → Type 0
Agrees actual (str s) = actual ≡ str s
Agrees actual expected = same actual expected ≡ true

-- Each entry of the expected dict is bound in the other one.
abbrev pub Binds : Fields → Fields → Type 0
Binds actual end = Unit {0}
Binds actual (field key value expected) = Agrees (get key actual) value × Binds actual expected

ok_true : (b : Bool) → ◌≡◌ {A = Result Bool} (ok b) (ok true) → b ≡ true
ok_true b h = ok-injective h

pub compare_digest-eq : (a s : String) → compare_digest a s ≡ ok true → a ≡ s
compare_digest-eq a s h = elim (Bool-cases (is_ascii a && is_ascii s)) [
  | inl plain ↦ (eq_iff a s).0 (ok_true (a == s) (rw plain at h))
  | inr other ↦ absurd (raised (rw other at h))
]
  where
    raised : ◌≡◌ {A = Result Bool} (err builtin_error) (ok true) → ⊥
    raised e = cc

binding_equal-Agrees :
    (actual expected : Value) → binding_equal actual expected ≡ ok true → Agrees actual expected
unfolding same
binding_equal-Agrees (str a) (str s) h = ap str (compare_digest-eq a s h)
binding_equal-Agrees null (str s) h = cc
binding_equal-Agrees (bool b) (str s) h = cc
binding_equal-Agrees (int n) (str s) h = cc
binding_equal-Agrees (arr xs) (str s) h = cc
binding_equal-Agrees (obj d) (str s) h = cc
binding_equal-Agrees _ _ h = ok-injective h

pub drift_from-Binds :
    (actual expected : Fields) → drift_from actual expected ≡ ok [] → Binds actual expected
unfolding drift_from
drift_from-Binds actual end h = tt
drift_from-Binds actual (field key value expected) h =
    let (equal, found, h₁) = >>=-eq-ok (binding_equal (get key actual) value) _ h in
    let (rest, later, h₂) = >>=-eq-ok (drift_from actual expected) _ h₁ in
    elim (Bool-cases equal) [
      | inl agreed ↦
          let none_left : rest ≡ [] = ok-injective (rw agreed at h₂) in
          (
            binding_equal-Agrees (get key actual) value (found ∙ ap (λ b. ok b) agreed),
            drift_from-Binds actual expected (later ∙ ap (λ d. ok d) none_left),
          )
      | inr drifted ↦ absurd (some_left (rw drifted at h₂))
    ]
  where
    some_left : {r : List String} → ◌≡◌ {A = Result (List String)} (ok (key ∷ r)) (ok []) → ⊥
    some_left e = cc

no_drift :
    (reason_code : String) (drift : List String)
    → raise_drift reason_code drift ≡ ok tt
    → drift ≡ []
no_drift reason_code [] h = refl
no_drift reason_code (key ∷ keys) h = cc

pub require_bindings-Binds :
    (grant : Fields) (facts : RuntimeAttemptGovernanceFacts)
    → require_bindings grant facts ≡ ok tt
    → Binds grant (facts_dict facts)
unfolding require_bindings
require_bindings-Binds grant facts h =
    let (drift, found, h₁) = >>=-eq-ok (drift_from grant (facts_dict facts)) _ h in
    drift_from-Binds grant (facts_dict facts)
      (found ∙ ap (λ d. ok d) (no_drift "governance_decision_binding_drift" drift h₁))

pub or_refused-eq_ok :
    {A : Type 0} (reason_code : String) (found : Option A) {a : A}
    → or_refused reason_code found ≡ ok a
    → found ≡ some a
or_refused-eq_ok reason_code none h = cc
or_refused-eq_ok reason_code (some a) h = ap some (ok-injective h)

pub later_than : (expires now : ℕ) → leb expires now ≡ false → now < expires
later_than expires now h = ground arith

module _ (g : GovEngine) ⦃py : Python⦄ where
  -- The checks that a decision passed before it is claimed.
  pub record IsGranted (facts : RuntimeAttemptGovernanceFacts) (now : ℕ) (offered : g.Decision)
      (signed : g.Signed) (decision : g.Decision) (grant : g.Grant) : Type 0 where
    pub trusts : g.trusted offered signed ≡ some decision
    pub allows : g.allowed decision ≡ true
    pub grants : g.authorization decision ≡ some grant
    pub binds : Binds (g.grant_dict grant) (facts_dict facts)
    pub expires : ℕ
    pub expires_then : expiry g grant ≡ ok expires
    pub in_time : now < expires

  granted-eq_ok :
      (decision : g.Decision) {grant : g.Grant}
      → granted g decision ≡ ok grant
      → (g.allowed decision ≡ true) × (g.authorization decision ≡ some grant)
  granted-eq_ok decision h = elim (Bool-cases (g.allowed decision)) [
    | inl allowed ↦ (
      allowed,
      or_refused-eq_ok "governance_decision_denied" (g.authorization decision) (rw allowed at h),
    )
    | inr denied ↦ absurd (err≢ok (rw denied at h))
  ]

  -- The instant of expiry that was read, and what was returned.
  in_time-eq_ok :
      {A : Type 0} (grant : g.Grant) (now : ℕ) (a : A) {b : A}
      → (do
        expires ← expiry g grant
        raise_if (leb expires now) (refused "governance_decision_expired")
        ok a)
        ≡ ok b
      → (expires : ℕ) × (expiry g grant ≡ ok expires) × (now < expires) × (a ≡ b)
  in_time-eq_ok grant now a h =
      let (expires, read, h₁) = >>=-eq-ok (expiry g grant) _ h in
      let (early, h₂) = raise_if-eq_ok (leb expires now) _ (ok a) h₁ in
      (expires, read, later_than expires now early, ok-injective h₂)

  checked_decision-IsGranted :
      (facts : RuntimeAttemptGovernanceFacts) (now : ℕ) (offered : g.Decision) (signed : g.Signed)
      {x : g.Decision × g.Grant × g.Signed}
      → checked_decision g facts now (offered, signed) ≡ ok x
      → (decision : g.Decision) × (grant : g.Grant) × ((decision, grant, signed) ≡ x)
        × IsGranted facts now offered signed decision grant
  unfolding checked_decision
  checked_decision-IsGranted facts now offered signed h =
      let (decision, trusts, h₁) =
        >>=-eq-ok (or_refused "governance_decision_untrusted" (g.trusted offered signed)) _ h in
      let (grant, grants, h₂) = >>=-eq-ok (granted g decision) _ h₁ in
      let (bound, h₃) = >>-eq-ok (require_bindings (g.grant_dict grant) facts) _ h₂ in
      let (expires, read, early, same_result) =
        in_time-eq_ok grant now (decision, grant, signed) h₃ in
      let (allowed, given) = granted-eq_ok decision grants in
      (
        decision,
        grant,
        same_result,
        record {
          trusts =
              or_refused-eq_ok "governance_decision_untrusted" (g.trusted offered signed) trusts;
          allows = allowed;
          grants = given;
          binds = require_bindings-Binds (g.grant_dict grant) facts bound;
          expires = expires;
          expires_then = read;
          in_time = early;
        },
      )

  -- A claim that was granted, and the authorization returned for it.
  after_claim-eq_ok :
      (decision : g.Decision) (signed : g.Signed) (facts : RuntimeAttemptGovernanceFacts)
      (first : Result Bool × Directory) {c : ClaimedGovernanceDecision g} {dir' : Directory}
      → after_claim g first (claimed_or_refused g decision signed facts) ≡ (ok c, dir')
      → (first ≡ (ok true, dir'))
        × (record { decision = decision; signed_artifact = signed; facts = facts } ≡ c)
  after_claim-eq_ok decision signed facts (ok true, dir) h =
      let (same_claim, same_dir) = returned h in
      (ap (λ d. (ok true, d)) (sym same_dir), sym same_claim)
  after_claim-eq_ok decision signed facts (ok false, dir) h = cc
  after_claim-eq_ok decision signed facts (err e, dir) h = cc

  -- An authorization that is returned is of a decision that the host's policies trust, that allows
  -- and holds a grant; the grant binds each of the facts and is not expired; and the claim of the
  -- decision was granted in the call.
  pub authorized_binds :
      (facts : RuntimeAttemptGovernanceFacts) (now : ℕ) (answer : Result (g.Decision × g.Signed))
      (dir : Directory) {c : ClaimedGovernanceDecision g} {dir' : Directory}
      → authorize_and_claim g facts now answer dir ≡ (ok c, dir')
      → (offered : g.Decision) × (grant : g.Grant) × (answer ≡ ok (offered, c.signed_artifact))
        × (c.facts ≡ facts)
        × IsGranted facts now offered c.signed_artifact c.decision grant
        × (claim_governance_decision_once (claim_of g c.decision grant facts) dir ≡ (ok true, dir'))
  unfolding authorize_and_claim
  authorized_binds facts now answer dir {c} {dir'} h =
      let (x, checked, claimed) =
        commit-eq_ok (answer >>= checked_decision g facts now) (claim_checked g facts) dir h in
      let ((offered, signed), answered, h₁) = >>=-eq-ok answer _ checked in
      let (decision, grant, same_result, is_granted) =
        checked_decision-IsGranted facts now offered signed h₁ in
      let (taken, same_claim) =
        after_claim-eq_ok decision signed facts
          (claim_governance_decision_once (claim_of g decision grant facts) dir)
          (rw (← same_result) at claimed) in
      subst
        (λ c.
          (offered : g.Decision) × (grant : g.Grant) × (answer ≡ ok (offered, c.signed_artifact))
          × (c.facts ≡ facts)
          × IsGranted facts now offered c.signed_artifact c.decision grant
          × (claim_governance_decision_once (claim_of g c.decision grant facts) dir
              ≡ (ok true, dir')))
        same_claim (offered, grant, answered, refl, is_granted, taken)

  -- The nonce of a decision's grant.
  abbrev pub nonce_of : g.Decision → Option String
  nonce_of decision = Option.map g.nonce (g.authorization decision)

  -- Two authorizations that were returned, one after the other, whatever was claimed in between, are
  -- of decisions with different digests, and their grants have different nonces.
  pub authority_spent :
      (facts facts' : RuntimeAttemptGovernanceFacts) (now now' : ℕ)
      (answer answer' : Result (g.Decision × g.Signed)) (dir : Directory) (between : List Claim)
      {c c' : ClaimedGovernanceDecision g} {dir' end : Directory}
      → authorize_and_claim g facts now answer dir ≡ (ok c, dir')
      → authorize_and_claim g facts' now' answer' (after_claims between dir') ≡ (ok c', end)
      → (g.decision_digest c'.decision ≢ g.decision_digest c.decision)
        × (nonce_of c'.decision ≢ nonce_of c.decision)
  authority_spent facts facts' now now' answer answer' dir between {c} {c'} {dir'} {end} h h' =
      let (offered, grant, answered, same_facts, is_granted, claimed) =
        authorized_binds facts now answer dir h in
      let (offered', grant', answered', same_facts', is_granted', claimed') =
        authorized_binds facts' now' answer' _ h' in
      let claim : Claim = claim_of g c.decision grant facts in
      let claim' : Claim = claim_of g c'.decision grant' facts' in
      let spent : ((claim'.decision_digest ≡ claim.decision_digest) ⊎ (claim'.nonce ≡ claim.nonce))
          → ⊥ =
        λ reused.
          (claimed_once claim claim' dir between (ap (λ r. r.0) claimed) reused).0
            (rw claimed (ap (λ r. r.0) claimed')) in
      (
        λ same_digest. spent (inl same_digest),
        λ same_nonce.
            spent
              (inr (some-injective _ _ (rw (is_granted.grants, is_granted'.grants) at same_nonce))),
      )
