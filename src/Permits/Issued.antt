-- ===== src/Permits/Issued.antt =====
-- What `issue` puts into a permit about the claim of a decision.
use rexec_op.Base.{
  ℕ, ◌<◌, ◌≤◌, String, ◌≡◌, refl, sym, ap, subst, ◌∙◌, Bool, true, false, not, ◌&&◌, ==_refl, leb,
  ltb, Bool-cases, inl, inr, Option, none, some, ok, arith, >>=-eq-ok, >>-eq-ok, >>=-ok, >>-ok,
  ok-injective, contains,
}
use rexec_op.Base.Int.{ℤ, eq_ℤ_refl}
use rexec_op.Json.{Value, str, obj, Fields, end, field, get, put, has, same}
use rexec_op.Json.Python.{Python}
use rexec_op.Operation.Model.{Operation}
use rexec_op.Authority.{GovEngine, aware}
use rexec_op.Authority.Governed.{ClaimedGovernedAttempt, governed_attempt_binding}
use rexec_op.Permits.{
  asserted, PermitRequest, require_governed_actual_operation_mode, sha256_of, permit_with,
  permit_record, governance_decision, earlier_of, bind_governed, bind_claim, unsigned_modes,
  require,
}
use rexec_op.Permits.Checks.{all_same, dict_or_refused, check_governed, check_claim}
use rexec_op.Permits.Bound.{require-eq_ok}

pub require-ok : {c : Bool} (message : String) → c ≡ true → require c message ≡ ok tt
require-ok message h = rw h refl

pub both : {a b : Bool} → a ≡ true → b ≡ true → (a && b) ≡ true
both h h' = rw (h, h') refl

pub earlier : (expires now : ℕ) → now < expires → not (leb expires now) ≡ true
earlier expires now h = ground arith

aware-eq_ok : (read : Option (Bool × ℕ)) {t : ℕ} → aware read ≡ ok t → read ≡ some (true, t)
aware-eq_ok none h = cc
aware-eq_ok (some (false, t)) h = cc
aware-eq_ok (some (true, t)) h = ap (λ n. some (true, n)) (ok-injective h)

asserted-eq_ok : {A : Type 0} (found : Option A) {a : A} → asserted found ≡ ok a → found ≡ some a
asserted-eq_ok none h = cc
asserted-eq_ok (some a) h = ap some (ok-injective h)

module _ (g : GovEngine) ⦃py : Python⦄ where
  same_iso-aware :
      (t : String) (expires : ℕ)
      → aware (py.from_iso t) ≡ ok expires
      → aware (py.from_iso (py.same_iso t)) ≡ ok expires
  same_iso-aware t expires h = rw (py.from_iso-same_iso t (aware-eq_ok (py.from_iso t) h)) refl

  -- The earlier of two instants, as a text.
  earlier_of-aware :
      (grant : g.Grant) (permit_text : String) (decided permitted : ℕ)
      → aware (py.from_iso (g.expires_at grant)) ≡ ok decided
      → aware (py.from_iso permit_text) ≡ ok permitted
      → (expires : ℕ) × (aware (py.from_iso (earlier_of g grant permit_text decided permitted))
          ≡ ok expires)
        × (expires ≤ permitted)
        × (expires ≤ decided)
  earlier_of-aware grant permit_text decided permitted h h' =
      elim (Bool-cases (ltb permitted decided)) [
        | inl sooner ↦ (
          permitted,
          rw sooner (same_iso-aware permit_text permitted h'),
          omega arith,
          ground arith,
        )
        | inr later ↦ (
          decided,
          rw later (same_iso-aware (g.expires_at grant) decided h),
          ground arith,
          omega arith,
        )
      ]

  -- The permit before its digest is put in.
  pub record IsIssued (r : PermitRequest g) (step_id mode : String) (epoch : ℤ) (issued_at : String)
      (permitted : ℕ) (governed : Option (ClaimedGovernedAttempt g))
      (claim : Option (g.Decision × g.Signed)) (permit : Fields) : Type 0 where
    pub expires_at : String
    pub rest : Fields
    pub expires : ℕ
    pub made : permit ≡ permit_with g r step_id mode epoch issued_at expires_at rest
    pub undigested : has "permit_digest" rest ≡ false
    pub read : aware (py.from_iso expires_at) ≡ ok expires
    pub within : expires ≤ permitted
    pub checked :
        (now : ℕ) (v : Value)
        → now < expires
        → check_claim g r.operation governed now claim
            (put "permit_digest" v (permit_with g r step_id mode epoch issued_at expires_at rest))
          ≡ ok tt

  governance_decision_self :
      (decision : g.Decision) (grant : g.Grant) (signed : g.Signed)
      → all_same
          (governance_decision g decision grant signed)
          (governance_decision g decision grant signed)
        ≡ true
  unfolding all_same same
  governance_decision_self decision grant signed = both (==_refl (g.decision_digest decision)) (
      both (==_refl (g.authorization_id grant)) (
        both (==_refl (sha256_of g (obj (field "nonce" (str (g.nonce grant)) end)))) (
          both (==_refl (g.requested_scope_digest grant)) (
            both (==_refl (g.capability_inventory_digest grant)) (
              both (eq_ℤ_refl (g.inventory_epoch grant)) (
                both (==_refl (g.policy_pack_digest grant)) (
                  both (eq_ℤ_refl (g.policy_epoch grant)) (
                    both (==_refl (g.record_digest signed))
                      (both (==_refl (g.signer_id signed)) refl)))))))))

  governed_attempt_binding_self :
      (c : ClaimedGovernedAttempt g)
      → same (obj (governed_attempt_binding g c)) (obj (governed_attempt_binding g c)) ≡ true
  unfolding same
  governed_attempt_binding_self c =
      let a : g.Admission = c.governed_admission in
      both
        (both (==_refl (g.actual_operation_mode a)) (
          both (==_refl (g.admission_digest a)) (
            both (==_refl (g.governance_request_digest a)) (
              both (==_refl (g.governance_decision_digest a)) (
                both (==_refl (g.approval_attestation_digest a))
                  (both (==_refl (g.decision_expires_at a)) refl))))))
        refl

  -- The checks of a signed decision, on a permit that holds it.
  check_claim-ok :
      (o : Operation) (governed : Option (ClaimedGovernedAttempt g)) (now decided : ℕ)
      (decision : g.Decision) (grant : g.Grant) (signed : g.Signed) (permit : Fields)
      → g.authorization decision ≡ some grant
      → aware (py.from_iso (g.expires_at grant)) ≡ ok decided
      → now < decided
      → get "governance_decision" permit ≡ obj (governance_decision g decision grant signed)
      → check_governed g o governed permit ≡ ok tt
      → check_claim g o governed now (some (decision, signed)) permit ≡ ok tt
  check_claim-ok o governed now decided decision grant signed permit authorized read early held
        checked =
      >>=-ok _ (ap asserted authorized) (
        >>=-ok _ read (
          >>-ok _ (require-ok _ (earlier decided now early)) (
            >>=-ok _ (ap (dict_or_refused g) held)
              (>>-ok _ (require-ok _ (governance_decision_self decision grant signed)) checked))))

  -- The comparison of the modes does not depend on the message.
  other_message :
      (mode : String) (c : ClaimedGovernedAttempt g) (message message' : String)
      → require_governed_actual_operation_mode g mode mode c message ≡ ok tt
      → require_governed_actual_operation_mode g mode mode c message' ≡ ok tt
  unfolding require_governed_actual_operation_mode
  other_message mode c message message' h = require-ok message' (require-eq_ok _ message h)

  -- The permit of a signed decision, with and without a governed attempt.
  bind_governed-IsIssued :
      (r : PermitRequest g) (step_id mode : String) (epoch : ℤ) (issued_at expires_at : String)
      (permitted decided expires : ℕ) (governed : Option (ClaimedGovernedAttempt g))
      (decision : g.Decision) (grant : g.Grant) (signed : g.Signed) {permit : Fields}
      → g.authorization decision ≡ some grant
      → aware (py.from_iso (g.expires_at grant)) ≡ ok decided
      → aware (py.from_iso expires_at) ≡ ok expires
      → expires ≤ permitted
      → expires ≤ decided
      → bind_governed g r.operation governed (
          permit_with g r step_id mode epoch issued_at expires_at
            (field "governance_decision" (obj (governance_decision g decision grant signed)) end))
        ≡ ok permit
      → IsIssued r step_id mode epoch issued_at permitted governed (some (decision, signed)) permit
  bind_governed-IsIssued r step_id mode epoch issued_at expires_at permitted decided expires none
        decision grant signed authorized decided_then read within sooner h =
      record {
        expires_at = expires_at;
        rest = field "governance_decision" (obj (governance_decision g decision grant signed)) end;
        expires = expires;
        made = sym (ok-injective h);
        undigested = refl;
        read = read;
        within = within;
        checked = λ now v early.
            check_claim-ok r.operation none now decided decision grant signed
              (put "permit_digest" v (
                permit_with g r step_id mode epoch issued_at expires_at (
                  field "governance_decision" (obj (governance_decision g decision grant signed))
                    end)))
              authorized decided_then (omega (arith, early, sooner)) refl refl;
      }
  bind_governed-IsIssued r step_id mode epoch issued_at expires_at permitted decided expires
        (some c) decision grant signed authorized decided_then read within sooner h =
      let (fits, h₁) =
        >>-eq-ok (require_governed_actual_operation_mode g r.operation.mode r.operation.mode c _) _
          h in
      record {
        expires_at = expires_at;
        rest =
            field "governance_decision" (obj (governance_decision g decision grant signed))
              (field "governed_admission_binding" (obj (governed_attempt_binding g c)) end);
        expires = expires;
        made = sym (ok-injective h₁);
        undigested = refl;
        read = read;
        within = within;
        checked = λ now v early.
            check_claim-ok r.operation (some c) now decided decision grant signed
              (put "permit_digest" v (
                permit_with g r step_id mode epoch issued_at expires_at (
                  field "governance_decision" (obj (governance_decision g decision grant signed))
                    (field "governed_admission_binding" (obj (governed_attempt_binding g c)) end))))
              authorized decided_then (omega (arith, early, sooner)) refl
              (>>-ok _
                (other_message r.operation.mode c
                  "execution_permit_invalid: governed actual operation mode drift"
                  "execution_permit_stale: governed actual operation mode drift" fits)
                (require-ok "execution_permit_stale: governed admission drift"
                  (governed_attempt_binding_self c)));
      }

  pub bind_claim-IsIssued :
      (r : PermitRequest g) (step_id mode : String) (epoch : ℤ) (issued_at permit_text : String)
      (permitted : ℕ) (governed : Option (ClaimedGovernedAttempt g))
      (claim : Option (g.Decision × g.Signed)) {permit : Fields}
      → aware (py.from_iso permit_text) ≡ ok permitted
      → bind_claim g r.operation governed permit_text claim
          (permit_record g r step_id mode epoch issued_at permit_text)
        ≡ ok permit
      → IsIssued r step_id mode epoch issued_at permitted governed claim permit
  bind_claim-IsIssued r step_id mode epoch issued_at permit_text permitted governed none read h =
      let (allowed, h₁) = >>-eq-ok (require (contains r.operation.mode unsigned_modes) _) _ h in
      record {
        expires_at = permit_text;
        rest = end;
        expires = permitted;
        made = sym (ok-injective h₁);
        undigested = refl;
        read = read;
        within = omega arith;
        checked = λ now v early. refl;
      }
  bind_claim-IsIssued r step_id mode epoch issued_at permit_text permitted governed
        (some (decision, signed)) read h =
      let (grant, authorized, h₁) = >>=-eq-ok (asserted (g.authorization decision)) _ h in
      let (decided, decided_then, h₂) = >>=-eq-ok (aware (py.from_iso (g.expires_at grant))) _ h₁ in
      let (permitted', read', h₃) = >>=-eq-ok (aware (py.from_iso permit_text)) _ h₂ in
      let same_instant : permitted' ≡ permitted = ok-injective (sym read' ∙ read) in
      let (expires, earlier_then, within, sooner) =
        earlier_of-aware grant permit_text decided permitted' decided_then read' in
      bind_governed-IsIssued r step_id mode epoch issued_at
        (earlier_of g grant permit_text decided permitted') permitted decided expires governed
        decision grant signed (asserted-eq_ok (g.authorization decision) authorized) decided_then
        earlier_then (subst (λ n. expires ≤ n) same_instant within) sooner h₃
