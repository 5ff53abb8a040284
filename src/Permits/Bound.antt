-- ===== src/Permits/Bound.antt =====
-- What a permit that `require_fresh` accepts is bound to.
use rexec_op.Base.{
  ℕ, ◌<◌, String, ◌≡◌, refl, sym, ap, ◌∙◌, Bool, true, false, not, leb, ok, arith, both_true,
  eq_iff, >>=-eq-ok, >>-eq-ok,
}
use rexec_op.Base.Int.{ℤ, pos, eq_ℤ→eq}
use rexec_op.Json.{
  Value, null, bool, int, str, arr, obj, bit, Fields, end, field, get, same, is_text,
}
use rexec_op.Json.Python.{Python, text}
use rexec_op.Json.Coerce.{required}
use rexec_op.Lease.{LeaseDir, validate}
use rexec_op.Authority.Consumed.{compare_digest-eq}
use rexec_op.Authority.{GovEngine, aware, compare_digest}
use rexec_op.Permits.{
  execution_permit_schema, require, PermitRequest, governance_binding_mode, claim_of, record_digest,
  lease_epoch, sha256_of,
}
use rexec_op.Permits.Checks.{
  all_same, Readings, expected_binding, check_claim, require_bound, require_governed, require_fresh,
}

pub require-eq_ok : (c : Bool) (message : String) → require c message ≡ ok tt → c ≡ true
require-eq_ok true message h = refl
require-eq_ok false message h = cc

-- The same keys, with texts and numbers that may differ.
data HasSameShape : Fields → Fields → Type 0 where
  ends : HasSameShape end end
  texts :
      (k a b : String) {d d' : Fields}
      → HasSameShape d d'
      → HasSameShape (field k (str a) d) (field k (str b) d')
  ints :
      (k : String) (a b : ℤ) {d d' : Fields}
      → HasSameShape d d'
      → HasSameShape (field k (int a) d) (field k (int b) d')

same_text : (v : Value) (a b : String) → same v (str a) ≡ true → same v (str b) ≡ true → a ≡ b
unfolding same
same_text (str s) a b h h' = sym ((eq_iff s a).0 h) ∙ (eq_iff s b).0 h'
same_text null a b h h' = cc
same_text (bool x) a b h h' = cc
same_text (int x) a b h h' = cc
same_text (arr x) a b h h' = cc
same_text (obj x) a b h h' = cc

same_int : (v : Value) (a b : ℤ) → same v (int a) ≡ true → same v (int b) ≡ true → a ≡ b
unfolding same
same_int (int n) a b h h' = sym (eq_ℤ→eq n a h) ∙ eq_ℤ→eq n b h'
same_int (bool x) a b h h' = sym (eq_ℤ→eq (bit x) a h) ∙ eq_ℤ→eq (bit x) b h'
same_int (str s) a b h h' = cc
same_int null a b h h' = cc
same_int (arr x) a b h h' = cc
same_int (obj x) a b h h' = cc

all_same_unique :
    {d d' : Fields} (permit : Fields)
    → HasSameShape d d'
    → all_same d permit ≡ true
    → all_same d' permit ≡ true
    → d ≡ d'
unfolding all_same
all_same_unique permit ends h h' = refl
all_same_unique permit (texts k a b {d} {d'} s) h h' =
    let (here, rest) = both_true (same (get k permit) (str a)) (all_same d permit) h in
    let (here', rest') = both_true (same (get k permit) (str b)) (all_same d' permit) h' in
    rw (same_text (get k permit) a b here here', all_same_unique permit s rest rest') refl
all_same_unique permit (ints k a b {d} {d'} s) h h' =
    let (here, rest) = both_true (same (get k permit) (int a)) (all_same d permit) h in
    let (here', rest') = both_true (same (get k permit) (int b)) (all_same d' permit) h' in
    rw (same_int (get k permit) a b here here', all_same_unique permit s rest rest') refl

abbrev text_of : Value → String
text_of (str s) = s
text_of _ = ""

abbrev text_at : String → Fields → String
text_at key d = text_of (get key d)

abbrev number_of : Value → ℤ
number_of (int n) = n
number_of _ = pos 0

not_later : (expires now : ℕ) → not (leb expires now) ≡ true → now < expires
not_later expires now h = ground arith

module _ (g : GovEngine) ⦃py : Python⦄ where
  -- The permit carries its own digest, is not expired and is bound to the request.
  pub record IsBound (permit : Fields) (r : PermitRequest g) (now : ℕ) : Type 0 where
    pub has_schema : is_text execution_permit_schema (get "schema" permit) ≡ true
    pub sealed : text (get "permit_digest" permit) ≡ record_digest g permit
    pub expires_at : String
    pub names_expiry : required "expires_at" permit ≡ ok expires_at
    pub expires : ℕ
    pub expires_then : aware (py.from_iso expires_at) ≡ ok expires
    pub in_time : now < expires
    pub epoch : ℤ
    pub has_epoch : lease_epoch g r.lease ≡ ok epoch
    pub binds : all_same (expected_binding g r epoch) permit ≡ true

  pub record IsGoverned (permit : Fields) (r : PermitRequest g) (readings : Readings)
      (dir : LeaseDir) : Type 0 where
    pub owned : validate r.lease readings.lease_checked dir ≡ ok tt
    pub mode : String
    pub has_mode : governance_binding_mode g r.governance_claim r.governed_claim ≡ ok mode
    pub names_mode : is_text mode (get "governance_binding_mode" permit) ≡ true
    pub claim_checked :
        check_claim g r.operation r.governed_claim readings.grant_checked
          (claim_of g r.governance_claim r.governed_claim)
          permit
        ≡ ok tt
    pub aims : text (get "target" r.target_binding) ≡ r.operation.target

  require_bound-IsBound :
      (permit : Fields) (r : PermitRequest g) (now : ℕ)
      → require_bound g permit r now ≡ ok tt
      → IsBound permit r now
  unfolding require_bound
  require_bound-IsBound permit r now h =
      let (schema, h₁) =
        >>-eq-ok (require (is_text execution_permit_schema (get "schema" permit)) _) _ h in
      let (equal, compared, h₂) =
        >>=-eq-ok (compare_digest (text (get "permit_digest" permit)) (record_digest g permit)) _
          h₁ in
      let (sealed, h₃) =
        >>-eq-ok (require equal "execution_permit_invalid: digest mismatch") _ h₂ in
      let (expires_at, names, h₄) = >>=-eq-ok (required "expires_at" permit) _ h₃ in
      let (expires, then, h₅) = >>=-eq-ok (aware (py.from_iso expires_at)) _ h₄ in
      let (early, h₆) =
        >>-eq-ok (require (not (leb expires now)) "execution_permit_stale: permit expired") _ h₅ in
      let (epoch, found, h₇) = >>=-eq-ok (lease_epoch g r.lease) _ h₆ in
      record {
        has_schema = require-eq_ok _ _ schema;
        sealed = compare_digest-eq _ _ (compared ∙ ap (λ b. ok b) (require-eq_ok equal _ sealed));
        expires_at = expires_at;
        names_expiry = names;
        expires = expires;
        expires_then = then;
        in_time = not_later expires now (require-eq_ok _ _ early);
        epoch = epoch;
        has_epoch = found;
        binds = require-eq_ok _ _ h₇;
      }

  require_governed-IsGoverned :
      (permit : Fields) (r : PermitRequest g) (readings : Readings) (dir : LeaseDir)
      → require_governed g permit r readings dir ≡ ok tt
      → IsGoverned permit r readings dir
  unfolding require_governed
  require_governed-IsGoverned permit r readings dir h =
      let (owned, h₁) = >>-eq-ok (validate r.lease readings.lease_checked dir) _ h in
      let (mode, found, h₂) =
        >>=-eq-ok (governance_binding_mode g r.governance_claim r.governed_claim) _ h₁ in
      let (named, h₃) =
        >>-eq-ok (require (is_text mode (get "governance_binding_mode" permit)) _) _ h₂ in
      let (claim, h₄) =
        >>-eq-ok
          (check_claim g r.operation r.governed_claim readings.grant_checked
            (claim_of g r.governance_claim r.governed_claim) permit)
          _ h₃ in
      record {
        owned = owned;
        mode = mode;
        has_mode = found;
        names_mode = require-eq_ok _ _ named;
        claim_checked = claim;
        aims = (eq_iff _ _).0 (require-eq_ok _ _ h₄);
      }

  -- A permit that `require_fresh` accepts.
  pub require_fresh-IsBound :
      (permit : Fields) (r : PermitRequest g) (readings : Readings) (dir : LeaseDir)
      → require_fresh g permit r readings dir ≡ ok tt
      → IsBound permit r readings.permit_checked × IsGoverned permit r readings dir
  unfolding require_fresh
  require_fresh-IsBound permit r readings dir h =
      let (bound, governed) = >>-eq-ok (require_bound g permit r readings.permit_checked) _ h in
      (
        require_bound-IsBound permit r readings.permit_checked bound,
        require_governed-IsGoverned permit r readings dir governed,
      )

  expected-HasSameShape :
      (r r' : PermitRequest g) (epoch epoch' : ℤ)
      → HasSameShape (expected_binding g r epoch) (expected_binding g r' epoch')
  expected-HasSameShape r r' epoch epoch' = texts _ _ _ (
      texts _ _ _ (
        ints _ _ _ (
          texts _ _ _ (
            texts _ _ _ (
              texts _ _ _
                (texts _ _ _ (texts _ _ _ (texts _ _ _ (ints _ _ _ (texts _ _ _ ends))))))))))

  named_once :
      (v : Value) (mode mode' : String)
      → is_text mode v ≡ true
      → is_text mode' v ≡ true
      → mode ≡ mode'
  named_once (str s) mode mode' h h' = sym ((eq_iff s mode).0 h) ∙ (eq_iff s mode').0 h'
  named_once null mode mode' h h' = cc
  named_once (bool b) mode mode' h h' = cc
  named_once (int n) mode mode' h h' = cc
  named_once (arr xs) mode mode' h h' = cc
  named_once (obj d) mode mode' h h' = cc

  -- What two requests have in common.
  pub record AreOneAttempt (r r' : PermitRequest g) : Type 0 where
    pub same_operation : r.operation.id ≡ r'.operation.id
    pub same_attempt : r.attempt_id ≡ r'.attempt_id
    pub same_revision : r.operation.operation_revision ≡ r'.operation.operation_revision
    pub same_plan : sha256_of g r.plan ≡ sha256_of g r'.plan
    pub same_spec : text (get "digest" r.execution_spec) ≡ text (get "digest" r'.execution_spec)
    pub same_decision : r.operation.govengine_decision_type ≡ r'.operation.govengine_decision_type
    pub same_admission : r.governance_admission_digest ≡ r'.governance_admission_digest
    pub same_target : sha256_of g (obj r.target_binding) ≡ sha256_of g (obj r'.target_binding)
    pub same_mode : r.operation.mode ≡ r'.operation.mode
    pub same_epoch : lease_epoch g r.lease ≡ lease_epoch g r'.lease
    pub same_process :
        text (get "process_instance_id" r.lease) ≡ text (get "process_instance_id" r'.lease)
    pub same_governance :
        governance_binding_mode g r.governance_claim r.governed_claim
        ≡ governance_binding_mode g r'.governance_claim r'.governed_claim

  -- Two requests for which one permit is accepted, whenever this is, are for the same attempt of the
  -- same operation at the same revision, in the same mode, with the same digests of the plan, the
  -- execution spec and the target, the same decision type and admission, the same epoch and process of
  -- the lease and the same way of governance.
  pub fresh_for_one :
      (permit : Fields) (r r' : PermitRequest g) (readings readings' : Readings)
      (dir dir' : LeaseDir)
      → require_fresh g permit r readings dir ≡ ok tt
      → require_fresh g permit r' readings' dir' ≡ ok tt
      → AreOneAttempt r r'
  fresh_for_one permit r r' readings readings' dir dir' h h' =
      let (bound, governed) = require_fresh-IsBound permit r readings dir h in
      let (bound', governed') = require_fresh-IsBound permit r' readings' dir' h' in
      let same_dict : expected_binding g r bound.epoch ≡ expected_binding g r' bound'.epoch =
        all_same_unique permit (expected-HasSameShape r r' bound.epoch bound'.epoch) bound.binds
          bound'.binds in
      let same_mode =
        named_once (get "governance_binding_mode" permit) governed.mode governed'.mode
          governed.names_mode governed'.names_mode in
      record {
        same_operation = ap (λ d. text_at "operation_id" d) same_dict;
        same_attempt = ap (λ d. text_at "attempt_id" d) same_dict;
        same_revision = ap (λ d. number_of (get "operation_revision" d)) same_dict;
        same_plan = ap (λ d. text_at "plan_digest" d) same_dict;
        same_spec = ap (λ d. text_at "execution_spec_digest" d) same_dict;
        same_decision = ap (λ d. text_at "govengine_decision_type" d) same_dict;
        same_admission = ap (λ d. text_at "governance_admission_digest" d) same_dict;
        same_target = ap (λ d. text_at "target_binding_digest" d) same_dict;
        same_mode = ap (λ d. text_at "mode" d) same_dict;
        same_epoch =
            bound.has_epoch
            ∙ ap (λ d. ok (number_of (get "lease_epoch" d))) same_dict
            ∙ sym bound'.has_epoch;
        same_process = ap (λ d. text_at "process_instance_id" d) same_dict;
        same_governance = governed.has_mode ∙ ap (λ m. ok m) same_mode ∙ sym governed'.has_mode;
      }
