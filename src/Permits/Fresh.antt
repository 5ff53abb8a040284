-- ===== src/Permits/Fresh.antt =====
-- A permit that was issued is accepted for its request until it expires.
use Prim.Native.String.append
use rexec_op.Base.{
  ℕ, ◌+◌, ◌<◌, ◌≤◌, String, ◌≡◌, refl, sym, ap, subst, ◌∙◌, true, false, ==_refl, ltb, Result, ok,
  err, arith, ◌>>=◌, >>=-eq-ok, >>=-ok, >>-ok, ok-injective, raise_if-eq_ok, commit-eq_ok,
}
use rexec_op.Base.Int.{ℤ, eq_ℤ_refl}
use rexec_op.Json.{Value, str, obj, Fields, get, put, pop, has, same}
use rexec_op.Json.Python.{Python, text, is_ascii}
use rexec_op.Json.Coerce.{required}
use rexec_op.Json.Laws.{get-put_self, pop_absent, pop-put}
use rexec_op.Attempts.{canonical_digest}
use rexec_op.Lease.{LeaseDir, validate}
use rexec_op.Authority.{GovEngine, aware, compare_digest}
use rexec_op.Storage.Permits.{PermitFiles, save_execution_permit}
use rexec_op.Permits.{
  PermitRequest, governance_binding_mode, claim_of, sha256_of, record_digest, lease_epoch,
  permit_with, permit_record, bind_claim, new_permit, save_new, issue,
}
use rexec_op.Permits.Checks.{
  all_same, Readings, expected_binding, require_bound, require_governed, require_fresh,
}
use rexec_op.Permits.Bound.{IsBound, IsGoverned}
use rexec_op.Permits.Issued.{require-ok, both, earlier, IsIssued, bind_claim-IsIssued}

compare_digest_self : (s : String) → is_ascii s ≡ true → compare_digest s s ≡ ok true
compare_digest_self s h = rw (h, ==_refl s) refl

module _ (g : GovEngine) ⦃py : Python⦄ where
  sha256_of-is_ascii : (v : Value) → is_ascii (sha256_of g v) ≡ true
  unfolding canonical_digest
  sha256_of-is_ascii v =
      rw
        (
          append.cons, append.cons, append.cons, append.cons, append.cons, append.cons, append.cons,
          append.nil,
        )
        (py.sha256_ascii (py.dump v))

  IsBound-require_bound :
      (permit : Fields) (r : PermitRequest g) (now : ℕ)
      → IsBound g permit r now
      → require_bound g permit r now ≡ ok tt
  unfolding require_bound
  IsBound-require_bound permit r now b = >>-ok _ (require-ok _ b.has_schema) (
      >>=-ok _
        (ap (λ s. compare_digest s (record_digest g permit)) b.sealed
          ∙ compare_digest_self (record_digest g permit)
              (sha256_of-is_ascii (obj (pop "permit_digest" permit))))
        (>>-ok _ refl (
          >>=-ok _ b.names_expiry (
            >>=-ok _ b.expires_then (
              >>-ok _ (require-ok _ (earlier b.expires now b.in_time))
                (>>=-ok _ b.has_epoch (require-ok _ b.binds)))))))

  IsGoverned-require_governed :
      (permit : Fields) (r : PermitRequest g) (readings : Readings) (dir : LeaseDir)
      → IsGoverned g permit r readings dir
      → require_governed g permit r readings dir ≡ ok tt
  unfolding require_governed
  IsGoverned-require_governed permit r readings dir b = >>-ok _ b.owned (
      >>=-ok _ b.has_mode (
        >>-ok _ (require-ok _ b.names_mode)
          (>>-ok _ b.claim_checked (require-ok _ (rw b.aims (==_refl r.operation.target))))))

  all_same-expected :
      (r : PermitRequest g) (step_id mode : String) (epoch : ℤ) (issued_at expires_at : String)
      (rest : Fields) (v : Value)
      → all_same
          (expected_binding g r epoch)
          (put "permit_digest" v (permit_with g r step_id mode epoch issued_at expires_at rest))
        ≡ true
  unfolding all_same same
  all_same-expected r step_id mode epoch issued_at expires_at rest v =
      both (==_refl r.operation.id) (
        both (==_refl r.attempt_id) (
          both (eq_ℤ_refl r.operation.operation_revision) (
            both (==_refl (sha256_of g r.plan)) (
              both (==_refl (text (get "digest" r.execution_spec))) (
                both (==_refl r.operation.govengine_decision_type) (
                  both (==_refl r.governance_admission_digest) (
                    both (==_refl (sha256_of g (obj r.target_binding))) (
                      both (==_refl r.operation.mode) (
                        both (eq_ℤ_refl epoch) (
                          both (==_refl (text (get "process_instance_id" r.lease))) (refl)))))))))))

  issued-IsBound :
      (r : PermitRequest g) (step_id mode : String) (epoch : ℤ) (issued_at expires_at : String)
      (rest : Fields) (expires now : ℕ)
      → has "permit_digest" rest ≡ false
      → aware (py.from_iso expires_at) ≡ ok expires
      → now < expires
      → lease_epoch g r.lease ≡ ok epoch
      → let d = permit_with g r step_id mode epoch issued_at expires_at rest in
        IsBound g (put "permit_digest" (str (record_digest g d)) d) r now
  issued-IsBound r step_id mode epoch issued_at expires_at rest expires now fresh read early found =
      let d : Fields = permit_with g r step_id mode epoch issued_at expires_at rest in
      record {
        has_schema = refl;
        sealed =
            rw
              (
                get-put_self "permit_digest" (str (record_digest g d)) rest,
                pop-put "permit_digest" (str (record_digest g d)) rest fresh,
                pop_absent "permit_digest" rest fresh,
              )
              refl;
        expires_at = expires_at;
        names_expiry = refl;
        expires = expires;
        expires_then = read;
        in_time = early;
        epoch = epoch;
        has_epoch = found;
        binds =
            all_same-expected r step_id mode epoch issued_at expires_at rest
              (str (record_digest g d));
      }

  -- How a permit was made.
  record IsMade (r : PermitRequest g) (step_id : String) (now ttl : ℕ) (permit : Fields)
      : Type 0 where
    mode : String
    has_mode : governance_binding_mode g r.governance_claim r.governed_claim ≡ ok mode
    epoch : ℤ
    has_epoch : lease_epoch g r.lease ≡ ok epoch
    bound : Fields
    issued :
        IsIssued g r step_id mode epoch
          (py.iso now)
          (now + ttl)
          r.governed_claim
          (claim_of g r.governance_claim r.governed_claim)
          bound
    sealed : put "permit_digest" (str (record_digest g bound)) bound ≡ permit

  in_range : (n : ℕ) → ltb py.max_instant n ≡ false → n ≤ py.max_instant
  in_range n h = ground arith

  new_permit-IsMade :
      (r : PermitRequest g) (step_id : String) (now ttl : ℕ) {permit : Fields}
      → new_permit g r step_id now ttl ≡ ok permit
      → IsMade r step_id now ttl permit
  unfolding new_permit
  new_permit-IsMade r step_id now ttl h =
      let (mode, has_mode, h₁) =
        >>=-eq-ok (governance_binding_mode g r.governance_claim r.governed_claim) _ h in
      let (epoch, has_epoch, h₂) = >>=-eq-ok (lease_epoch g r.lease) _ h₁ in
      let (small, h₃) = raise_if-eq_ok (ltb py.max_instant (now + ttl)) _ _ h₂ in
      let (bound, made, h₄) =
        >>=-eq-ok
          (bind_claim g r.operation r.governed_claim (py.iso (now + ttl))
            (claim_of g r.governance_claim r.governed_claim)
            (permit_record g r step_id mode epoch (py.iso now) (py.iso (now + ttl))))
          _ h₃ in
      record {
        mode = mode;
        has_mode = has_mode;
        epoch = epoch;
        has_epoch = has_epoch;
        bound = bound;
        issued =
            bind_claim-IsIssued g r step_id mode epoch (py.iso now) (py.iso (now + ttl)) (now + ttl)
              r.governed_claim (claim_of g r.governance_claim r.governed_claim)
              (ap aware (py.from_iso-iso (now + ttl) (in_range (now + ttl) small))) made;
        sealed = ok-injective h₄;
      }

  save_new-eq_ok :
      (permit : Fields) (saved : Result (String × String) × PermitFiles) {permit' : Fields}
      {files : PermitFiles}
      → save_new g permit saved ≡ (ok permit', files)
      → permit ≡ permit'
  save_new-eq_ok permit (ok path, files) h = cc
  save_new-eq_ok permit (err e, files) h = cc

  issue-IsMade :
      (r : PermitRequest g) (step_id : String) (now ttl : ℕ) (files : PermitFiles) {permit : Fields}
      {files' : PermitFiles}
      → issue g r step_id now ttl files ≡ (ok permit, files')
      → IsMade r step_id now ttl permit
  unfolding issue
  issue-IsMade r step_id now ttl files h =
      let (permit', made, saved) = commit-eq_ok (new_permit g r step_id now ttl) _ files h in
      subst (λ p. IsMade r step_id now ttl p)
        (save_new-eq_ok permit' (save_execution_permit permit' files) saved)
        (new_permit-IsMade r step_id now ttl made)

  -- The instant of expiry that a permit names.
  abbrev pub expiry_of : Fields → Result ℕ
  expiry_of permit = required "expires_at" permit >>= λ t. aware (py.from_iso t)

  -- A permit that was issued expires within its time to live, and until then it is accepted for the
  -- request that it was issued for, while the lease is valid, if the target that it binds is that of
  -- the operation.
  pub require_fresh-issue :
      (r : PermitRequest g) (step_id : String) (now ttl : ℕ) (files : PermitFiles)
      (readings : Readings) (dir : LeaseDir) (expires : ℕ) {permit : Fields} {files' : PermitFiles}
      → issue g r step_id now ttl files ≡ (ok permit, files')
      → expiry_of permit ≡ ok expires
      → readings.permit_checked < expires
      → readings.grant_checked < expires
      → validate r.lease readings.lease_checked dir ≡ ok tt
      → text (get "target" r.target_binding) ≡ r.operation.target
      → (expires ≤ now + ttl) × (require_fresh g permit r readings dir ≡ ok tt)
  unfolding require_fresh
  require_fresh-issue r step_id now ttl files readings dir expires {permit} {files'} h read early
        grant_early owned aims =
      let m : IsMade r step_id now ttl permit = issue-IsMade r step_id now ttl files h in
      let i = m.issued in
      let d : Fields = permit_with g r step_id m.mode m.epoch (py.iso now) i.expires_at i.rest in
      let v : Value = str (record_digest g d) in
      let shape : permit ≡ put "permit_digest" v d =
        sym m.sealed ∙ ap (λ b. put "permit_digest" (str (record_digest g b)) b) i.made in
      let same_expiry : i.expires ≡ expires =
        ok-injective (sym i.read ∙ (ap expiry_of (sym shape) ∙ read)) in
      let bound : IsBound g (put "permit_digest" v d) r readings.permit_checked =
        issued-IsBound r step_id m.mode m.epoch (py.iso now) i.expires_at i.rest i.expires
          readings.permit_checked i.undigested i.read
          (subst (λ n. readings.permit_checked < n) (sym same_expiry) early) m.has_epoch in
      let governed : IsGoverned g (put "permit_digest" v d) r readings dir = record {
        owned = owned;
        mode = m.mode;
        has_mode = m.has_mode;
        names_mode = ==_refl m.mode;
        claim_checked =
            i.checked readings.grant_checked v
              (subst (λ n. readings.grant_checked < n) (sym same_expiry) grant_early);
        aims = aims;
      } in
      (
        subst (λ n. n ≤ now + ttl) same_expiry i.within,
        subst (λ p. require_fresh g p r readings dir ≡ ok tt) (sym shape)
            (>>-ok _
              (IsBound-require_bound (put "permit_digest" v d) r readings.permit_checked bound)
              (IsGoverned-require_governed (put "permit_digest" v d) r readings dir governed)),
      )
