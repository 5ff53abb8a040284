-- ===== src/Storage/Governance/Once.antt =====
-- A governance decision is claimed once.
use mathlib.Core.Bool.{false≢true}
use rexec_op.Base.{
  String, ◌≡◌, ◌≢◌, refl, ◌⊎◌, inl, inr, true, ◌==◌, ==_refl, Option, List, [], ◌∷◌, ok, arith,
  Bool-cases, err≢ok, ok-injective,
}
use rexec_op.Json.{Fields}
use rexec_op.Json.Python.{Python}
use rexec_op.Storage.Governance.{
  Claim, Directory, is_invalid, exists, with_key, is_used, with_claim, decision_record,
  nonce_record, claim_governance_decision_once,
}

exists-with_key :
    (key k : String) (d : Fields) (files : String → Option Fields)
    → exists (files k) ≡ true
    → exists (with_key key d files k) ≡ true
exists-with_key key k d files h = elim (Bool-cases (k == key)) [
  | inl same ↦ rw same refl
  | inr other ↦ rw other h
]

module _ ⦃py : Python⦄ where
  -- Both files of a claim are there.
  record IsTaken (c : Claim) (dir : Directory) : Type 0 where
    decision : exists (dir.decisions (py.sha256 c.decision_digest)) ≡ true
    nonce : exists (dir.nonces (py.sha256 c.nonce)) ≡ true

  with_claim-IsTaken : (c : Claim) (dir : Directory) → IsTaken c (with_claim c dir)
  with_claim-IsTaken c dir = record {
    decision = rw (==_refl (py.sha256 c.decision_digest)) refl;
    nonce = rw (==_refl (py.sha256 c.nonce)) refl;
  }

  claim-IsTaken :
      (c : Claim) (dir : Directory)
      → (claim_governance_decision_once c dir).0 ≡ ok true
      → IsTaken c (claim_governance_decision_once c dir).1
  unfolding claim_governance_decision_once
  claim-IsTaken c dir h = elim (Bool-cases (is_invalid c)) [
    | inl bad ↦ absurd (err≢ok (rw bad at h))
    | inr fine ↦ elim (Bool-cases (is_used c dir)) [
      | inl used ↦ absurd (false≢true (ok-injective (rw (fine, used) at h)))
      | inr new ↦ rw (fine, new) (with_claim-IsTaken c dir)
    ]
  ]

  claim_keeps :
      (c c' : Claim) (dir : Directory)
      → IsTaken c dir
      → IsTaken c (claim_governance_decision_once c' dir).1
  unfolding claim_governance_decision_once
  claim_keeps c c' dir h = elim (Bool-cases (is_invalid c')) [
    | inl bad ↦ rw bad h
    | inr fine ↦ elim (Bool-cases (is_used c' dir)) [
      | inl used ↦ rw (fine, used) h
      | inr new ↦
          rw (fine, new)
            (record {
              decision =
                  exists-with_key (py.sha256 c'.decision_digest) (py.sha256 c.decision_digest)
                    (decision_record c') dir.decisions h.decision;
              nonce =
                  exists-with_key (py.sha256 c'.nonce) (py.sha256 c.nonce) (nonce_record c')
                    dir.nonces h.nonce;
            })
    ]
  ]

  reused-is_used :
      (c again : Claim) (dir : Directory)
      → IsTaken c dir
      → ((again.decision_digest ≡ c.decision_digest) ⊎ (again.nonce ≡ c.nonce))
      → is_used again dir ≡ true
  reused-is_used c again dir taken (inl same) = rw same (ground (arith, taken.decision))
  reused-is_used c again dir taken (inr same) = rw same (ground (arith, taken.nonce))

  refused :
      (again : Claim) (dir : Directory)
      → is_used again dir ≡ true
      → ((claim_governance_decision_once again dir).0 ≢ ok true)
        × ((claim_governance_decision_once again dir).1 ≡ dir)
  unfolding claim_governance_decision_once
  refused again dir used = elim (Bool-cases (is_invalid again)) [
    | inl bad ↦ rw bad (λ h. err≢ok h, refl)
    | inr fine ↦ rw (fine, used) (λ h. false≢true (ok-injective h), refl)
  ]

  -- Calls in a row.
  abbrev pub after_claims : List Claim → Directory → Directory
  after_claims [] dir = dir
  after_claims (c ∷ cs) dir = after_claims cs (claim_governance_decision_once c dir).1

  claims_keep :
      (cs : List Claim) (c : Claim) (dir : Directory)
      → IsTaken c dir
      → IsTaken c (after_claims cs dir)
  claims_keep [] c dir h = h
  claims_keep (c' ∷ cs) c dir h = claims_keep cs c _ (claim_keeps c c' dir h)

  -- After a claim that was granted, whatever is claimed in between, a claim of the same decision or
  -- with the same nonce is not granted and writes nothing.
  pub claimed_once :
      (c again : Claim) (dir : Directory) (between : List Claim)
      → (claim_governance_decision_once c dir).0 ≡ ok true
      → ((again.decision_digest ≡ c.decision_digest) ⊎ (again.nonce ≡ c.nonce))
      → let later = after_claims between (claim_governance_decision_once c dir).1 in
        ((claim_governance_decision_once again later).0 ≢ ok true)
        × ((claim_governance_decision_once again later).1 ≡ later)
  claimed_once c again dir between h reused =
      let later = after_claims between (claim_governance_decision_once c dir).1 in
      refused again later
        (reused-is_used c again later (claims_keep between c _ (claim-IsTaken c dir h)) reused)
