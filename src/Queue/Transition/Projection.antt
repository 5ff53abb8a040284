-- ===== src/Queue/Transition/Projection.antt =====
-- The projection of process identities: it always gives a text, and never an owner token.
use rexec_op.Base.{
  String, ◌≡◌, refl, ◌≢◌, true, false, Option, none, some, List, [], ◌∷◌, arith, eq_iff, Bool-cases,
  inl, inr, ◌⊎◌, subst,
}
use rexec_op.Json.{Value}
use rexec_op.Json.Python.{Python, text}
use rexec_op.Queue.Transition.{
  bounded_identity, project, project_process_identity, is_owner_token, first_marker,
  redaction_markers,
}

pub some_inj : {a b : String} → some a ≡ some b → a ≡ b
some_inj h = cc

owner_of :
    (prior current s : String) → is_owner_token prior current s ≡ true → (s ≡ prior) ⊎ (s ≡ current)
owner_of prior current s h = ground (arith, eq_iff s prior, eq_iff s current)

-- A text that is no owner token.
not_owner :
    (prior current s : String)
    → is_owner_token prior current s ≡ false
    → (s ≢ prior) × (s ≢ current)
not_owner prior current s h = (ground (arith, eq_iff s prior), ground (arith, eq_iff s current))

-- What the loop returns is a marker that is no owner token.
first_marker-eq_some :
    (prior current : String) (ms : List String) {m : String}
    → first_marker prior current ms ≡ some m
    → is_owner_token prior current m ≡ false
first_marker-eq_some prior current [] h = cc
first_marker-eq_some prior current (x ∷ ms) h = elim (Bool-cases (is_owner_token prior current x)) [
  | inl taken ↦ first_marker-eq_some prior current ms (rw taken at h)
  | inr free ↦ subst (λ m. is_owner_token prior current m ≡ false) (some_inj (rw free at h)) free
]

not_three :
    (prior current : String)
    → is_owner_token prior current "redacted-process-identity" ≡ true
    → is_owner_token prior current "redacted-process-identity-2" ≡ true
    → is_owner_token prior current "redacted-process-identity-3" ≡ true
    → ⊥
not_three prior current h₁ h₂ h₃ =
    let a : String = "redacted-process-identity" in
    let b : String = "redacted-process-identity-2" in
    let c : String = "redacted-process-identity-3" in
    ground (
      arith,
      owner_of prior current a h₁,
      owner_of prior current b h₂,
      owner_of prior current c h₃,
      eq_iff a b,
      eq_iff a c,
      eq_iff b c,
    )

-- Two tokens cannot be three different markers.
first_marker_total : (prior current : String) → first_marker prior current redaction_markers ≢ none
first_marker_total prior current e =
    elim (Bool-cases (is_owner_token prior current "redacted-process-identity")) [
      | inr f ↦ some≢none (rw f at e)
      | inl h₁ ↦ elim (Bool-cases (is_owner_token prior current "redacted-process-identity-2")) [
        | inr f ↦ some≢none (rw (h₁, f) at e)
        | inl h₂ ↦ elim (Bool-cases (is_owner_token prior current "redacted-process-identity-3")) [
          | inr f ↦ some≢none (rw (h₁, h₂, f) at e)
          | inl h₃ ↦ not_three prior current h₁ h₂ h₃
        ]
      ]
    ]
  where
    some≢none : {a : String} → some a ≢ none
    some≢none h = cc

module _ ⦃py : Python⦄ where
  -- Of any process identity a text is recorded, and it is neither of the two owner tokens.
  pub project_process_identity_safe :
      (v : Value) (prior current : String)
      → (s : String) × (project_process_identity v prior current ≡ some s)
        × (s ≢ prior)
        × (s ≢ current)
  unfolding project_process_identity
  project_process_identity_safe v prior current = go (bounded_identity (text v))
    where
      marked :
          (o : Option String)
          → first_marker prior current redaction_markers ≡ o
          → (s : String) × (o ≡ some s) × (s ≢ prior) × (s ≢ current)
      marked none e = absurd (first_marker_total prior current e)
      marked (some s) e =
          let (a, b) =
            not_owner prior current s (first_marker-eq_some prior current redaction_markers e) in
          (s, refl, a, b)

      go :
          (b : String)
          → (s : String) × (project prior current b ≡ some s) × (s ≢ prior) × (s ≢ current)
      go b = elim (Bool-cases (is_owner_token prior current b)) [
        | inl token ↦ rw token (marked _ refl)
        | inr free ↦ let (x, y) = not_owner prior current b free in (b, rw free, x, y)
      ]
