-- ===== src/Posture.antt =====
-- runtime/mutation_posture.py: whether a runtime may execute operations that change their target.
-- The environment variable's text is an argument, "" where it is not set.
use rexec_op.Base.{
  String, ◌≡◌, refl, ◌↔◌, ◌⊎◌, inl, inr, Bool, true, false, not, Option, none, some, List, [], ◌∷◌,
  arith, ◌==◌, contains, if◌then◌else◌, Result, ok, err, mutation_not_certified, ◌>>=◌, raise_if,
  Bool-cases, err≢ok, ok-injective, subst,
}
use rexec_op.Json.Python.{Python, strip}

-- adapters/govengine_port/contracts.py: MUTATING_MODES and `is_mutating_mode`
abbrev pub mutating_modes : List String
mutating_modes = "apply" ∷ "recovery" ∷ []

abbrev pub is_mutating_mode : String → Bool
is_mutating_mode mode = contains mode mutating_modes

-- SUPPORTED_MUTATION_POSTURES
abbrev pub supported_mutation_postures : List String
supported_mutation_postures = "stable_read_only" ∷ "lab_only" ∷ []

abbrev IsSupported : String → Type 0
IsSupported posture = contains posture supported_mutation_postures ≡ true

abbrev posture_text : Option String → String → String
posture_text none environment = environment
posture_text (some value) environment = value

module _ ⦃py : Python⦄ where
  unfoldable pub resolve_mutation_posture : Option String → String → Result String
  resolve_mutation_posture value environment =
      let posture = py.lower (strip (posture_text value environment)) in
      if posture == ""
      then ok "stable_read_only"
      else if contains posture supported_mutation_postures
      then ok posture
      else err (mutation_not_certified "unsupported REXECOP_MUTATION_POSTURE value")

  abbrev is_lab_only : Result String → Bool
  is_lab_only (ok posture) = posture == "lab_only"
  is_lab_only (err e) = false

  unfoldable pub mutation_execution_enabled : Option String → String → Bool
  mutation_execution_enabled value environment =
      is_lab_only (resolve_mutation_posture value environment)

  unfoldable pub require_mutation_execution_enabled :
      String → Option String → String → Result (Unit {0})
  require_mutation_execution_enabled mode value environment =
      if not (is_mutating_mode mode) then ok tt else (do
        posture ← resolve_mutation_posture value environment
        raise_if (not (posture == "lab_only"))
            (mutation_not_certified "mutation_not_certified: stable runtime posture is read-only"))

  -- `require_mutation_execution_enabled` lets a mode pass exactly when it does not mutate or
  -- `mutation_execution_enabled` says yes.
  pub require_mutation_iff :
      (mode : String) (value : Option String) (environment : String)
      → (require_mutation_execution_enabled mode value environment ≡ ok tt)
        ↔ ((is_mutating_mode mode ≡ false) ⊎ (mutation_execution_enabled value environment ≡ true))
  unfolding require_mutation_execution_enabled mutation_execution_enabled
  require_mutation_iff mode value environment = elim (Bool-cases (is_mutating_mode mode)) [
    | inr reads ↦ (λ _. inl reads, λ _. rw reads)
    | inl mutates ↦ go (resolve_mutation_posture value environment) refl mutates
  ]
    where
      go :
          (r : Result String)
          → resolve_mutation_posture value environment ≡ r
          → is_mutating_mode mode ≡ true
          → (require_mutation_execution_enabled mode value environment ≡ ok tt) ↔ (
              (is_mutating_mode mode ≡ false)
              ⊎ (mutation_execution_enabled value environment ≡ true))
      go (err e) p m = rw (p, m) (λ h. absurd (err≢ok h), λ h. ground arith)
      go (ok posture) p m = elim (Bool-cases (posture == "lab_only")) [
        | inl lab ↦ (λ _. inr (rw (p, lab)), λ _. rw (m, p, lab))
        | inr other ↦ rw (p, m, other) (λ h. absurd (err≢ok h), λ h. ground arith)
      ]

  -- A posture that is resolved is one of the two supported ones.
  resolve_mutation_posture-IsSupported :
      (value : Option String) (environment : String) {posture : String}
      → resolve_mutation_posture value environment ≡ ok posture
      → IsSupported posture
  unfolding resolve_mutation_posture
  resolve_mutation_posture-IsSupported value environment h =
      let set = py.lower (strip (posture_text value environment)) in
      elim (Bool-cases (set == "")) [
        | inl unset ↦ subst IsSupported (ok-injective (rw unset at h)) refl
        | inr other ↦ elim (Bool-cases (contains set supported_mutation_postures)) [
          | inl known ↦ subst IsSupported (ok-injective (rw (other, known) at h)) known
          | inr unknown ↦ absurd (err≢ok (rw (other, unknown) at h))
        ]
      ]
