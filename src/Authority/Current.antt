-- ===== src/Authority/Current.antt =====
-- The checks of a governed attempt: the operation mode, and the bindings of the request.
use rexec_op.Base.{
  String, ◌≡◌, refl, sym, ap, ◌∙◌, Bool, true, false, not, ◌||◌, ◌==◌, Option, none, some, List, [],
  ◌∷◌, ◌++◌, contains, ok, both_true, eq_iff, ok-injective, >>=-eq-ok, >>-eq-ok,
}
use rexec_op.Json.{Value, null, bool, int, str, arr, obj, Fields, get, is_text}
use rexec_op.Authority.{
  RuntimeAttemptGovernanceFacts, GovEngine, facts_dict, drift_from, raise_drift,
}
use rexec_op.Authority.Consumed.{Binds, drift_from-Binds}
use rexec_op.Authority.Attempt.{
  Lookup, raised, invalid, answered, require_unless, asserted, dict_or_drift, runtime_attempt_drift,
  require_unrevoked, require_governance_request_bindings, require_mode,
}

pub require_unless-eq_ok :
    (bad : Bool) (reason_code : String) → require_unless bad reason_code ≡ ok tt → not bad ≡ true
require_unless-eq_ok false reason_code h = refl
require_unless-eq_ok true reason_code h = cc

pub require_unrevoked-eq_ok :
    (found : Lookup) → require_unrevoked found ≡ ok tt → found ≡ answered false
require_unrevoked-eq_ok raised h = cc
require_unrevoked-eq_ok invalid h = cc
require_unrevoked-eq_ok (answered false) h = refl
require_unrevoked-eq_ok (answered true) h = cc

dict_or_drift-eq_ok :
    (v : Value) (reason_code : String) {d : Fields} → dict_or_drift v reason_code ≡ ok d → v ≡ obj d
dict_or_drift-eq_ok (obj d) reason_code h = ap obj (ok-injective h)
dict_or_drift-eq_ok null reason_code h = cc
dict_or_drift-eq_ok (bool b) reason_code h = cc
dict_or_drift-eq_ok (int n) reason_code h = cc
dict_or_drift-eq_ok (str s) reason_code h = cc
dict_or_drift-eq_ok (arr xs) reason_code h = cc

is_text-eq_str : (s : String) (v : Value) → is_text s v ≡ true → v ≡ str s
is_text-eq_str s (str t) h = ap str ((eq_iff t s).0 h)
is_text-eq_str s null h = cc
is_text-eq_str s (bool b) h = cc
is_text-eq_str s (int n) h = cc
is_text-eq_str s (arr xs) h = cc
is_text-eq_str s (obj d) h = cc

pub asserted-eq_ok :
    {A : Type 0} (found : Option A) {a : A} → asserted found ≡ ok a → found ≡ some a
asserted-eq_ok none h = cc
asserted-eq_ok (some a) h = ap some (ok-injective h)

no_drift :
    (reason_code : String) (drift later : List String)
    → raise_drift reason_code (drift ++ later) ≡ ok tt
    → (drift ≡ []) × (later ≡ [])
no_drift reason_code [] [] h = (refl, refl)
no_drift reason_code [] (key ∷ keys) h = cc
no_drift reason_code (key ∷ keys) later h = cc

some_drift : {k : String} → ◌≡◌ {A = List String} (k ∷ []) [] → ⊥
some_drift e = cc

-- The dict of the runtime attempt binds the facts.
bound_attempt :
    (v : Value) (expected : Fields)
    → runtime_attempt_drift v expected ≡ ok []
    → (d : Fields) × (v ≡ obj d) × Binds d expected
bound_attempt (obj d) expected h = (d, refl, drift_from-Binds d expected h)
bound_attempt null expected h = absurd (some_drift (ok-injective h))
bound_attempt (bool b) expected h = absurd (some_drift (ok-injective h))
bound_attempt (int n) expected h = absurd (some_drift (ok-injective h))
bound_attempt (str s) expected h = absurd (some_drift (ok-injective h))
bound_attempt (arr xs) expected h = absurd (some_drift (ok-injective h))

pub undo_negation : (b : Bool) → not (not b) ≡ true → b ≡ true
undo_negation true h = refl
undo_negation false h = cc

pub neither : (a b : Bool) → not (not a || not b) ≡ true → (a ≡ true) × (b ≡ true)
neither true true h = (refl, refl)
neither true false h = cc
neither false b h = cc

module _ (g : GovEngine) where
  -- The operation mode that was expected is that of the admission and of the request.
  pub record HasMode (mode : String) (admission : g.Admission) (request : g.GovernanceRequest)
      : Type 0 where
    pub changes : contains mode ("apply" ∷ "recovery" ∷ []) ≡ true
    pub admits : g.actual_operation_mode admission ≡ mode
    pub metadata : Fields
    pub has_metadata : get "metadata" (g.execution_facts request) ≡ obj metadata
    pub requests : get "actual_operation_mode" metadata ≡ str mode

  -- The request names the attempt in its attributes and in its execution facts.
  pub record NamesAttempt (request : g.GovernanceRequest) (facts : RuntimeAttemptGovernanceFacts)
      : Type 0 where
    pub attributes : Binds (facts_dict (g.request_facts request)) (facts_dict facts)
    pub attempt : Fields
    pub has_attempt : get "runtime_attempt" (g.execution_facts request) ≡ obj attempt
    pub binds : Binds attempt (facts_dict facts)

  pub require_mode-HasMode :
      (mode : String) (admission : g.Admission) (request : g.GovernanceRequest)
      → require_mode g mode admission request ≡ ok tt
      → HasMode mode admission request
  unfolding require_mode
  require_mode-HasMode mode admission request h =
      let (known, h₁) =
        >>-eq-ok (require_unless (not (contains mode ("apply" ∷ "recovery" ∷ []))) _) _ h in
      let (metadata, found, h₂) =
        >>=-eq-ok (dict_or_drift (get "metadata" (g.execution_facts request)) _) _ h₁ in
      let (same_mode, requested) = both_true (mode == g.actual_operation_mode admission) _ (
        undo_negation _
          (require_unless-eq_ok _ "governed_attempt_actual_operation_mode_drift" h₂)) in
      let admitted : mode ≡ g.actual_operation_mode admission =
        (eq_iff mode (g.actual_operation_mode admission)).0 same_mode in
      record {
        changes =
            undo_negation _
              (require_unless-eq_ok _ "governed_attempt_operation_mode_invalid" known);
        admits = sym admitted;
        metadata = metadata;
        has_metadata = dict_or_drift-eq_ok _ "governed_attempt_actual_operation_mode_drift" found;
        requests =
            is_text-eq_str _ (get "actual_operation_mode" metadata) requested
            ∙ ap str (sym admitted);
      }

  pub request_bindings-NamesAttempt :
      (request : g.GovernanceRequest) (facts : RuntimeAttemptGovernanceFacts)
      → require_governance_request_bindings g request facts ≡ ok tt
      → NamesAttempt request facts
  unfolding require_governance_request_bindings
  request_bindings-NamesAttempt request facts h =
      let (drift, found, h₁) =
        >>=-eq-ok (drift_from (facts_dict (g.request_facts request)) (facts_dict facts)) _ h in
      let (later, found_later, h₂) =
        >>=-eq-ok
          (runtime_attempt_drift (get "runtime_attempt" (g.execution_facts request))
            (facts_dict facts))
          _ h₁ in
      let (none_first, none_later) = no_drift "governed_attempt_binding_drift" drift later h₂ in
      let (attempt, has_attempt, binds) =
        bound_attempt (get "runtime_attempt" (g.execution_facts request)) (facts_dict facts)
          (found_later ∙ ap (λ l. ok l) none_later) in
      record {
        attributes = drift_from-Binds _ _ (found ∙ ap (λ l. ok l) none_first);
        attempt = attempt;
        has_attempt = has_attempt;
        binds = binds;
      }
