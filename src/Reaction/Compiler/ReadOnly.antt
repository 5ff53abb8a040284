-- ===== src/Reaction/Compiler/ReadOnly.antt =====
-- A compiled reaction runs only intents whose declared modes are all read-only.
use rexec_op.Base.{
  String, ◌≡◌, refl, ap, ◌∙◌, subst, inl, inr, Bool, true, false, not, ◌||◌, ◌==◌, contains, all,
  Option, none, some, List, [], ◌∷◌, ◌++◌, if◌then◌else◌, Result, ok, err, Error, raise_if, ltb,
  length, distinct, map, Bool-cases, ok-injective, >>=-eq-ok, >>-eq-ok, raise_if-eq_ok,
}
use rexec_op.Json.{Value, Fields, end, get}
use rexec_op.Json.Python.{Python, strip, text}
use rexec_op.Reaction.Evaluator.{
  ReactionRule, ReactionPack, ReactionContext, ReactionEvaluation, evaluate_reaction,
}
use rexec_op.Reaction.Evaluator.Choice.{
  Ends, ends_fired, ends_blocked, ends_unmatched, evaluate-Ends,
}
use rexec_op.Reaction.Rules.{
  read_only_intent, check_intent, rule, rules, is_readonly_mode, mapping, strict_keys, bounded_text,
  int_at, declared_modes, named, rule_keys, outcomes, rule_conditions, rule_finding, rule_outcome,
}
use rexec_op.Reaction.Compiler.{
  compile_document, insert_rule, sorted_rules, comes_before, raw_rules, intents, fingerprint,
  read_budgets, read_rules, read_pack, assembled,
}

-- Each rule of a list has a property.
data Every (P : ReactionRule → Type 0) : List ReactionRule → Type 0 where
  every_nil : Every P []
  every_cons : {r : ReactionRule} {rs : List ReactionRule} → P r → Every P rs → Every P (r ∷ rs)

Every-insert_rule :
    (P : ReactionRule → Type 0) (r : ReactionRule) (rs : List ReactionRule)
    → P r
    → Every P rs
    → Every P (insert_rule r rs)
Every-insert_rule P r [] p h = every_cons p every_nil
Every-insert_rule P r (q ∷ qs) p (every_cons h hs) = elim (Bool-cases (comes_before r q)) [
  | inl before ↦ rw before (every_cons p (every_cons h hs))
  | inr after ↦ rw after (every_cons h (Every-insert_rule P r qs p hs))
]

Every-sorted_rules :
    (P : ReactionRule → Type 0) (rs : List ReactionRule) → Every P rs → Every P (sorted_rules rs)
Every-sorted_rules P [] h = every_nil
Every-sorted_rules P (r ∷ rs) (every_cons p h) =
    Every-insert_rule P r (sorted_rules rs) p (Every-sorted_rules P rs h)

Every-split :
    (P : ReactionRule → Type 0) (skipped : List ReactionRule) (r : ReactionRule)
    (later : List ReactionRule)
    → Every P (skipped ++ r ∷ later)
    → P r
Every-split P [] r later (every_cons p h) = p
Every-split P (q ∷ qs) r later (every_cons p h) = Every-split P qs r later h

module _ ⦃py : Python⦄ (intent_metadata : String → Result Fields)
    (artifact_sha256 : Value → String) where
  -- The profile declares a non-empty list of modes for the intent, each of them read-only.
  pub record IsReadOnly (intent : String) : Type 0 where
    pub metadata : Fields
    pub declared : intent_metadata intent ≡ ok metadata
    pub modes : List Value
    pub listed : declared_modes intent_metadata artifact_sha256 (get "modes" metadata) ≡ ok modes
    pub safe : all (is_readonly_mode intent_metadata artifact_sha256) modes ≡ true

  abbrev RunsReadOnly : ReactionRule → Type 0
  RunsReadOnly r = (intent : String) → r.intent_ref ≡ some intent → IsReadOnly intent

  read_only_intent-IsReadOnly :
      (intent : String)
      → read_only_intent intent_metadata artifact_sha256 intent ≡ ok tt
      → IsReadOnly intent
  unfolding read_only_intent
  read_only_intent-IsReadOnly intent h =
      let (metadata, declared, h₁) = >>=-eq-ok (intent_metadata intent) _ h in
      let (modes, listed, h₂) =
        >>=-eq-ok (declared_modes intent_metadata artifact_sha256 (get "modes" metadata)) _ h₁ in
      record {
        metadata = metadata;
        declared = declared;
        modes = modes;
        listed = listed;
        safe = passed (all (is_readonly_mode intent_metadata artifact_sha256) modes) _ h₂;
      }
    where
      passed : (b : Bool) (e : Error) → raise_if (not b) e ≡ ok tt → b ≡ true
      passed true e h = refl
      passed false e h = cc

  check_intent-safe :
      (outcome : String) (found : Option String) (intent : String)
      → check_intent intent_metadata artifact_sha256 outcome found ≡ ok tt
      → found ≡ some intent
      → IsReadOnly intent
  check_intent-safe outcome none intent h e = cc
  check_intent-safe outcome (some given) intent h e =
      go (outcome == "run_intent" || outcome == "retry_intent") _ h
    where
      same : given ≡ intent
      same = cc

      go :
          (b : Bool) (x : Error)
          → (if b then read_only_intent intent_metadata artifact_sha256 given else err x) ≡ ok tt
          → IsReadOnly intent
      go true x h = read_only_intent-IsReadOnly intent (rw same at h)
      go false x h = cc

  rule_outcome-safe :
      (item : Fields) {fires : String × Option String} (intent : String)
      → rule_outcome intent_metadata artifact_sha256 item ≡ ok fires
      → fires.1 ≡ some intent
      → IsReadOnly intent
  unfolding rule_outcome
  rule_outcome-safe item intent h refers =
      let (outcome, _, h₁) =
        >>=-eq-ok (bounded_text intent_metadata artifact_sha256 (get "outcome" item) 32) _ h in
      let (_, h₂) = raise_if-eq_ok (not (contains outcome outcomes)) _ _ h₁ in
      let found = named intent_metadata artifact_sha256 (strip (text (get "intent_ref" item))) in
      let (checked, made) =
        >>-eq-ok (check_intent intent_metadata artifact_sha256 outcome found) _ h₂ in
      check_intent-safe outcome found intent checked (ap (λ x. x.1) (ok-injective made) ∙ refers)

  rule-RunsReadOnly :
      (fallback : Bool) (raw : Value) {r : ReactionRule}
      → rule intent_metadata artifact_sha256 fallback raw ≡ ok r
      → RunsReadOnly r
  unfolding rule
  rule-RunsReadOnly fallback raw {r} h =
      let (item, _, h₁) = >>=-eq-ok (mapping raw) _ h in
      let (_, h₂) = >>-eq-ok (strict_keys item rule_keys) _ h₁ in
      let (rule_id, _, h₃) =
        >>=-eq-ok (bounded_text intent_metadata artifact_sha256 (get "id" item) 128) _ h₂ in
      let (priority, _, h₄) =
        >>=-eq-ok (int_at intent_metadata artifact_sha256 "priority" item) _ h₃ in
      let (compiled, _, h₅) =
        >>=-eq-ok (rule_conditions intent_metadata artifact_sha256 fallback item) _ h₄ in
      let (finding, _, h₆) = >>=-eq-ok (rule_finding intent_metadata artifact_sha256 item) _ h₅ in
      let (fires, fired', made) =
        >>=-eq-ok (rule_outcome intent_metadata artifact_sha256 item) _ h₆ in
      λ intent refers.
        rule_outcome-safe item intent fired' (ap (λ x. x.intent_ref) (ok-injective made) ∙ refers)

  rules-RunsReadOnly :
      (raw : List Value) {rs : List ReactionRule}
      → rules intent_metadata artifact_sha256 raw ≡ ok rs
      → Every RunsReadOnly rs
  unfolding rules
  rules-RunsReadOnly [] h = subst (Every RunsReadOnly) (ok-injective h) every_nil
  rules-RunsReadOnly (v ∷ vs) h =
      let (r, first, h₁) = >>=-eq-ok (rule intent_metadata artifact_sha256 false v) _ h in
      let (rs, later, made) = >>=-eq-ok (rules intent_metadata artifact_sha256 vs) _ h₁ in
      subst (Every RunsReadOnly) (ok-injective made)
        (every_cons (rule-RunsReadOnly false v first) (rules-RunsReadOnly vs later))

  read_rules-RunsReadOnly :
      (pack : Fields) {rs : List ReactionRule}
      → read_rules intent_metadata artifact_sha256 pack ≡ ok rs
      → Every RunsReadOnly rs
  unfolding read_rules
  read_rules-RunsReadOnly pack h =
      let (raw, _, h₁) =
        >>=-eq-ok (raw_rules intent_metadata artifact_sha256 (get "rules" pack)) _ h in
      let (_, h₂) = raise_if-eq_ok (ltb 128 (length raw)) _ _ h₁ in
      let (compiled, read, h₃) = >>=-eq-ok (rules intent_metadata artifact_sha256 raw) _ h₂ in
      let (_, h₄) = raise_if-eq_ok (not (distinct (map (λ r. r.rule_id) compiled))) _ _ h₃ in
      let (_, made) =
        raise_if-eq_ok (not (distinct (map (fingerprint intent_metadata artifact_sha256) compiled)))
          _ _ h₄ in
      subst (Every RunsReadOnly) (ok-injective made) (rules-RunsReadOnly raw read)

  compile-RunsReadOnly :
      (contract document : Value) {pack : ReactionPack}
      → compile_document intent_metadata artifact_sha256 contract document ≡ ok pack
      → Every RunsReadOnly pack.rules × RunsReadOnly pack.fallback
  unfolding compile_document
  compile-RunsReadOnly contract document {pack} h =
      let (raw, _, h₃) = >>=-eq-ok (read_pack intent_metadata artifact_sha256 document) _ h in
      let (pack_id, _, h₄) =
        >>=-eq-ok (bounded_text intent_metadata artifact_sha256 (get "id" raw) 128) _ h₃ in
      let (version, _, h₅) =
        >>=-eq-ok (bounded_text intent_metadata artifact_sha256 (get "version" raw) 64) _ h₄ in
      let (budgets, _, h₆) = >>=-eq-ok (read_budgets intent_metadata artifact_sha256 raw) _ h₅ in
      let (compiled, read, h₇) = >>=-eq-ok (read_rules intent_metadata artifact_sha256 raw) _ h₆ in
      let (fallback, back, h₈) =
        >>=-eq-ok (rule intent_metadata artifact_sha256 true (get "fallback" raw)) _ h₇ in
      let (records, _, made) =
        >>=-eq-ok
          (intents intent_metadata artifact_sha256 (sorted_rules compiled ++ fallback ∷ []) end) _
          h₈ in
      subst (λ p. Every RunsReadOnly p.rules × RunsReadOnly p.fallback) (ok-injective made)
        (unfold assembled in
          (
            Every-sorted_rules RunsReadOnly compiled (read_rules-RunsReadOnly raw read),
            rule-RunsReadOnly true (get "fallback" raw) back,
          ))

  intent_of_end :
      (pack : ReactionPack) (context : ReactionContext) (observation : Fields) (intent : String)
      {e : ReactionEvaluation}
      → Every RunsReadOnly pack.rules
      → RunsReadOnly pack.fallback
      → Ends pack context observation pack.rules e
      → e.intent_ref ≡ some intent
      → IsReadOnly intent
  intent_of_end pack context observation intent all' back (ends_fired r found fresh) refers =
      Every-split RunsReadOnly found.skipped r found.later
        (subst (Every RunsReadOnly) found.split all') intent refers
  intent_of_end pack context observation intent all' back (ends_blocked reason) refers = cc
  intent_of_end pack context observation intent all' back ends_unmatched refers = back intent refers

  -- Whatever a compiled pack makes of an observation, an intent that it asks to run is one for which
  -- the profile declares read-only modes, and no others.
  pub reacts_readonly :
      (contract document : Value) (observation : Fields) (context : ReactionContext)
      (intent : String) {pack : ReactionPack} {e : ReactionEvaluation}
      → compile_document intent_metadata artifact_sha256 contract document ≡ ok pack
      → evaluate_reaction pack observation context ≡ ok e
      → e.intent_ref ≡ some intent
      → IsReadOnly intent
  reacts_readonly contract document observation context intent {pack} {e} compiled evaluated
        refers =
      let (all', back) = compile-RunsReadOnly contract document compiled in
      intent_of_end pack context observation intent all' back
        (evaluate-Ends pack observation context evaluated) refers
