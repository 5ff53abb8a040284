-- ===== src/Reaction/Rules.antt =====
-- reaction/compiler.py: one rule of a reaction pack, from its JSON form. The profile's
-- `intent_metadata` and `artifact_sha256` of the package sclite are arguments. A message keeps its
-- first fixed part.
use Prim.Native.String.{count}
use rexec_op.Base.{
  ℕ, String, Bool, true, false, not, ◌&&◌, ◌||◌, ◌==◌, ltb, contains, all, length, Option, none,
  some, List, [], ◌∷◌, map, if◌then◌else◌, Result, ok, err, builtin_error, validation_error, ◌>>=◌,
  ◌>>◌, raise_if,
}
use rexec_op.Base.Int.{ℤ, pos}
use rexec_op.Json.{
  Value, null, bool, int, str, arr, obj, nil, cons, Fields, end, field, get, has, keys, bit,
  to_list, of_list,
}
use rexec_op.Json.Python.{Python, text, to_text, strip}
use rexec_op.Attempts.{starts_with}
use rexec_op.Reaction.Evaluator.{ReactionCondition, ReactionRule, is_within}

abbrev pub operators : List String
operators = "equals" ∷ "not_equals" ∷ "in" ∷ "exists" ∷ "gt" ∷ "gte" ∷ "lt" ∷ "lte" ∷ []

abbrev pub outcomes : List String
outcomes = "run_intent" ∷ "retry_intent" ∷ "escalate" ∷ "no_op" ∷ []

abbrev pub severities : List String
severities = "info" ∷ "low" ∷ "medium" ∷ "high" ∷ "critical" ∷ []

abbrev pub rule_keys : List String
rule_keys = "id" ∷ "priority" ∷ "when" ∷ "finding" ∷ "outcome" ∷ "intent_ref" ∷ []

abbrev pub condition_keys : List String
condition_keys = "path" ∷ "operator" ∷ "value" ∷ []

abbrev pub finding_keys : List String
finding_keys = "kind" ∷ "severity" ∷ "summary" ∷ []

abbrev pub comparisons : List String
comparisons = "gt" ∷ "gte" ∷ "lt" ∷ "lte" ∷ []

abbrev pub readonly_intent_modes : List String
readonly_intent_modes = "observe" ∷ "dry_run" ∷ "emergency_readonly" ∷ "read_only" ∷ []

-- `_mapping`
abbrev pub mapping : Value → Result Fields
mapping (obj d) = ok d
mapping _ = err (validation_error " must be a mapping")

-- `_strict_keys`
abbrev pub strict_keys : Fields → List String → Result (Unit {0})
strict_keys d allowed =
    raise_if (not (all (λ k. contains k allowed) (keys d)))
      (validation_error " has unsupported fields: ")

abbrev pub is_list : Value → Bool
is_list (arr xs) = true
is_list _ = false

-- `isinstance(v, (int, float))`; a bool is an int.
abbrev pub is_number : Value → Bool
is_number (int n) = true
is_number (bool b) = true
is_number _ = false

-- `ReactionCondition.as_dict`
abbrev pub condition_dict : ReactionCondition → Fields
condition_dict c = field "path" (str c.path) (
    field "operator" (str c.operation)
      (if c.operation == "exists" then end else field "value" c.value end))

abbrev pub condition_value : ReactionCondition → Value
condition_value c = obj (condition_dict c)

module _ ⦃py : Python⦄ (intent_metadata : String → Result Fields)
    (artifact_sha256 : Value → String) where
  -- `_text`
  abbrev pub bounded_text : Value → ℕ → Result String
  bounded_text v maximum =
      let result = strip (text v) in
      raise_if (result == "" || ltb maximum (count result)) (validation_error " must be 1..")
      >> ok result

  -- `int(v)`
  abbrev pub to_int : Value → Result ℤ
  to_int (int n) = ok n
  to_int (bool b) = ok (bit b)
  to_int (str s) = elim (py.parse_int s) [ none ↦ err builtin_error | some n ↦ ok n ]
  to_int _ = err builtin_error

  -- `int(d.get(key, 0))`
  abbrev pub int_at : String → Fields → Result ℤ
  int_at key d = if has key d then to_int (get key d) else ok (pos 0)

  abbrev pub declared_modes : Value → Result (List Value)
  declared_modes (arr (cons v xs)) = ok (v ∷ to_list xs)
  declared_modes _ = err (validation_error "reaction intent must declare read-only modes: ")

  abbrev pub is_readonly_mode : Value → Bool
  is_readonly_mode v = contains (to_text v) readonly_intent_modes

  -- `_read_only_intent`
  unfoldable pub read_only_intent : String → Result (Unit {0})
  read_only_intent intent_ref = do
    metadata ← intent_metadata intent_ref
    modes ← declared_modes (get "modes" metadata)
    raise_if (not (all is_readonly_mode modes))
        (validation_error "reaction intent may not declare mutating modes: ")

  -- `_condition`
  unfoldable pub condition : Value → Result ReactionCondition
  condition raw = do
    item ← mapping raw
    strict_keys item condition_keys
    path ← bounded_text (get "path" item) 256
    raise_if (not (starts_with path "facts.") || is_within ".." path)
        (validation_error ".path must start with facts.")
    operation ← bounded_text (get "operator" item) 32
    raise_if (not (contains operation operators)) (validation_error ".operator is unsupported: ")
    raise_if (not (operation == "exists") && not (has "value" item))
        (validation_error ".value is required")
    raise_if (operation == "in" && not (is_list (get "value" item)))
        (validation_error ".value must be a list for in")
    raise_if (contains operation comparisons && not (is_number (get "value" item)))
        (validation_error ".value must be numeric")
    ok (record { path = path; operation = operation; value = get "value" item })

  unfoldable pub conditions : List Value → Result (List ReactionCondition)
  unfolding condition
  conditions [] = ok []
  conditions (v ∷ vs) = do c ← condition v; cs ← conditions vs; ok (c ∷ cs)

  abbrev pub named : String → Option String
  named s = if s == "" then none else some s

  -- The checks of `intent_ref` against the outcome.
  abbrev pub check_intent : String → Option String → Result (Unit {0})
  check_intent outcome none =
      raise_if (outcome == "run_intent" || outcome == "retry_intent")
        (validation_error ".intent_ref is required for ")
  check_intent outcome (some intent_ref) =
      if outcome == "run_intent" || outcome == "retry_intent"
      then read_only_intent intent_ref
      else err (validation_error ".intent_ref is not allowed for ")

  abbrev pub raw_conditions : Bool → Fields → Result (List Value)
  raw_conditions fallback item =
      let raw = if has "when" item then get "when" item else arr nil in when_list raw
    where
      when_list : Value → Result (List Value)
      when_list (arr nil) =
          if fallback then ok [] else err (validation_error ".when must be a non-empty list")
      when_list (arr (cons v xs)) = ok (v ∷ to_list xs)
      when_list _ = err (validation_error ".when must be a non-empty list")

  abbrev pub intent_value : Option String → Value
  intent_value none = null
  intent_value (some s) = str s

  -- The record whose digest a rule carries.
  abbrev pub canonical_rule : ReactionRule → Value
  canonical_rule r = obj (
      field "id" (str r.rule_id) (
        field "priority" (int r.priority) (
          field "when" (arr (of_list (map condition_value r.conditions))) (
            field "finding"
              (obj (
                field "kind" (str r.finding_kind) (
                  field "severity" (str r.finding_severity)
                    (field "summary" (str r.finding_summary) end))))
              (field "outcome" (str r.outcome)
                (field "intent_ref" (intent_value r.intent_ref) end))))))

  -- The parts of `_rule`: the conditions, the finding, and the outcome with its intent.
  unfoldable pub rule_conditions : Bool → Fields → Result (List ReactionCondition)
  unfolding conditions
  rule_conditions fallback item = do
    raw ← raw_conditions fallback item
    raise_if (ltb 16 (length raw)) (validation_error ".when exceeds ")
    conditions raw

  unfoldable pub rule_finding : Fields → Result (String × String × String)
  rule_finding item = do
    finding ← mapping (get "finding" item)
    strict_keys finding finding_keys
    kind ← bounded_text (get "kind" finding) 128
    severity ← bounded_text (get "severity" finding) 16
    raise_if (not (contains severity severities))
        (validation_error ".finding.severity is unsupported: ")
    summary ← bounded_text (get "summary" finding) 512
    ok (kind, severity, summary)

  unfoldable pub rule_outcome : Fields → Result (String × Option String)
  rule_outcome item = do
    outcome ← bounded_text (get "outcome" item) 32
    raise_if (not (contains outcome outcomes)) (validation_error ".outcome is unsupported: ")
    check_intent outcome (named (strip (text (get "intent_ref" item))))
    ok (outcome, named (strip (text (get "intent_ref" item))))

  abbrev pub with_digest : ReactionRule → ReactionRule
  with_digest r = record r { digest = artifact_sha256 (canonical_rule r) }

  -- `_rule`
  unfoldable pub rule : Bool → Value → Result ReactionRule
  unfolding rule_conditions rule_finding rule_outcome
  rule fallback raw = do
    item ← mapping raw
    strict_keys item rule_keys
    rule_id ← bounded_text (get "id" item) 128
    priority ← int_at "priority" item
    compiled ← rule_conditions fallback item
    finding ← rule_finding item
    fires ← rule_outcome item
    ok (
        with_digest (record {
          rule_id = rule_id;
          priority = priority;
          conditions = compiled;
          finding_kind = finding.0;
          finding_severity = finding.1;
          finding_summary = finding.2;
          outcome = fires.0;
          intent_ref = fires.1;
          digest = "";
        }))

  unfoldable pub rules : List Value → Result (List ReactionRule)
  unfolding rule
  rules [] = ok []
  rules (v ∷ vs) = do r ← rule false v; rs ← rules vs; ok (r ∷ rs)
