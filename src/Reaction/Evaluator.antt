-- ===== src/Reaction/Evaluator.antt =====
-- reaction/evaluator.py: which rule of a reaction pack fires on an observation. The types are those
-- of reaction/model.py. An observation is a JSON object with integers as its numbers.
pub mod Choice
use Prim.Native.Char.{code}
use Prim.Native.String
use rexec_op.Base.{
  ℕ, String, Bool, true, false, not, ◌==◌, nat_eq, contains, any, ◌||◌, Option, none, some, List,
  [], ◌∷◌, if◌then◌else◌, Result, ok, err, builtin_error,
}
use rexec_op.Attempts.{starts_with}
use rexec_op.Base.Int.{ℤ, leb_ℤ, ltb_ℤ}
use rexec_op.Json.{
  Value, bool, int, str, arr, obj, Items, nil, cons, Fields, get, has, same, bit, to_list,
}

pub record ReactionCondition : Type 0 where
  pub path : String
  -- `operator` in the source
  pub operation : String
  pub value : Value

pub record ReactionRule : Type 0 where
  pub rule_id : String
  pub priority : ℤ
  pub conditions : List ReactionCondition
  pub finding_kind : String
  pub finding_severity : String
  pub finding_summary : String
  pub outcome : String
  pub intent_ref : Option String
  pub digest : String

pub record ReactionPack : Type 0 where
  pub pack_id : String
  pub version : String
  pub max_depth : ℤ
  pub max_reactions : ℤ
  pub rules : List ReactionRule
  pub fallback : ReactionRule
  pub digest : String
  pub profile_digest : String

pub record ReactionContext : Type 0 where
  pub depth : ℤ
  pub reaction_count : ℤ
  pub visited_rule_digests : List String

pub record ReactionEvaluation : Type 0 where
  pub rule : ReactionRule
  pub outcome : String
  pub intent_ref : Option String
  pub reason : String
  pub matched : Bool
  pub blocked : Bool

-- `path.split(".")`
abbrev push_to_first : String → List String → List String
push_to_first c [] = c ∷ []
push_to_first c (x ∷ xs) = String.◌++◌ c x ∷ xs

abbrev pub split_dots : String → List String
split_dots String.[] = "" ∷ []
split_dots (String.◌∷◌ c s) =
    if nat_eq (code c) 46
    then "" ∷ split_dots s
    else push_to_first (String.◌∷◌ c String.[]) (split_dots s)

-- `_resolve`; `none` is `_MISSING`.
abbrev step_into : String → Value → Option Value
step_into part (obj d) = if has part d then some (get part d) else none
step_into part _ = none

unfoldable pub resolve_parts : Value → List String → Option Value
resolve_parts v [] = some v
resolve_parts v (part ∷ parts) = elim (step_into part v) [
  | none ↦ none
  | some w ↦ resolve_parts w parts
]

unfoldable pub resolve : Fields → String → Option Value
unfolding resolve_parts
resolve observation path = resolve_parts (obj observation) (split_dots path)

-- `text in other` on texts
abbrev pub is_within : String → String → Bool
is_within t String.[] = starts_with String.[] t
is_within t (String.◌∷◌ c s) = starts_with (String.◌∷◌ c s) t || is_within t s

-- `actual in value`; a list or a dict is no key of a dict.
abbrev pub is_in : Value → Value → Result Bool
is_in actual (arr xs) = ok (any (same actual) (to_list xs))
is_in (str k) (obj d) = ok (has k d)
is_in (arr xs) (obj d) = err builtin_error
is_in (obj e) (obj d) = err builtin_error
is_in actual (obj d) = ok false
is_in (str t) (str s) = ok (is_within t s)
is_in actual value = err builtin_error

-- A comparison of a number with a number or a bool; a bool compares as 0 or 1.
abbrev compares : (ℤ → ℤ → Bool) → ℤ → Value → Result Bool
compares test n (int m) = ok (test n m)
compares test n (bool b) = ok (test n (bit b))
compares test n _ = err builtin_error

abbrev compare_by : String → ℤ → Value → Result Bool
compare_by operation n value =
    if operation == "gt"
    then compares (λ a b. ltb_ℤ b a) n value
    else if operation == "gte"
    then compares (λ a b. leb_ℤ b a) n value
    else if operation == "lt"
    then compares ltb_ℤ n value
    else if operation == "lte"
    then compares leb_ℤ n value
    else ok false

abbrev compare_number : String → Value → Value → Result Bool
compare_number operation (int n) value = compare_by operation n value
compare_number operation _ value = ok false

abbrev matches_value : ReactionCondition → Value → Result Bool
matches_value c actual =
    if c.operation == "equals"
    then ok (same actual c.value)
    else if c.operation == "not_equals"
    then ok (not (same actual c.value))
    else if c.operation == "in"
    then is_in actual c.value
    else compare_number c.operation actual c.value

abbrev matches_resolved : ReactionCondition → Option Value → Result Bool
matches_resolved c none = ok false
matches_resolved c (some actual) =
    if c.operation == "exists" then ok true else matches_value c actual

-- `_matches`
unfoldable pub matches : ReactionCondition → Fields → Result Bool
unfolding resolve
matches c observation = matches_resolved c (resolve observation c.path)

-- `all(_matches(condition, observation) for condition in conditions)`
abbrev stop_at_false : Result Bool → Result Bool → Result Bool
stop_at_false (err e) rest = err e
stop_at_false (ok false) rest = ok false
stop_at_false (ok true) rest = rest

unfoldable pub all_match : List ReactionCondition → Fields → Result Bool
unfolding matches
all_match [] observation = ok true
all_match (c ∷ cs) observation =
    let rest = all_match cs observation in stop_at_false (matches c observation) rest

abbrev pub blocked_by : ReactionPack → String → ReactionEvaluation
blocked_by pack reason = record {
  rule = pack.fallback;
  outcome = "escalate";
  intent_ref = none;
  reason = reason;
  matched = false;
  blocked = true;
}

abbrev pub fired : ReactionRule → ReactionEvaluation
fired rule = record {
  rule = rule;
  outcome = rule.outcome;
  intent_ref = rule.intent_ref;
  reason = String.◌++◌ "matched:" rule.rule_id;
  matched = true;
  blocked = false;
}

abbrev pub unmatched : ReactionPack → ReactionEvaluation
unmatched pack = record {
  rule = pack.fallback;
  outcome = pack.fallback.outcome;
  intent_ref = pack.fallback.intent_ref;
  reason = "no_matching_reaction_rule";
  matched = false;
  blocked = false;
}

-- The rule that matched, against the digests of the rules that fired before.
abbrev pub fire : ReactionPack → ReactionContext → ReactionRule → ReactionEvaluation
fire pack context rule =
    if contains rule.digest context.visited_rule_digests
    then blocked_by pack "reaction_cycle_detected"
    else fired rule

abbrev pub choose :
    ReactionPack
    → ReactionContext
    → ReactionRule
    → Result Bool
    → Result ReactionEvaluation
    → Result ReactionEvaluation
choose pack context rule (err e) rest = err e
choose pack context rule (ok true) rest = ok (fire pack context rule)
choose pack context rule (ok false) rest = rest

-- The loop over the rules.
unfoldable pub first_match :
    ReactionPack → ReactionContext → Fields → List ReactionRule → Result ReactionEvaluation
unfolding all_match
first_match pack context observation [] = ok (unmatched pack)
first_match pack context observation (rule ∷ rules) =
    let rest = first_match pack context observation rules in
    choose pack context rule (all_match rule.conditions observation) rest

unfoldable pub evaluate_reaction :
    ReactionPack → Fields → ReactionContext → Result ReactionEvaluation
unfolding first_match
evaluate_reaction pack observation context =
    if leb_ℤ pack.max_depth context.depth
    then ok (blocked_by pack "max_reaction_depth_exceeded")
    else if leb_ℤ pack.max_reactions context.reaction_count
    then ok (blocked_by pack "reaction_budget_exhausted")
    else first_match pack context observation pack.rules
