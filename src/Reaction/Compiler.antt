-- ===== src/Reaction/Compiler.antt =====
-- reaction/compiler.py: from the document of a reaction pack to the pack. The loading of the file
-- is not here: `compile_document` starts from its root.
pub mod ReadOnly
use Prim.Native.String
use Prim.Native.String.{count}
use package.text.Mathlib.Text.{is_le}
use rexec_op.Base.{
  ℕ, String, Bool, true, false, not, ◌&&◌, ◌||◌, ◌==◌, nat_eq, leb, ltb, contains, distinct, any,
  all, length, Option, none, some, List, [], ◌∷◌, ◌++◌, map, if◌then◌else◌, Result, ok, err,
  builtin_error, validation_error, ◌>>=◌, ◌>>◌, raise_if,
}
use rexec_op.Base.Int.{ℤ, pos, leb_ℤ, ltb_ℤ, eq_ℤ}
use rexec_op.Json.{
  Value, null, bool, int, str, arr, obj, nil, cons, Fields, end, field, get, has, put, keys, bit,
  to_list, of_list,
}
use rexec_op.Json.Python.{Python, text, to_text, strip}
use rexec_op.Attempts.{starts_with}
use rexec_op.Reaction.Evaluator.{ReactionCondition, ReactionRule, ReactionPack, is_within}
use rexec_op.Reaction.Rules.{
  mapping, strict_keys, condition_value, bounded_text, int_at, rule, rules,
}

abbrev pub pack_keys : List String
pack_keys = "id" ∷ "version" ∷ "budgets" ∷ "rules" ∷ "fallback" ∷ []

-- `sorted(rules, key=lambda item: (item.priority, item.rule_id))`
abbrev comes_before : ReactionRule → ReactionRule → Bool
comes_before a b =
    if eq_ℤ a.priority b.priority
    then is_le (String.compare a.rule_id b.rule_id)
    else ltb_ℤ a.priority b.priority

abbrev pub insert_rule : ReactionRule → List ReactionRule → List ReactionRule
insert_rule r [] = r ∷ []
insert_rule r (q ∷ qs) = if comes_before r q then r ∷ q ∷ qs else q ∷ insert_rule r qs

abbrev pub sorted_rules : List ReactionRule → List ReactionRule
sorted_rules [] = []
sorted_rules (r ∷ rs) = insert_rule r (sorted_rules rs)

module _ ⦃py : Python⦄ (intent_metadata : String → Result Fields)
    (artifact_sha256 : Value → String) where
  abbrev pub fingerprint : ReactionRule → String
  fingerprint r = artifact_sha256 (arr (of_list (map condition_value r.conditions)))

  abbrev pub raw_rules : Value → Result (List Value)
  raw_rules (arr (cons v xs)) = ok (v ∷ to_list xs)
  raw_rules _ = err (validation_error "reaction_pack.rules must contain 1..")

  -- The metadata of the intents that the rules refer to, by intent.
  abbrev add_intent : ReactionRule → Fields → Result Fields
  add_intent r d = elim r.intent_ref [
    | none ↦ ok d
    | some intent ↦ (do metadata ← intent_metadata intent; ok (put intent (obj metadata) d))
  ]

  abbrev pub intents : List ReactionRule → Fields → Result Fields
  intents [] d = ok d
  intents (r ∷ rs) d = do more ← add_intent r d; intents rs more

  abbrev pub within : ℤ → ℤ → ℤ → Bool
  within low n high = leb_ℤ low n && leb_ℤ n high

  -- The parts of `compile_reaction_pack`: the budgets and the rules.
  unfoldable pub read_budgets : Fields → Result (ℤ × ℤ)
  read_budgets pack = do
    budgets ← mapping (get "budgets" pack)
    strict_keys budgets ("max_depth" ∷ "max_reactions" ∷ [])
    max_depth ← int_at intent_metadata artifact_sha256 "max_depth" budgets
    max_reactions ← int_at intent_metadata artifact_sha256 "max_reactions" budgets
    raise_if
        (not (within (pos 1) max_depth (pos 32)) || not (within (pos 1) max_reactions (pos 1024)))
        (validation_error "reaction budgets are outside bounded limits")
    ok (max_depth, max_reactions)

  unfoldable pub read_rules : Fields → Result (List ReactionRule)
  unfolding rules
  read_rules pack = do
    raw ← raw_rules (get "rules" pack)
    raise_if (ltb 128 (length raw)) (validation_error "reaction_pack.rules must contain 1..")
    compiled ← rules intent_metadata artifact_sha256 raw
    raise_if (not (distinct (map (λ r. r.rule_id) compiled)))
        (validation_error "reaction rule ids must be unique")
    raise_if (not (distinct (map fingerprint compiled)))
        (validation_error "ambiguous reaction conditions: ")
    ok compiled

  unfoldable pub read_pack : Value → Result Fields
  read_pack document = do
    root ← mapping document
    pack ← mapping (get "reaction_pack" root)
    strict_keys pack pack_keys
    ok pack

  -- The pack that `compile_reaction_pack` returns.
  unfoldable pub assembled :
      Value
      → Fields
      → String
      → String
      → ℤ × ℤ
      → List ReactionRule
      → ReactionRule
      → Fields
      → ReactionPack
  assembled contract pack pack_id version budgets ordered fallback intent_records = record {
    pack_id = pack_id;
    version = version;
    max_depth = budgets.0;
    max_reactions = budgets.1;
    rules = ordered;
    fallback = fallback;
    digest = artifact_sha256 (obj pack);
    profile_digest = artifact_sha256 (
        obj (
          field "contract" contract (
            field "reaction_pack_digest" (str (artifact_sha256 (obj pack)))
              (field "intents" (obj intent_records) end))));
  }

  -- What `compile_reaction_pack` does with the document it has loaded; `contract` is the profile's.
  unfoldable pub compile_document : Value → Value → Result ReactionPack
  unfolding rule read_budgets read_rules read_pack assembled
  compile_document contract document = do
    pack ← read_pack document
    pack_id ← bounded_text intent_metadata artifact_sha256 (get "id" pack) 128
    version ← bounded_text intent_metadata artifact_sha256 (get "version" pack) 64
    budgets ← read_budgets pack
    compiled ← read_rules pack
    fallback ← rule intent_metadata artifact_sha256 true (get "fallback" pack)
    intent_records ← intents (sorted_rules compiled ++ fallback ∷ []) end
    ok (
        assembled contract pack pack_id version budgets (sorted_rules compiled) fallback
          intent_records)
