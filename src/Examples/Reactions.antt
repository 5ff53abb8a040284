-- ===== src/Examples/Reactions.antt =====
-- A reaction pack of one rule that asks for a check when a disk is full.
use rexec_op.Base.{
  String, ◌≡◌, refl, false, contains, none, some, [], ◌∷◌, Result, ok, err, validation_error, ◌==◌,
  if◌then◌else◌,
}
use rexec_op.Base.Int.{pos, ◌<ℤ◌}
use rexec_op.Json.{Value, same, null, int, str, arr, obj, of_list, Fields, end, field}
use rexec_op.Reaction.Evaluator.{
  ReactionRule, ReactionPack, ReactionContext, evaluate_reaction, fired,
}
use rexec_op.Reaction.Evaluator.Choice.{FirstMatch, matched_first}
use rexec_op.Reaction.Compiler.{compile_document}
use rexec_op.Reaction.Rules.{condition, read_only_intent}
use rexec_op.Reaction.Compiler.ReadOnly.{IsReadOnly, reacts_readonly}
use rexec_op.Examples.Toy.{toy}

abbrev metadata_of : String → Result Fields
metadata_of intent =
    if intent == "check_disk"
    then ok (field "modes" (arr (of_list (str "observe" ∷ []))) end)
    else err (validation_error "unknown intent")

abbrev digest_of : Value → String
digest_of v = "digest"

abbrev condition_full : Value
condition_full = obj (
    field "path" (str "facts.full")
      (field "operator" (str "equals") (field "value" (int (pos 1)) end)))

abbrev finding : Value
finding =
    obj
      (field "kind" (str "disk") (field "severity" (str "high") (field "summary" (str "full") end)))

abbrev rule_full : Value
rule_full = obj (
    field "id" (str "full") (
      field "when" (arr (of_list (condition_full ∷ []))) (
        field "finding" finding
          (field "outcome" (str "run_intent") (field "intent_ref" (str "check_disk") end)))))

abbrev rule_fallback : Value
rule_fallback =
    obj (field "id" (str "none") (field "finding" finding (field "outcome" (str "no_op") end)))

abbrev document : Value
document = obj (
    field "reaction_pack"
      (obj (
        field "id" (str "p") (
          field "version" (str "1") (
            field "budgets"
              (obj (field "max_depth" (int (pos 2)) (field "max_reactions" (int (pos 5)) end)))
              (field "rules" (arr (of_list (rule_full ∷ [])))
                (field "fallback" rule_fallback end))))))
      end)

abbrev observation : Fields
observation = field "facts" (obj (field "full" (int (pos 1)) end)) end

abbrev context : ReactionContext
context = record { depth = pos 0; reaction_count = pos 0; visited_rule_digests = [] }

abbrev full_rule : ReactionRule
full_rule = record {
  rule_id = "full";
  priority = pos 0;
  conditions = record { path = "facts.full"; operation = "equals"; value = int (pos 1) } ∷ [];
  finding_kind = "disk";
  finding_severity = "high";
  finding_summary = "full";
  outcome = "run_intent";
  intent_ref = some "check_disk";
  digest = "digest";
}

abbrev pack : ReactionPack
pack = record {
  pack_id = "p";
  version = "1";
  max_depth = pos 2;
  max_reactions = pos 5;
  rules = full_rule ∷ [];
  fallback = record {
    rule_id = "none";
    priority = pos 0;
    conditions = [];
    finding_kind = "disk";
    finding_severity = "high";
    finding_summary = "full";
    outcome = "no_op";
    intent_ref = none;
    digest = "digest";
  };
  digest = "digest";
  profile_digest = "digest";
}

compiled : compile_document metadata_of digest_of null document ≡ ok pack
unfolding compile_document condition read_only_intent
compiled = refl

evaluated : evaluate_reaction pack observation context ≡ ok (fired full_rule)
unfolding evaluate_reaction same
evaluated = refl

matched_first_example :
    (pos 0 <ℤ pos 2)
    × (pos 0 <ℤ pos 5)
    × FirstMatch observation pack.rules full_rule
    × (contains "digest" [] ≡ false)
    × (full_rule.outcome ≡ full_rule.outcome)
    × (full_rule.intent_ref ≡ full_rule.intent_ref)
matched_first_example = matched_first pack observation context evaluated refl

reacts_readonly_example : IsReadOnly metadata_of digest_of "check_disk"
reacts_readonly_example =
    reacts_readonly metadata_of digest_of null document observation context "check_disk" compiled
      evaluated refl
