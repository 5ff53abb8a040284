-- ===== src/Reaction/Evaluator/Choice.antt =====
-- Which rule an evaluation reports, and within which budget.
use rexec_op.Base.{
  String, ◌≡◌, refl, ap, subst, inl, inr, Bool, true, false, contains, List, [], ◌∷◌, ◌++◌, Result,
  ok, err, arith, Bool-cases, ok-injective, err≢ok,
}
use rexec_op.Base.Int.{leb_ℤ, ◌<ℤ◌}
use rexec_op.Json.{Fields}
use rexec_op.Reaction.Evaluator.{
  ReactionRule, ReactionPack, ReactionContext, ReactionEvaluation, all_match, blocked_by, fired,
  unmatched, fire, first_match, evaluate_reaction,
}

-- Rules that do not match.
pub data Fails (observation : Fields) : List ReactionRule → Type 0 where
  fails_nil : Fails observation []
  fails_cons :
      {rule : ReactionRule} {rules : List ReactionRule}
      → all_match rule.conditions observation ≡ ok false
      → Fails observation rules
      → Fails observation (rule ∷ rules)

-- The rules of a list that were tried without a match, and the one that matched.
pub record FirstMatch (observation : Fields) (rules : List ReactionRule) (rule : ReactionRule)
    : Type 0 where
  pub skipped : List ReactionRule
  pub later : List ReactionRule
  pub split : rules ≡ skipped ++ rule ∷ later
  pub fails : Fails observation skipped
  pub holds : all_match rule.conditions observation ≡ ok true

-- The ways in which an evaluation ends.
pub data Ends (pack : ReactionPack) (context : ReactionContext) (observation : Fields)
    (rules : List ReactionRule) : ReactionEvaluation → Type 0 where
  ends_fired :
      (rule : ReactionRule)
      → FirstMatch observation rules rule
      → contains rule.digest context.visited_rule_digests ≡ false
      → Ends pack context observation rules (fired rule)
  ends_blocked : (reason : String) → Ends pack context observation rules (blocked_by pack reason)
  ends_unmatched : Ends pack context observation rules (unmatched pack)

skip :
    (observation : Fields) (r : ReactionRule) (rules : List ReactionRule) (rule : ReactionRule)
    → all_match r.conditions observation ≡ ok false
    → FirstMatch observation rules rule
    → FirstMatch observation (r ∷ rules) rule
skip observation r rules rule failed m = record {
  skipped = r ∷ m.skipped;
  later = m.later;
  split = ap (λ x. r ∷ x) m.split;
  fails = fails_cons failed m.fails;
  holds = m.holds;
}

skip-Ends :
    (pack : ReactionPack) (context : ReactionContext) (observation : Fields) (r : ReactionRule)
    (rules : List ReactionRule) {e : ReactionEvaluation}
    → all_match r.conditions observation ≡ ok false
    → Ends pack context observation rules e
    → Ends pack context observation (r ∷ rules) e
skip-Ends pack context observation r rules failed (ends_fired rule m fresh) =
    ends_fired rule (skip observation r rules rule failed m) fresh
skip-Ends pack context observation r rules failed (ends_blocked reason) = ends_blocked reason
skip-Ends pack context observation r rules failed ends_unmatched = ends_unmatched

fire-Ends :
    (pack : ReactionPack) (context : ReactionContext) (observation : Fields) (rule : ReactionRule)
    (rules : List ReactionRule)
    → all_match rule.conditions observation ≡ ok true
    → Ends pack context observation (rule ∷ rules) (fire pack context rule)
fire-Ends pack context observation rule rules h =
    elim (Bool-cases (contains rule.digest context.visited_rule_digests)) [
      | inl seen ↦ rw seen (ends_blocked "reaction_cycle_detected")
      | inr fresh ↦ rw fresh (
          ends_fired rule
            (record { skipped = []; later = rules; split = refl; fails = fails_nil; holds = h })
            fresh)
    ]

pub first_match-Ends :
    (pack : ReactionPack) (context : ReactionContext) (observation : Fields)
    (rules : List ReactionRule) {e : ReactionEvaluation}
    → first_match pack context observation rules ≡ ok e
    → Ends pack context observation rules e
unfolding first_match
first_match-Ends pack context observation [] h =
    subst (Ends pack context observation []) (ok-injective h) ends_unmatched
first_match-Ends pack context observation (rule ∷ rules) {e} h =
    go (all_match rule.conditions observation) refl
      (λ k. first_match-Ends pack context observation rules k)
  where
    go :
        (m : Result Bool)
        → all_match rule.conditions observation ≡ m
        → (first_match pack context observation rules ≡ ok e
            → Ends pack context observation rules e)
        → Ends pack context observation (rule ∷ rules) e
    go (err x) same ih = absurd (err≢ok (rw same at h))
    go (ok true) same ih =
        subst (Ends pack context observation (rule ∷ rules)) (ok-injective (rw same at h))
          (fire-Ends pack context observation rule rules same)
    go (ok false) same ih = skip-Ends pack context observation rule rules same (ih (rw same at h))

pub evaluate-Ends :
    (pack : ReactionPack) (observation : Fields) (context : ReactionContext)
    {e : ReactionEvaluation}
    → evaluate_reaction pack observation context ≡ ok e
    → Ends pack context observation pack.rules e
unfolding evaluate_reaction
evaluate-Ends pack observation context {e} h =
    elim (Bool-cases (leb_ℤ pack.max_depth context.depth)) [
      | inl deep ↦
          subst (Ends pack context observation pack.rules) (ok-injective (rw deep at h))
            (ends_blocked "max_reaction_depth_exceeded")
      | inr shallow ↦ elim (Bool-cases (leb_ℤ pack.max_reactions context.reaction_count)) [
        | inl spent ↦
            subst (Ends pack context observation pack.rules)
              (ok-injective (rw (shallow, spent) at h)) (ends_blocked "reaction_budget_exhausted")
        | inr left ↦ first_match-Ends pack context observation pack.rules (rw (shallow, left) at h)
      ]
    ]

-- An evaluation that reports a match is within both budgets and reports the first rule whose
-- conditions hold: those before it do not match, its digest is not among those that fired before,
-- and the outcome and the intent are the rule's own.
pub matched_first :
    (pack : ReactionPack) (observation : Fields) (context : ReactionContext)
    {e : ReactionEvaluation}
    → evaluate_reaction pack observation context ≡ ok e
    → e.matched ≡ true
    → (context.depth <ℤ pack.max_depth)
      × (context.reaction_count <ℤ pack.max_reactions)
      × FirstMatch observation pack.rules e.rule
      × (contains e.rule.digest context.visited_rule_digests ≡ false)
      × (e.outcome ≡ e.rule.outcome)
      × (e.intent_ref ≡ e.rule.intent_ref)
unfolding evaluate_reaction
matched_first pack observation context {e} h m =
    elim (Bool-cases (leb_ℤ pack.max_depth context.depth)) [
      | inl deep ↦
          absurd (not_blocked "max_reaction_depth_exceeded" (ok-injective (rw deep at h)) m)
      | inr shallow ↦ elim (Bool-cases (leb_ℤ pack.max_reactions context.reaction_count)) [
        | inl spent ↦
            absurd
              (not_blocked "reaction_budget_exhausted" (ok-injective (rw (shallow, spent) at h)) m)
        | inr left ↦
            let (found, fresh, outcome, intent) =
              of_end
                (first_match-Ends pack context observation pack.rules (rw (shallow, left) at h))
                m in
            (ground (arith, shallow), ground (arith, left), found, fresh, outcome, intent)
      ]
    ]
  where
    not_blocked : (reason : String) → blocked_by pack reason ≡ e → e.matched ≡ true → ⊥
    not_blocked reason same matched = cc

    of_end :
        {e : ReactionEvaluation}
        → Ends pack context observation pack.rules e
        → e.matched ≡ true
        → FirstMatch observation pack.rules e.rule
          × (contains e.rule.digest context.visited_rule_digests ≡ false)
          × (e.outcome ≡ e.rule.outcome)
          × (e.intent_ref ≡ e.rule.intent_ref)
    of_end (ends_fired rule found fresh) matched = (found, fresh, refl, refl)
    of_end (ends_blocked reason) matched = cc
    of_end ends_unmatched matched = cc
