-- ===== src/Workflow/Runner/Loop.antt =====
-- What the loop of `WorkflowRunner.run` has done when it ends.
use rexec_op.Base.{
  ℕ, zero, suc, ◌+◌, ◌<◌, String, ◌≡◌, refl, sym, ap, subst, ◌∙◌, ◌⊎◌, inl, inr, true, false, ◌||◌,
  Option, List, [], ◌∷◌, ◌++◌, arith, ==_refl, length, all, contains, Result, ok, Action,
  ok-injective, map_ok-eq_ok, Bool-cases,
}
use rexec_op.Base.Actions.{go_on-eq_ok, by_branch}
use rexec_op.Base.Int.{ℤ}
use rexec_op.Json.{Value, str, obj, Fields, put, is_text}
use rexec_op.Json.Python.{Python}
use rexec_op.Workflow.Steps.{
  id_of, as_dict, StepExecutionResult, EvidenceSink, Execution, RunArguments, Progress, Round,
  Outcome, is_listed, listed, readonly_modes, continue_on_error, is_used_up, goes_on, stops,
  finished, failed,
}
use rexec_op.Workflow.Runner.{
  after_success, after_failure, after_round, continued, run_step, loop, started, completed,
  failed_at,
}

abbrev pub progress_of : Outcome → Progress
progress_of (finished p) = p
progress_of (failed p step_id r) = p

abbrev index_of : Round → ℕ
index_of (goes_on p) = p.index
index_of (stops p step_id r) = p.index

pair-ok : {A S : Type 0} {a b : A} {s t : S} → ◌≡◌ {A = Result A × S} (ok a, s) (ok b, t) → a ≡ b
pair-ok e = ok-injective (ap (λ x. x.0) e)

is_listed-append_one :
    (a b : String) (xs : List Value)
    → is_listed a (xs ++ str b ∷ []) ≡ (is_listed a xs || is_text a (str b))
is_listed-append_one a b [] = ground arith
is_listed-append_one a b (x ∷ xs) = ground (arith, is_listed-append_one a b xs)

listed-here : (a : String) (xs : List Value) → is_listed a (listed a xs) ≡ true
listed-here a xs = elim (Bool-cases (is_listed a xs)) [
  | inl old ↦ rw (old, old)
  | inr new ↦ rw (new, is_listed-append_one a a xs, ==_refl a) (ground arith)
]

listed-keeps :
    (a b : String) (xs : List Value) → is_listed a xs ≡ true → is_listed a (listed b xs) ≡ true
listed-keeps a b xs h = elim (Bool-cases (is_listed b xs)) [
  | inl old ↦ rw (old, h)
  | inr new ↦ rw (new, is_listed-append_one a b xs, h)
]

-- Only the modes that change nothing go on after a failure.
continues_in :
    (step : Fields) (mode : String)
    → continue_on_error step mode ≡ true
    → contains mode readonly_modes ≡ true
unfolding continue_on_error
continues_in step mode h = ground (arith, h)

module _ {World : Type 0} (execution : Execution World) ⦃py : Python⦄
    (sink : Option (EvidenceSink World)) (arguments : RunArguments) where
  -- The ways in which a round ends that starts at an index with a list of executed steps.
  data IsRound (step : Fields) (index : ℕ) (executed : List Value) : Round → Type 0 where
    step_succeeded :
        {q : Progress}
        → q.index ≡ suc index
        → q.executed ≡ listed (id_of step) executed
        → IsRound step index executed (goes_on q)
    step_continues :
        {q : Progress}
        → q.index ≡ suc index
        → q.executed ≡ executed
        → continue_on_error step arguments.mode ≡ true
        → IsRound step index executed (goes_on q)
    step_stopped :
        {q : Progress} (r : StepExecutionResult)
        → q.index ≡ index
        → q.executed ≡ executed
        → IsRound step index executed (stops q (id_of step) r)

  after_success-IsRound :
      (step : Fields) (p : Progress) (r : StepExecutionResult) (w : World) {round : Round}
      {w' : World}
      → after_success execution sink arguments step p r w ≡ (ok round, w')
      → IsRound step p.index p.executed round
  after_success-IsRound step p r w h =
      let (_, w₁, _, h₁) = go_on-eq_ok (completed execution sink (id_of step) r w) _ h in
      subst (IsRound step p.index p.executed) (pair-ok h₁) (step_succeeded refl refl)

  continued-IsRound :
      (step : Fields) (p : Progress) (r : StepExecutionResult) {round : Round}
      → continue_on_error step arguments.mode ≡ true
      → continued execution sink arguments step p r ≡ ok round
      → IsRound step p.index p.executed round
  continued-IsRound step p r c h =
      let (_, _, e) = map_ok-eq_ok _ _ h in
      subst (IsRound step p.index p.executed) e (step_continues refl refl c)

  after_failure-IsRound :
      (step : Fields) (p : Progress) (r : StepExecutionResult) (w : World) {round : Round}
      {w' : World}
      → after_failure execution sink arguments step p r w ≡ (ok round, w')
      → IsRound step p.index p.executed round
  after_failure-IsRound step p r w h =
      let (_, w₁, _, h₁) = go_on-eq_ok (failed_at execution sink (id_of step) r w) _ h in
      by_branch (continue_on_error step arguments.mode) _ _ w₁ h₁
        (λ c e. continued-IsRound step p r c (ap (λ x. x.0) e))
        (λ _ e. subst (IsRound step p.index p.executed) (pair-ok e) (step_stopped r refl refl))

  run_step-IsRound :
      (step : Fields) (p : Progress) (w : World) {round : Round} {w' : World}
      → run_step execution sink arguments step p w ≡ (ok round, w')
      → IsRound step p.index p.executed round
  unfolding run_step
  run_step-IsRound step p w h =
      let (_, w₁, _, h₁) = go_on-eq_ok (started execution sink (id_of step) w) _ h in
      let ((r, state), w₂, _, h₂) = go_on-eq_ok (execution.execute _ p.results w₁) _ h₁ in
      let q : Progress = record p {
        state = state;
        results = put (id_of step) (obj (as_dict r)) p.results;
      } in
      by_branch r.success _ _ w₂ h₂ (λ _ e. after_success-IsRound step q r w₂ e)
        (λ _ e. after_failure-IsRound step q r w₂ e)

  -- A round that goes on moves to the next index.
  pub run_step-index :
      (step : Fields) (p q : Progress) (w : World) {w' : World}
      → run_step execution sink arguments step p w ≡ (ok (goes_on q), w')
      → q.index ≡ suc p.index
  run_step-index step p q w h = moved (run_step-IsRound step p w h) refl
    where
      moved :
          {round : Round}
          → IsRound step p.index p.executed round
          → round ≡ goes_on q
          → q.index ≡ suc p.index
      moved (step_succeeded next _) e = ap index_of (sym e) ∙ next
      moved (step_continues next _ _) e = ap index_of (sym e) ∙ next
      moved (step_stopped r _ _) e = cc

  abbrev pub StopsAt : Option ℤ → ℕ → List Fields → Outcome → Type 0
  StopsAt limit n rest (finished q) = (rest ≡ []) ⊎ (is_used_up limit n ≡ true)
  StopsAt limit n rest (failed q step_id r) =
      (step : Fields) × (later : List Fields) × (rest ≡ step ∷ later) × (step_id ≡ id_of step)

  -- The steps that a loop went through, after `n` steps before it.
  pub record Covers (limit : Option ℤ) (n : ℕ) (steps : List Fields) (index : ℕ)
      (executed : List Value) (outcome : Outcome) : Type 0 where
    pub passed : List Fields
    pub rest : List Fields
    pub split : steps ≡ passed ++ rest
    pub moved : (progress_of outcome).index ≡ index + length passed
    pub within : (j : ℕ) → j < length passed → is_used_up limit (n + j) ≡ false
    pub kept :
        (a : String)
        → is_listed a executed ≡ true
        → is_listed a (progress_of outcome).executed ≡ true
    pub succeeded :
        contains arguments.mode readonly_modes ≡ false
        → all (λ s. is_listed (id_of s) (progress_of outcome).executed) passed ≡ true
    pub stops_at : StopsAt limit (n + length passed) rest outcome

  no_more : (n : ℕ) → n ≡ n + 0
  no_more n = omega arith

  one_more : (n m : ℕ) → suc n + m ≡ n + suc m
  one_more n m = omega arith

  at_once :
      (limit : Option ℤ) (n : ℕ) (steps : List Fields) (p : Progress)
      → ((steps ≡ []) ⊎ (is_used_up limit n ≡ true))
      → Covers limit n steps p.index p.executed (finished p)
  at_once limit n steps p why = record {
    passed = [];
    rest = steps;
    split = refl;
    moved = omega arith;
    within = λ j h. absurd (omega arith);
    kept = λ a h. h;
    succeeded = λ h. refl;
    stops_at = subst (λ k. StopsAt limit k steps (finished p)) (no_more n) why;
  }

  -- A round that went on, before the rounds that follow.
  after_step :
      (limit : Option ℤ) (n : ℕ) (step : Fields) (steps : List Fields) (index : ℕ)
      (executed : List Value) (q : Progress) {outcome : Outcome}
      → is_used_up limit n ≡ false
      → q.index ≡ suc index
      → ((a : String) → is_listed a executed ≡ true → is_listed a q.executed ≡ true)
      → (contains arguments.mode readonly_modes ≡ false → is_listed (id_of step) q.executed ≡ true)
      → Covers limit (suc n) steps q.index q.executed outcome
      → Covers limit n (step ∷ steps) index executed outcome
  after_step limit n step steps index executed q {outcome} open' next keeps done c = record {
    passed = step ∷ c.passed;
    rest = c.rest;
    split = ap (λ x. step ∷ x) c.split;
    moved = omega (arith, c.moved, next);
    within = within;
    kept = λ a h. c.kept a (keeps a h);
    succeeded = λ h. ground (arith, c.kept (id_of step) (done h), c.succeeded h);
    stops_at =
        subst (λ k. StopsAt limit k c.rest outcome) (one_more n (length c.passed)) c.stops_at;
  }
    where
      within : (j : ℕ) → j < suc (length c.passed) → is_used_up limit (n + j) ≡ false
      within zero h = subst (λ k. is_used_up limit k ≡ false) (no_more n) open'
      within (suc j) h =
          subst (λ k. is_used_up limit k ≡ false) (one_more n j) (c.within j (omega arith))

  after_round-Covers :
      (limit : Option ℤ) (n : ℕ) (step : Fields) (steps : List Fields) (index : ℕ)
      (executed : List Value) (more : Progress → Action World Outcome) (w : World)
      {outcome : Outcome} {w' : World} (round : Round)
      → is_used_up limit n ≡ false
      → ((q : Progress)
          → more q w ≡ (ok outcome, w')
          → Covers limit (suc n) steps q.index q.executed outcome)
      → IsRound step index executed round
      → after_round execution sink arguments more round w ≡ (ok outcome, w')
      → Covers limit n (step ∷ steps) index executed outcome
  after_round-Covers limit n step steps index executed more w _ open' ih
        (step_succeeded {q} next lists) h =
      after_step limit n step steps index executed q open' next
        (λ a l. rw lists (listed-keeps a (id_of step) executed l))
        (λ _. rw lists (listed-here (id_of step) executed)) (ih q h)
  after_round-Covers limit n step steps index executed more w _ open' ih
        (step_continues {q} next lists allowed) h =
      after_step limit n step steps index executed q open' next (λ a l. rw lists l)
        (λ strict. absurd (refused strict)) (ih q h)
    where
      refused : contains arguments.mode readonly_modes ≡ false → ⊥
      refused strict = ground (arith, continues_in step arguments.mode allowed)
  after_round-Covers limit n step steps index executed more w _ open' ih
        (step_stopped {q} r same lists) h =
      subst (Covers limit n (step ∷ steps) index executed) (pair-ok h) (record {
        passed = [];
        rest = step ∷ steps;
        split = refl;
        moved = omega (arith, same);
        within = λ j l. absurd (omega arith);
        kept = λ a l. rw lists l;
        succeeded = λ l. refl;
        stops_at = (step, steps, refl, refl);
      })

  pub loop-Covers :
      (limit : Option ℤ) (n : ℕ) (steps : List Fields) (p : Progress) (w : World)
      {outcome : Outcome} {w' : World}
      → loop execution sink arguments limit n steps p w ≡ (ok outcome, w')
      → Covers limit n steps p.index p.executed outcome
  unfolding loop
  loop-Covers limit n [] p w h =
      subst (Covers limit n [] p.index p.executed) (pair-ok h) (at_once limit n [] p (inl refl))
  loop-Covers limit n (step ∷ steps) p w h =
      by_branch (is_used_up limit n) _ _ w h
        (λ c e.
          subst (Covers limit n (step ∷ steps) p.index p.executed) (pair-ok e)
            (at_once limit n (step ∷ steps) p (inr c)))
        (λ c e.
          let (round, w₁, ran, later) =
            go_on-eq_ok (run_step execution sink arguments step p w) _ e in
          after_round-Covers limit n step steps p.index p.executed
            (λ q. loop execution sink arguments limit (suc n) steps q) w₁ round c
            (λ q l. loop-Covers limit (suc n) steps q w₁ l) (run_step-IsRound step p w ran) later)
