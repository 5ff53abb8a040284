-- ===== src/Workflow/Runner/Resume.antt =====
-- Running a plan in parts.
use rexec_op.Base.{
  String, ℕ, zero, suc, ◌+◌, ◌≤◌, ◌≡◌, refl, sym, subst, ◌∙◌, inl, inr, true, false, Option, some,
  List, [], ◌∷◌, arith, Result, ok, err, Action, Bool-cases,
}
use rexec_op.Base.Actions.{returns, go_on}
use rexec_op.Base.Int.{ℤ, pos}
use rexec_op.Json.{Fields}
use rexec_op.Json.Python.{Python}
use rexec_op.Workflow.Steps.{
  StepExecutionResult, EvidenceSink, Execution, RunArguments, Progress, Round, Outcome, drop,
  is_used_up, goes_on, stops, finished, failed,
}
use rexec_op.Workflow.Runner.{after_round, run_step, loop}
use rexec_op.Workflow.Runner.Loop.{run_step-index}

abbrev budget : ℕ → Option ℤ
budget n = some (pos n)

used_up_plus : (m n j : ℕ) → is_used_up (budget (m + n)) (m + j) ≡ is_used_up (budget n) j
used_up_plus m n j = ground arith

plus_suc : (m j : ℕ) → m + suc j ≡ suc (m + j)
plus_suc m j = omega arith

plus_zero : (m : ℕ) → m + 0 ≡ m
plus_zero m = omega arith

used_up_at : (m k : ℕ) → k ≤ m → is_used_up (budget m) k ≡ true → k ≡ m
used_up_at m k h u = ground arith

used_up_not : (m k : ℕ) → is_used_up (budget m) k ≡ false → suc k ≤ m
used_up_not m k u = ground arith

used_up_less : (m n k : ℕ) → is_used_up (budget m) k ≡ false → is_used_up (budget (m + n)) k ≡ false
used_up_less m n k u = ground arith

drop_next :
    {A : Type 0} (n : ℕ) (x : A) (xs all' : List A) → x ∷ xs ≡ drop n all' → xs ≡ drop (suc n) all'
drop_next zero x xs [] e = cc
drop_next zero x xs (y ∷ ys) e = cc
drop_next (suc n) x xs [] e = cc
drop_next (suc n) x xs (y ∷ ys) e = drop_next n x xs ys e

module _ {World : Type 0} (execution : Execution World) ⦃py : Python⦄
    (sink : Option (EvidenceSink World)) (arguments : RunArguments) where
  abbrev go : ℕ → ℕ → List Fields → Progress → Action World Outcome
  go n = loop execution sink arguments (budget n)

  -- After a part of the plan, up to `n` more steps from the index that it reached.
  abbrev pub resume : ℕ → Outcome → Action World Outcome
  resume n (finished q) =
      loop execution sink arguments (some (pos n)) 0 (drop q.index arguments.planned_steps) q
  resume n (failed q step_id r) = returns (failed q step_id r)

  after_same :
      (x : Result Round × World) (f g : Progress → Action World Outcome)
      → ((q : Progress) (w : World) → f q w ≡ g q w)
      → go_on x (after_round execution sink arguments f)
        ≡ go_on x (after_round execution sink arguments g)
  after_same (err e, w) f g h = refl
  after_same (ok (goes_on q), w) f g h = h q w
  after_same (ok (stops q step_id r), w) f g h = refl

  -- Steps that were run before do not count when the budget is larger by their number.
  loop_shift :
      (m n j : ℕ) (steps : List Fields) (p : Progress) (w : World)
      → go (m + n) (m + j) steps p w ≡ go n j steps p w
  unfolding loop
  loop_shift m n j [] p w = refl
  loop_shift m n j (step ∷ steps) p w = elim (Bool-cases (is_used_up (budget n) j)) [
    | inl used ↦ rw (used_up_plus m n j, used) refl
    | inr more ↦
        rw (used_up_plus m n j, more)
          (after_same (run_step execution sink arguments step p w) (go (m + n) (suc (m + j)) steps)
            (go n (suc j) steps)
            (λ q v.
              subst (λ k. go (m + n) k steps q v ≡ go n (suc j) steps q v) (plus_suc m j)
                (loop_shift m n (suc j) steps q v)))
  ]

  after_parts :
      (x : Result Round × World) (f g : Progress → Action World Outcome)
      (more : Outcome → Action World Outcome)
      → ((q : Progress) (w : World) → x ≡ (ok (goes_on q), w) → f q w ≡ go_on (g q w) more)
      → ((q : Progress) (step_id : String) (r : StepExecutionResult) (w : World)
          → more (failed q step_id r) w ≡ (ok (failed q step_id r), w))
      → go_on x (after_round execution sink arguments f)
        ≡ go_on (go_on x (after_round execution sink arguments g)) more
  after_parts (err e, w) f g more h stop = refl
  after_parts (ok (goes_on q), w) f g more h stop = h q w refl
  after_parts (ok (stops q step_id r), w) f g more h stop = sym (stop q step_id r w)

  loop_parts :
      (m n k : ℕ) (steps : List Fields) (p : Progress) (w : World)
      → k ≤ m
      → steps ≡ drop p.index arguments.planned_steps
      → go (m + n) k steps p w ≡ go_on (go m k steps p w) (resume n)
  unfolding loop
  loop_parts m n k [] p w h e = rw (sym e) refl
  loop_parts m n k (step ∷ steps) p w h e = elim (Bool-cases (is_used_up (budget m) k)) [
    | inl used ↦
        rw (used, sym e)
          (subst (λ i. go (m + n) i (step ∷ steps) p w ≡ go n 0 (step ∷ steps) p w)
            (plus_zero m ∙ sym (used_up_at m k h used)) (loop_shift m n 0 (step ∷ steps) p w))
    | inr more ↦
        rw (more, used_up_less m n k more)
          (after_parts (run_step execution sink arguments step p w) (go (m + n) (suc k) steps)
            (go m (suc k) steps) (resume n)
            (λ q v ran. loop_parts m n (suc k) steps q v (used_up_not m k more) (
              subst (λ i. steps ≡ drop i arguments.planned_steps)
                (sym (run_step-index execution sink arguments step p q w ran))
                (drop_next p.index step steps arguments.planned_steps e)))
            (λ q step_id r v. refl))
  ]

  -- A loop that may run `m + n` steps does what a loop that may run `m` steps does, followed by one
  -- that may run `n` steps from the index that the first one reached: stopping at the budget and
  -- going on later loses no step and repeats none.
  pub loop_in_parts :
      (m n : ℕ) (p : Progress) (w : World)
      → loop execution sink arguments
          (some (pos (m + n)))
          0
          (drop p.index arguments.planned_steps)
          p
          w
        ≡ go_on
            (loop execution sink arguments
              (some (pos m))
              0
              (drop p.index arguments.planned_steps)
              p
              w)
            (resume n)
  loop_in_parts m n p w =
      loop_parts m n 0 (drop p.index arguments.planned_steps) p w (omega arith) refl
