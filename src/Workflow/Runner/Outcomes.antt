-- ===== src/Workflow/Runner/Outcomes.antt =====
-- What a run of the planned steps reports.
use rexec_op.Base.{
  ℕ, zero, suc, ◌+◌, ◌≤◌, ◌<◌, ◌≡◌, refl, ap, subst, ◌∙◌, ◌⊎◌, true, false, Option, some, List, [],
  ◌∷◌, ◌++◌, arith, length, all, contains, ok, map_ok-eq_ok,
}
use rexec_op.Base.Actions.{lift-eq_ok, go_on-eq_ok, by_branch}
use rexec_op.Base.Int.{ℤ, pos_part}
use rexec_op.Json.{Fields}
use rexec_op.Json.Python.{Python}
use rexec_op.Workflow.Steps.{
  id_of, WorkflowRunResult, EvidenceSink, Execution, RunArguments, Progress, Outcome, drop,
  is_listed, readonly_modes, is_used_up, finished, failed,
}
use rexec_op.Workflow.Runner.{
  loop, is_over, conclude, run, run_prepared, prepared, executed_before, results_before,
  policy_max_steps, output_limit, timeout, request_of,
}
use rexec_op.Workflow.Runner.Loop.{progress_of, StopsAt, Covers, loop-Covers}

length-append : {A : Type 0} (xs ys : List A) → length (xs ++ ys) ≡ length xs + length ys
length-append [] ys = omega arith
length-append (x ∷ xs) ys = omega (arith, length-append xs ys)

length-split : {A : Type 0} (all' xs ys : List A) → all' ≡ xs ++ ys → length xs ≤ length all'
length-split all' xs ys e = omega (arith, ap length e, length-append xs ys)

zero_plus : (n : ℕ) → 0 + n ≡ n
zero_plus n = omega arith

below_limit :
    (m : ℤ) (n : ℕ) → ((j : ℕ) → j < n → is_used_up (some m) (0 + j) ≡ false) → n ≤ pos_part m
below_limit m zero h = omega arith
below_limit m (suc n) h = ground (arith, h n (omega arith))

module _ {World : Type 0} (execution : Execution World) ⦃py : Python⦄
    (sink : Option (EvidenceSink World)) (arguments : RunArguments) where
  -- What a result tells of the loop.
  pub record Tells (outcome : Outcome) (result : WorkflowRunResult) : Type 0 where
    pub index : result.next_step_index ≡ (progress_of outcome).index
    pub executed : result.executed_steps ≡ (progress_of outcome).executed
    pub success : result.success ≡ true → (q : Progress) × (outcome ≡ finished q)

  pub conclude-Tells :
      (request : execution.Request) (outcome : Outcome) {result : WorkflowRunResult}
      → conclude execution sink arguments request outcome ≡ ok result
      → Tells outcome result
  conclude-Tells request (finished q) h =
      let (_, _, e) = map_ok-eq_ok _ _ h in
      subst (Tells (finished q)) e
        (record { index = refl; executed = refl; success = λ _. (q, refl) })
  conclude-Tells request (failed q step_id r) h =
      let (_, _, e) = map_ok-eq_ok _ _ h in
      subst (Tells (failed q step_id r)) e
        (record { index = refl; executed = refl; success = λ l. absurd (false≢true l) })
    where
      false≢true : false ≡ true → ⊥
      false≢true l = cc

  -- A result: of a refused plan, or of the loop.
  data IsReport (result : WorkflowRunResult) : Type 0 where
    refused :
        result.success ≡ false → result.next_step_index ≡ arguments.start_index → IsReport result
    ran :
        (p : Progress) (outcome : Outcome)
        → p.index ≡ arguments.start_index
        → Covers execution sink arguments arguments.max_steps 0
            (drop arguments.start_index arguments.planned_steps)
            p.index
            p.executed
            outcome
        → Tells outcome result
        → IsReport result

  run_prepared-IsReport :
      (limit : ℤ) (request : execution.Request) (p : Progress) (w : World)
      {result : WorkflowRunResult} {w' : World}
      → p.index ≡ arguments.start_index
      → run_prepared execution sink arguments limit request p w ≡ (ok result, w')
      → IsReport result
  unfolding run_prepared
  run_prepared-IsReport limit request p w at h =
      by_branch (is_over execution sink arguments limit) _ _ w h
        (λ _ e.
          let (_, _, made) = map_ok-eq_ok _ _ (ap (λ x. x.0) e) in
          subst IsReport made (refused refl at))
        (λ _ e.
          let (outcome, w₁, looped, ends) =
            go_on-eq_ok
              (loop execution sink arguments arguments.max_steps 0
                (drop p.index arguments.planned_steps) p w)
              _ e in
          ran p outcome at
            (subst
              (λ i.
                Covers execution sink arguments arguments.max_steps 0
                  (drop i arguments.planned_steps) p.index p.executed outcome)
              at
              (loop-Covers execution sink arguments arguments.max_steps 0
                (drop p.index arguments.planned_steps) p w looped))
            (conclude-Tells request outcome (ap (λ x. x.0) ends)))

  run-IsReport :
      (w : World) {result : WorkflowRunResult} {w' : World}
      → run execution sink arguments w ≡ (ok result, w')
      → IsReport result
  unfolding run
  run-IsReport w h =
      let (executed, _, h₁) = lift-eq_ok (executed_before execution sink arguments) w _ h in
      let (results, _, h₂) = lift-eq_ok (results_before execution sink arguments) w _ h₁ in
      let (limit, _, h₃) = lift-eq_ok (policy_max_steps execution sink arguments) w _ h₂ in
      let (bytes, _, h₄) = lift-eq_ok (output_limit execution sink arguments) w _ h₃ in
      let (seconds, _, h₅) = lift-eq_ok (timeout execution sink arguments) w _ h₄ in
      let (request, _, h₆) =
        lift-eq_ok (request_of execution sink arguments limit bytes seconds) w _ h₅ in
      run_prepared-IsReport limit request
        (prepared execution sink arguments executed results request) w refl h₆

  -- A run that reports success went on from `start_index` to the end of the plan, or until it had
  -- run `max_steps` steps. In a mode that may change its target each step on the way succeeded: its
  -- id is among the executed steps.
  pub run_success :
      (w : World) {result : WorkflowRunResult} {w' : World}
      → run execution sink arguments w ≡ (ok result, w')
      → result.success ≡ true
      → (passed : List Fields) × (rest : List Fields) × (drop arguments.start_index
            arguments.planned_steps
          ≡ passed ++ rest)
        × (result.next_step_index ≡ arguments.start_index + length passed)
        × ((rest ≡ []) ⊎ (is_used_up arguments.max_steps (length passed) ≡ true))
        × (contains arguments.mode readonly_modes ≡ false
            → all (λ s. is_listed (id_of s) result.executed_steps) passed ≡ true)
  run_success w {result} h success = elim (run-IsReport w h) [
    | refused bad _ ↦ absurd (clash bad)
    | ran p outcome at c t ↦ (
      c.passed,
      c.rest,
      c.split,
      t.index ∙ c.moved ∙ ap (λ i. i + length c.passed) at,
      ended outcome (length c.passed) c.rest c.stops_at (t.success success),
      λ strict. rw t.executed (c.succeeded strict),
    )
  ]
    where
      clash : result.success ≡ false → ⊥
      clash bad = cc

      ended :
          (outcome : Outcome) (n : ℕ) (rest : List Fields)
          → StopsAt execution sink arguments arguments.max_steps (0 + n) rest outcome
          → ((q : Progress) × (outcome ≡ finished q))
          → (rest ≡ []) ⊎ (is_used_up arguments.max_steps n ≡ true)
      ended (finished q) n rest stop _ =
          subst (λ k. (rest ≡ []) ⊎ (is_used_up arguments.max_steps k ≡ true)) (zero_plus n) stop
      ended (failed q step_id r) n rest stop (_, e) = cc

  -- Where a run stops: never before its start or past the end of the plan, and with `max_steps` not
  -- more than that number of steps after its start.
  pub run_within :
      (w : World) {result : WorkflowRunResult} {w' : World}
      → run execution sink arguments w ≡ (ok result, w')
      → (arguments.start_index ≤ result.next_step_index)
        × (result.next_step_index
            ≤ arguments.start_index + length (drop arguments.start_index arguments.planned_steps))
        × ((m : ℤ)
            → arguments.max_steps ≡ some m
            → result.next_step_index ≤ arguments.start_index + pos_part m)
  run_within w {result} h = elim (run-IsReport w h) [
    | refused _ same ↦ (omega (arith, same), omega (arith, same), λ m e. omega (arith, same))
    | ran p outcome at c t ↦ (
      omega (arith, t.index, c.moved, at),
      omega (
        arith,
        t.index,
        c.moved,
        at,
        length-split (drop arguments.start_index arguments.planned_steps) c.passed c.rest c.split,
      ),
      λ m e.
          omega (arith, t.index, c.moved, at, below_limit m (length c.passed) (rw e at c.within)),
    )
  ]
