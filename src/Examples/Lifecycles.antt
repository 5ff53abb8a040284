-- ===== src/Examples/Lifecycles.antt =====
-- Lifecycles of operations.
use rexec_op.Base.{◌≡◌, refl, List, [], ◌∷◌, ◌++◌, ok, err, state_error}
use rexec_op.Operation.State.{
  created, approved, completed, StateArg, text, validate_transition, of_text, allowed_transitions,
}
use rexec_op.Operation.State.Graph.{run_transitions, lifecycle, completed_started}

abbrev to_completion : List StateArg
to_completion =
    text "planned" ∷ text "approved" ∷ text "running" ∷ text "validating" ∷ text "completed" ∷ []

completes : run_transitions created to_completion ≡ ok completed
unfolding run_transitions validate_transition of_text allowed_transitions
completes = refl

lifecycle_example :
    (before : List StateArg) × (after : List StateArg) × (to_completion ≡ before ++ after)
    × (run_transitions created before ≡ ok approved)
    × (run_transitions approved after ≡ ok completed)
lifecycle_example = lifecycle to_completion completes completed_started

skips_approval :
    validate_transition (text "created") (text "running") ≡ err (state_error "invalid transition")
unfolding validate_transition of_text allowed_transitions
skips_approval = refl
