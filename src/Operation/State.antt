-- ===== src/Operation/State.antt =====
-- operation/state.py: the lifecycle states and the table of allowed transitions.
pub mod Graph
use rexec_op.Base.{
  String, ◌≡◌, refl, Bool, true, false, Option, none, some, List, [], ◌∷◌, ◌==◌, any, if◌then◌else◌,
  Result, ok, err, builtin_error, state_error, ◌>>=◌, ◌>>◌, raise_if, not,
}
use mathlib.Core.Bool.{decide}

pub data OperationState : Type 0 where
  created planned blocked waiting_for_approval approved running paused : OperationState
  resuming retrying validating completed failed cancelled escalated : OperationState

pub OperationState-discrete : Discrete OperationState
OperationState-discrete = hlevel

-- `state.value`
abbrev pub value : OperationState → String
value created = "created"
value planned = "planned"
value blocked = "blocked"
value waiting_for_approval = "waiting_for_approval"
value approved = "approved"
value running = "running"
value paused = "paused"
value resuming = "resuming"
value retrying = "retrying"
value validating = "validating"
value completed = "completed"
value failed = "failed"
value cancelled = "cancelled"
value escalated = "escalated"

-- The members in their order of declaration.
abbrev pub all_states : List OperationState
all_states =
    created ∷ planned ∷ blocked ∷ waiting_for_approval ∷ approved ∷ running ∷ paused ∷ resuming
    ∷ retrying ∷ validating ∷ completed ∷ failed ∷ cancelled ∷ escalated ∷ []

-- `OperationState(s)`: `none` is the ValueError.
abbrev find_state : String → List OperationState → Option OperationState
find_state s [] = none
find_state s (st ∷ rest) = if s == value st then some st else find_state s rest

unfoldable pub of_text : String → Option OperationState
of_text s = find_state s all_states

-- `ALLOWED_TRANSITIONS[state]`
unfoldable pub allowed_transitions : OperationState → List OperationState
allowed_transitions created = planned ∷ []
allowed_transitions planned = blocked ∷ waiting_for_approval ∷ approved ∷ []
allowed_transitions approved = running ∷ cancelled ∷ []
allowed_transitions running = paused ∷ retrying ∷ validating ∷ failed ∷ cancelled ∷ []
allowed_transitions paused = resuming ∷ cancelled ∷ []
allowed_transitions resuming = running ∷ []
allowed_transitions retrying = running ∷ []
allowed_transitions validating = completed ∷ failed ∷ []
allowed_transitions failed = escalated ∷ retrying ∷ []
allowed_transitions blocked = escalated ∷ []
allowed_transitions waiting_for_approval = approved ∷ cancelled ∷ []
allowed_transitions completed = []
allowed_transitions cancelled = []
allowed_transitions escalated = []

-- `a == b` on states, which are compared by their text.
abbrev pub state_eq : OperationState → OperationState → Bool
state_eq a b = value a == value b

-- An argument of type `OperationState | str`.
pub data StateArg : Type 0 where
  state : OperationState → StateArg
  text : String → StateArg

abbrev or_value_error : Option OperationState → Result OperationState
or_value_error none = err builtin_error
or_value_error (some s) = ok s

abbrev pub as_state : StateArg → Result OperationState
as_state (state s) = ok s
as_state (text t) = or_value_error (of_text t)

unfoldable pub validate_transition : StateArg → StateArg → Result OperationState
unfolding of_text allowed_transitions
validate_transition current target = do
  from_state ← as_state current
  to_state ← as_state target
  raise_if (not (any (state_eq to_state) (allowed_transitions from_state)))
      (state_error "invalid transition")
  ok to_state
