-- ===== src/Restart.antt =====
-- runtime_ops/recovery.py: what the runtime does after a restart to the operations and locks that a
-- stopped process left behind.
pub mod Interrupted
pub mod Marked
pub mod Swept
use rexec_op.Base.{
  ℕ, String, Bool, true, false, not, ◌&&◌, ◌||◌, Option, none, some, List, [], ◌∷◌, ◌++◌, ◌==◌,
  contains, if◌then◌else◌, Result, ok, err, builtin_error, Action,
}
use rexec_op.Base.Actions.{go_on, returns, lift, ◌>>=◌, ◌>>◌}
use rexec_op.Json.{
  Value, bool, str, obj, Fields, field, end, get, put, JsonFile, missing, unreadable, readable,
  present,
}
use rexec_op.Json.Python.{Python, text}
use rexec_op.Json.Coerce.{dict_or_empty}
use rexec_op.Operation.State.{
  OperationState, running, validating, paused, resuming, retrying, failed, completed, escalated,
  value, of_text, state, validate_transition, StateArg,
}
use rexec_op.Operation.Model.{Operation, StateTransitionRecord}
use rexec_op.TargetLock.{Locks, States, read, is_stale, release}
use rexec_op.Storage.FileStore.{save_operation, load_operation, list_operations}
use rexec_op.Coordinator.Assessment.{active_runtime_states}
use rexec_op.Coordinator.{Root, Moment, reads, on_files, on_locks, release_target_only}

-- TERMINAL_RECEIPT_STATES, INTERRUPTIBLE_STATES
abbrev pub terminal_receipt_states : List String
terminal_receipt_states = value completed ∷ value failed ∷ value escalated ∷ []

abbrev pub interruptible_states : List String
interruptible_states = active_runtime_states

abbrev is_object : Value → Bool
is_object (obj d) = true
is_object _ = false

-- `receipt` says whether the receipt's file is there.
unfoldable pub operation_needs_receipt : Bool → Operation → Bool
operation_needs_receipt receipt o =
    if not (contains o.state terminal_receipt_states)
    then false
    else if receipt
    then false
    else not (is_object (get "recovery_blocker" o.metadata))

unfoldable pub start_is_idempotent : Operation → Bool
start_is_idempotent o = contains o.state terminal_receipt_states

-- `Operation.operation_state`
abbrev pub state_or_raise : Option OperationState → Result OperationState
state_or_raise none = err builtin_error
state_or_raise (some s) = ok s

abbrev pub operation_state : Operation → Result OperationState
operation_state o = state_or_raise (of_text o.state)

-- The two instants that one transition reads, and what the evidence manager answers for its event.
pub record Stamp : Type 0 where
  pub timestamp : ℕ
  pub updated : ℕ
  pub event : Result String

-- `utc_now_iso` is `iso` of an instant. No operation enters a state twice in one interruption, so
-- the stamps go by the state entered.
abbrev pub Stamps : Type 0
Stamps = OperationState → Stamp

module _ ⦃py : Python⦄ where
  -- The operation after a transition.
  abbrev pub moved :
      Stamp → OperationState → OperationState → String → String → Operation → Operation
  moved stamp current target reason event o = record o {
    history =
        o.history
        ++ record {
          from_state = value current;
          to_state = value target;
          timestamp_utc = py.iso stamp.timestamp;
          reason = reason;
        }
          ∷ [];
    state = value target;
    updated_at = py.iso stamp.updated;
    evidence_event_ids = o.evidence_event_ids ++ event ∷ [];
  }

  -- `_transition_operation`
  unfoldable pub transition_operation :
      Stamps → OperationState → String → Operation → Action Root Operation
  transition_operation stamps target reason o = do
    current ← lift (operation_state o)
    allowed ← lift (validate_transition (state current) (state target))
    event ← lift (stamps target).event
    on_files (save_operation (moved (stamps target) current target reason event o))

  -- `controller.get_operation`
  abbrev pub get_operation : String → Action Root Operation
  get_operation id = reads (λ root. load_operation id root.files)

  -- A transition, and the operation as the store then has it.
  unfoldable pub transition_and_get :
      Stamps → OperationState → String → Operation → Action Root Operation
  transition_and_get stamps target reason o = do
    saved ← transition_operation stamps target reason o
    get_operation saved.id

  -- One of the three tests in `_mark_interrupted` on an operation that is on its way.
  unfoldable pub move_if :
      Stamps → OperationState → OperationState → String → Operation → Action Root Operation
  move_if stamps from target reason o =
      if o.state == value from then transition_and_get stamps target reason o else returns o

  unfoldable pub fail_if_running : Stamps → Operation → Action Root Operation
  fail_if_running stamps o =
      if o.state == value running
      then transition_operation stamps failed "interrupted_by_restart" o
      else returns o

  unfoldable pub wound_up : Stamps → Operation → Action Root Operation
  wound_up stamps o = do
    resumed ← move_if stamps resuming running "interrupted_resume" o
    retried ← move_if stamps retrying running "interrupted_retry" resumed
    fail_if_running stamps retried

  -- The transitions of `_mark_interrupted`.
  unfoldable pub interrupt_from : Stamps → OperationState → Operation → Action Root Operation
  interrupt_from stamps running o = transition_operation stamps failed "interrupted_by_restart" o
  interrupt_from stamps validating o = transition_operation stamps failed "interrupted_by_restart" o
  interrupt_from stamps paused o = do
    resumed ← transition_and_get stamps resuming "interrupted_resume" o
    wound_up stamps resumed
  interrupt_from stamps resuming o = wound_up stamps o
  interrupt_from stamps retrying o = wound_up stamps o
  interrupt_from stamps _ o = returns o

  abbrev pub recovery_entry : ℕ → Fields → Fields
  recovery_entry observed_at recovery = put "resume_allowed" (bool false) (
      put "reason" (str "interrupted_by_restart")
        (put "interrupted_at" (str (py.iso observed_at)) recovery))

  abbrev pub with_recovery : ℕ → Fields → Operation → Operation
  with_recovery observed_at recovery o = record o {
    metadata = put "recovery" (obj (recovery_entry observed_at recovery)) o.metadata;
  }

  -- `_mark_interrupted` after its transitions
  unfoldable pub note_interruption : Moment → ℕ → String → Action Root Operation
  note_interruption m observed_at id = do
    current ← get_operation id
    release_target_only m current
    again ← get_operation current.id
    recovery ← lift (dict_or_empty (get "recovery" again.metadata))
    on_files (save_operation (with_recovery observed_at recovery again))

  -- `_mark_interrupted`
  unfoldable pub mark_interrupted : Moment → Stamps → ℕ → Operation → Action Root Operation
  mark_interrupted m stamps observed_at o = do
    s ← lift (operation_state o)
    ended ← interrupt_from stamps s o
    note_interruption m observed_at ended.id

  abbrev report_entry : String → Operation → Value
  report_entry previous current = obj (
      field "operation_id" (str current.id)
        (field "previous_state" (str previous) (field "current_state" (str current.state) end)))

  -- The loop of `_interrupt_active_operations`; each operation has its stamps.
  unfoldable pub interrupt_all :
      Moment → (String → Stamps) → ℕ → List Operation → Action Root (List Value)
  interrupt_all m stamps observed_at [] = returns []
  interrupt_all m stamps observed_at (o ∷ os) =
      let rest = interrupt_all m stamps observed_at os in
      if not (contains o.state interruptible_states) then rest else (do
        marked ← mark_interrupted m (stamps o.id) observed_at o
        current ← get_operation o.id
        entries ← rest
        returns (report_entry o.state current ∷ entries))

  unfoldable pub interrupt_active_operations :
      Moment → (String → Stamps) → ℕ → Action Root (List Value)
  interrupt_active_operations m stamps observed_at = do
    operations ← reads (λ root. list_operations m.names root.files)
    interrupt_all m stamps observed_at operations

  -- `_read_lock_file`
  abbrev lock_payload : JsonFile → Result (Option Fields)
  lock_payload missing = ok none
  lock_payload unreadable = err builtin_error
  lock_payload (readable (obj d)) = ok (some d)
  lock_payload (readable _) = ok none

  abbrev lock_entry : String → Fields → Fields → Value
  lock_entry name payload lock = obj (
      field "environment" (str (text (get "environment" payload))) (
        field "target" (str (text (get "target" payload))) (
          field "operation_id" (str (text (get "operation_id" lock)))
            (field "lock_file" (str name) end))))

  -- The lock that a lock file's own environment and target name, if it is stale.
  abbrev pub stale_lock : States → Option Fields → Option Fields
  stale_lock loaded none = none
  stale_lock loaded (some lock) = if is_stale loaded lock then some lock else none

  abbrev released_lock :
      String → Fields → Option Fields → Action Locks (List Value) → Action Locks (List Value)
  released_lock name payload none rest = rest
  released_lock name payload (some lock) rest = do
    release (text (get "environment" payload)) (text (get "target" payload))
        (text (get "operation_id" lock))
    entries ← rest
    returns (lock_entry name payload lock ∷ entries)

  abbrev swept_file :
      States → String → Option Fields → Action Locks (List Value) → Action Locks (List Value)
  swept_file loaded name none rest locks = rest locks
  swept_file loaded name (some payload) rest locks =
      go_on
        (lift (read (text (get "environment" payload)) (text (get "target" payload)) locks) locks)
        (λ lock. released_lock name payload (stale_lock loaded lock) rest)

  -- `_release_stale_locks`; `names` are the files *.lock in path order. A file whose payload is an
  -- empty dict is passed over.
  unfoldable pub release_stale_locks : States → List String → Action Locks (List Value)
  release_stale_locks loaded [] locks = (ok [], locks)
  release_stale_locks loaded (name ∷ names) locks =
      let rest = release_stale_locks loaded names in
      go_on (lift (lock_payload (locks name)) locks)
        (λ payload. swept_file loaded name (present payload) rest)
