-- ===== src/TargetLock.antt =====
-- runtime_ops/target_lock.py: the advisory lock of one target. `Locks` is the directory locks/ as
-- a function of a file's name. The guard file's lock makes each method one step; the store's
-- `load_operation` is an argument, where `none` is its RExecOpValidationError.
pub mod Exclusion
use Prim.Native.Char.{code}
use Prim.Native.String
use rexec_op.Base.{
  ℕ, String, Bool, true, false, not, ◌&&◌, ◌||◌, Option, none, some, List, [], ◌∷◌, ◌==◌, nat_eq,
  contains, if◌then◌else◌, Result, ok, err, builtin_error, Action, commit, ◌>>=◌,
}
use rexec_op.Json.{
  Value, str, obj, Fields, end, field, get, JsonFile, missing, unreadable, readable, present,
}
use rexec_op.Json.Python.{Python, text, to_text}
use rexec_op.Operation.State.{
  OperationState, approved, running, paused, resuming, retrying, validating, value,
}

-- ACTIVE_LOCK_STATES
abbrev pub active_lock_states : List String
active_lock_states =
    value approved
    ∷ value running
    ∷ value paused
    ∷ value resuming
    ∷ value retrying
    ∷ value validating
    ∷ []

-- `s.replace("/", "_")`
abbrev pub safe_name : String → String
safe_name String.[] = String.[]
safe_name (String.◌∷◌ c s) =
    if nat_eq (code c) 47 then String.◌∷◌ "_" (safe_name s) else String.◌∷◌ c (safe_name s)

unfoldable pub lock_filename : String → String → String
lock_filename environment target =
    String.◌++◌ (safe_name environment) (String.◌++◌ "__" (String.◌++◌ (safe_name target) ".lock"))

abbrev pub Locks : Type 0
Locks = String → JsonFile

-- The directory after a write or an unlink of one file.
abbrev pub with_file : String → JsonFile → Locks → Locks
with_file name file locks = λ n. if n == name then file else locks n

abbrev pub States : Type 0
States = String → Option OperationState

abbrev active_state : Option OperationState → Bool
active_state none = false
active_state (some s) = contains (value s) active_lock_states

-- An operation that the store has, in a state of ACTIVE_LOCK_STATES.
abbrev pub is_active : States → String → Bool
is_active load operation_id = active_state (load operation_id)

abbrev pub read_file : JsonFile → Result (Option Fields)
read_file missing = ok none
read_file unreadable = err builtin_error
read_file (readable (obj d)) = ok (some d)
read_file (readable _) = ok none

unfoldable pub read : String → String → Locks → Result (Option Fields)
read environment target locks = read_file (locks (lock_filename environment target))

module _ ⦃py : Python⦄ where
  abbrev named : String → Option String
  named s = if s == "" then none else some s

  abbrev pub holder : Option Fields → Option String
  holder none = none
  holder (some d) = named (text (get "operation_id" d))

  unfoldable pub holder_operation_id : String → String → Locks → Result (Option String)
  holder_operation_id environment target locks = do
    record' ← read environment target locks
    ok (holder (present record'))

  unfoldable pub is_stale : States → Fields → Bool
  is_stale load d =
      let operation_id = text (get "operation_id" d) in
      operation_id == "" || not (is_active load operation_id)

  abbrev pub lock_record : String → String → String → ℕ → Fields
  lock_record environment target operation_id now = field "operation_id" (str operation_id) (
      field "environment" (str environment)
        (field "target" (str target) (field "acquired_at" (str (py.iso now)) end)))

  -- A lock that is held stays; one that is free or stale is written.
  abbrev take : String → String → String → ℕ → Action Locks Bool
  take environment target operation_id now locks = (
    ok true,
    with_file (lock_filename environment target)
        (readable (obj (lock_record environment target operation_id now))) locks,
  )

  abbrev pub acquire_from :
      States → String → String → String → ℕ → Option Fields → Action Locks Bool
  acquire_from load environment target operation_id now none locks =
      take environment target operation_id now locks
  acquire_from load environment target operation_id now (some d) locks =
      if is_stale load d
      then take environment target operation_id now locks
      else (ok (to_text (get "operation_id" d) == operation_id), locks)

  unfoldable pub acquire : States → String → String → String → ℕ → Action Locks Bool
  acquire load environment target operation_id now locks =
      commit (read environment target locks)
        (λ existing. acquire_from load environment target operation_id now (present existing)) locks

  abbrev pub release_from : String → String → String → Option Fields → Action Locks (Unit {0})
  release_from environment target operation_id none locks = (ok tt, locks)
  release_from environment target operation_id (some d) locks =
      let held_by = text (get "operation_id" d) in
      if held_by == "" || held_by == operation_id
      then (ok tt, with_file (lock_filename environment target) missing locks)
      else (ok tt, locks)

  unfoldable pub release : String → String → String → Action Locks (Unit {0})
  release environment target operation_id locks =
      commit (read environment target locks)
        (λ existing. release_from environment target operation_id (present existing)) locks
