-- ===== src/Coordinator.antt =====
-- runtime_ops/coordinator.py: RuntimeCoordinator on the file store. It brings together the queue,
-- the target locks, the worker lease and the stored operations. A method is a sequence of the calls
-- that it makes; each call is one step. An operation that the code changes in place is returned.
pub mod Maintenance
pub mod Assessment
pub mod Calls
pub mod Admission
pub mod Safety
pub mod Release
pub mod Windows
use rexec_op.Base.{
  ℕ, String, Bool, true, false, not, Option, none, some, List, if◌then◌else◌, Result, ok, err,
  concurrency_conflict, Action,
}
use rexec_op.Base.Actions.{returns, lift, ◌>>=◌, ◌>>◌}
use rexec_op.Base.Int.{pos}
use rexec_op.Json.{Value, int, str, obj, Fields, end, field, get, put, pop, JsonFile}
use rexec_op.Json.Python.{Python}
use rexec_op.Operation.Model.{Operation}
use rexec_op.Posture.{is_mutating_mode}
use rexec_op.Lease.{LeaseDir}
use rexec_op.Queue.Store.{position}
use rexec_op.Queue.Facts.{Loader}
use rexec_op.Queue.Claims.{enqueue, discard_pending, claim_specific_from_lease}
use rexec_op.Queue.Deferral.{defer_claim_from_lease}
use rexec_op.TargetLock.{Locks, States, acquire, release}
use rexec_op.Storage.FileStore.{Files, save_operation}
use rexec_op.Coordinator.Assessment.{
  AdmissionStatus, admitted, queued, target_lock_enabled, assess_for_execution, selection_claim,
  selection_of, public_queue_has_compatible_pending,
}

-- What the runtime root holds.
pub record Root : Type 0 where
  pub queue : JsonFile
  pub lease : LeaseDir
  pub locks : Locks
  pub files : Files

-- What a method is told from outside: the instants at which its calls read the clock, the answers
-- of the store's load_operation, its facts for the queue, and the ids of the files in operations/.
pub record Moment : Type 0 where
  pub queue_now : ℕ
  pub lock_now : ℕ
  pub guard_now : ℕ
  pub loaded : States
  pub facts : Loader
  pub names : List String

module _ {A : Type 0} where
  abbrev pub reads : (Root → Result A) → Action Root A
  reads f root = (f root, root)

  abbrev pub on_queue : (LeaseDir → Action JsonFile A) → Action Root A
  on_queue f root =
      ((f root.lease root.queue).0, record root { queue = (f root.lease root.queue).1 })

  abbrev pub on_locks : Action Locks A → Action Root A
  on_locks f root = ((f root.locks).0, record root { locks = (f root.locks).1 })

  abbrev pub on_files : Action Files A → Action Root A
  on_files f root = ((f root.files).0, record root { files = (f root.files).1 })

pub record SnapshotAdmission : Type 0 where
  pub status : AdmissionStatus
  pub reason : String
  pub claim_snapshot : Option Fields

abbrev pub queue_entry : String → ℕ → Value
queue_entry reason position' = obj (
    field "status" (str "pending")
      (field "reason" (str reason) (field "position" (int (pos position')) end)))

abbrev pub with_queue_entry : String → ℕ → Operation → Operation
with_queue_entry reason position' o = record o {
  metadata = put "queue" (queue_entry reason position') o.metadata;
}

-- `metadata.pop("queue", None)`
abbrev pub without_queue_entry : Operation → Operation
without_queue_entry o = record o { metadata = pop "queue" o.metadata }

abbrev position_or_conflict : Option ℕ → Result ℕ
position_or_conflict (some n) = ok n
position_or_conflict none =
    err (concurrency_conflict "concurrency_conflict: deferred queue claim is no longer pending")

-- What `claim_specific_from_lease` returns.
abbrev claim_selection : Option (String × Fields) → Option Fields
claim_selection none = none
claim_selection (some found) = some (selection_of found)

module _ ⦃py : Python⦄ (m : Moment) where
  unfoldable pub mark_queued : String → Operation → Action Root Operation
  mark_queued reason o = do
    place ← on_queue (λ _. enqueue o.id m.queue_now)
    on_files (save_operation (with_queue_entry reason place o))

  unfoldable pub acquire_prechecked_target : Operation → Action Root Bool
  acquire_prechecked_target o =
      if not (is_mutating_mode o.mode)
      then returns true
      else if not (target_lock_enabled o)
      then returns true
      else on_locks (acquire m.loaded o.environment o.target o.id m.lock_now)

  unfoldable pub persist_prechecked_admission : Operation → Action Root Operation
  persist_prechecked_admission o = on_files (save_operation (without_queue_entry o))

  abbrev pub assessed : Operation → Action Root (AdmissionStatus × String)
  assessed o = reads (λ root. assess_for_execution m.loaded m.names o root.locks root.files)

  -- `admit_for_execution` from the assessment of a mutating operation that may be admitted.
  unfoldable pub take_target : Operation → Action Root (AdmissionStatus × Operation)
  unfolding acquire_prechecked_target persist_prechecked_admission mark_queued
  take_target o = do
    taken ← acquire_prechecked_target o
    if taken
        then (do o' ← persist_prechecked_admission o; returns (admitted, o'))
        else (do o' ← mark_queued "target_locked" o; returns (queued, o'))

  unfoldable pub after_assessment :
      Operation → AdmissionStatus → String → Action Root (AdmissionStatus × Operation)
  unfolding mark_queued take_target
  after_assessment o queued reason = do o' ← mark_queued reason o; returns (queued, o')
  after_assessment o admitted reason =
      if not (is_mutating_mode o.mode) then returns (admitted, o) else take_target o

  unfoldable pub admit_for_execution : Operation → Action Root (AdmissionStatus × Operation)
  unfolding after_assessment
  admit_for_execution o = do
    waiting ← reads (λ root. public_queue_has_compatible_pending root.queue)
    if waiting
        then returns (queued, o)
        else (do (status, reason) ← assessed o; after_assessment o status reason)

  unfoldable pub record_deferred_claim : String → Operation → Action Root Operation
  record_deferred_claim reason o = do
    found ← reads (λ root. position o.id root.queue)
    place ← lift (position_or_conflict found)
    on_files (save_operation (with_queue_entry reason place o))

  unfoldable pub defer_or_enqueue :
      Fields → Option Fields → String → Operation → Action Root Operation
  unfolding mark_queued record_deferred_claim
  defer_or_enqueue lease none reason o = mark_queued reason o
  defer_or_enqueue lease (some snapshot) reason o = do
    on_queue (λ dir.
        defer_claim_from_lease m.facts dir m.guard_now o.id snapshot lease reason m.queue_now)
    record_deferred_claim reason o

  -- `selection`, or the claim of this operation from the queue
  unfoldable pub selected : Fields → Option Fields → String → Action Root (Option Fields)
  selected lease (some selection) id = returns (some selection)
  selected lease none id = do
    claim ← on_queue (λ dir. claim_specific_from_lease m.facts dir m.guard_now id lease m.queue_now)
    returns (claim_selection claim)

  abbrev put_off :
      Fields → Option Fields → String → Operation → Action Root (SnapshotAdmission × Operation)
  unfolding defer_or_enqueue
  put_off lease snapshot reason o = do
    o' ← defer_or_enqueue lease snapshot reason o
    returns (record { status = queued; reason = reason; claim_snapshot = none }, o')

  abbrev controller_admission :
      Fields
      → Option Fields
      → Operation
      → AdmissionStatus
      → String
      → Action Root (SnapshotAdmission × Operation)
  unfolding acquire_prechecked_target persist_prechecked_admission defer_or_enqueue
  controller_admission lease snapshot o queued reason = put_off lease snapshot reason o
  controller_admission lease snapshot o admitted reason = do
    taken ← acquire_prechecked_target o
    if taken
        then (do
          o' ← persist_prechecked_admission o
          returns (record { status = admitted; reason = ""; claim_snapshot = snapshot }, o'))
        else put_off lease snapshot "target_locked" o

  unfoldable pub admit_for_controller :
      Fields → Option Fields → Operation → Action Root (SnapshotAdmission × Operation)
  unfolding acquire_prechecked_target persist_prechecked_admission defer_or_enqueue selected
  admit_for_controller lease selection o = do
    chosen ← selected lease selection o.id
    snapshot ← lift (selection_claim chosen "execution")
    (status, reason) ← assessed o
    controller_admission lease snapshot o status reason

  unfoldable pub claim_terminal_for_controller :
      Fields → Option Fields → Operation → Action Root (Option Fields)
  unfolding selected
  claim_terminal_for_controller lease selection o = do
    chosen ← selected lease selection o.id
    lift (selection_claim chosen "terminal_cleanup")

  unfoldable pub release_target_only : Operation → Action Root (Unit {0})
  release_target_only o =
      if not (is_mutating_mode o.mode)
      then returns tt
      else if target_lock_enabled o
      then on_locks (release o.environment o.target o.id)
      else returns tt

  unfoldable pub release_operation : Operation → Action Root (Unit {0})
  unfolding release_target_only
  release_operation o = do on_queue (λ _. discard_pending o.id m.queue_now); release_target_only o
