-- ===== src/Coordinator/Assessment.antt =====
-- The parts of RuntimeCoordinator that only read: the policy of an operation, its maintenance
-- windows, and the assessment before an admission.
use rexec_op.Base.{
  ℕ, suc, String, Bool, true, false, not, ◌&&◌, ◌||◌, Option, none, some, List, [], ◌∷◌, ◌==◌, all,
  contains, if◌then◌else◌, Result, ok, err, validation_error, ◌>>=◌, ◌>>◌, raise_if,
}
use rexec_op.Base.Int.{ℤ, pos, leb_ℤ}
use rexec_op.Json.{
  Value, arr, obj, Fields, end, field, str, get, has, keys, is_text, to_list, JsonFile,
}
use rexec_op.Json.Python.{Python, text, as_int}
use rexec_op.Json.Coerce.{truthy, int_or_raise, dict_or_none}
use rexec_op.Operation.Model.{Operation}
use rexec_op.Posture.{is_mutating_mode}
use rexec_op.Queue.Store.{load, recovery_blocked}
use rexec_op.Lease.{LeaseDir}
use rexec_op.Queue.Topology.{
  validate_public_mutation, validate_strict_mutation_topology, claim_conflict,
}
use rexec_op.Queue.Facts.{Loader, load_recovery_facts, specific_claim_purpose}
use rexec_op.Queue.Claims.{enter_lease_guard}
use rexec_op.Queue.Completion.{exact_current_claim, dict_of}
use rexec_op.TargetLock.{Locks, States, read, is_stale}
use rexec_op.Storage.FileStore.{Files, list_operations}
use rexec_op.Coordinator.Maintenance.{LocalTime, maintenance_window_allows}

pub data AdmissionStatus : Type 0 where
  admitted queued : AdmissionStatus

-- ACTIVE_RUNTIME_STATES
abbrev pub active_runtime_states : List String
active_runtime_states = "running" ∷ "paused" ∷ "resuming" ∷ "retrying" ∷ "validating" ∷ []

abbrev pub runtime_policy : Operation → Fields
runtime_policy o = dict_or_none (get "runtime_policy" o.metadata)

-- `bool(policy.get("target_lock_enabled", True))`
abbrev pub target_lock_enabled : Operation → Bool
target_lock_enabled o =
    if has "target_lock_enabled" (runtime_policy o)
    then truthy (get "target_lock_enabled" (runtime_policy o))
    else true

abbrev pub is_runtime_active : Operation → Bool
is_runtime_active o = contains o.state active_runtime_states

-- The loop of `count_active_operations`; "" excludes no operation.
abbrev pub count_active : String → List Operation → ℕ
count_active excluded [] = 0
count_active excluded (o ∷ os) =
    let rest = count_active excluded os in
    if not (excluded == "") && o.id == excluded
    then rest
    else if is_runtime_active o
    then suc rest
    else rest

abbrev has_entries : List Value → Bool
has_entries [] = false
has_entries (v ∷ vs) = true

-- The dict of a claim and of what it is for.
abbrev pub selection_of : String × Fields → Fields
selection_of (purpose, claim) = field "purpose" (str purpose) (field "claim" (obj claim) end)

-- `_selection_claim`
abbrev selected_keys : Fields → Bool
selected_keys d =
    has "purpose" d && (has "claim" d && all (λ k. k == "purpose" || k == "claim") (keys d))

abbrev mapping_or_blocked : Value → Result (Option Fields)
mapping_or_blocked (obj claim) = ok (some claim)
mapping_or_blocked _ = err recovery_blocked

unfoldable pub selection_claim : Option Fields → String → Result (Option Fields)
selection_claim none purpose = ok none
selection_claim (some d) purpose =
    if selected_keys d && is_text purpose (get "purpose" d)
    then mapping_or_blocked (get "claim" d)
    else err recovery_blocked

module _ ⦃py : Python⦄ where
  -- `int(v or 1)`
  abbrev pub int_or_one : Value → Result ℤ
  int_or_one v = if truthy v then int_or_raise (as_int v) else ok (pos 1)

  abbrev pub max_concurrent : Operation → Result ℤ
  max_concurrent o = int_or_one (get "max_concurrent_operations" (runtime_policy o))

  abbrev windows_allow : LocalTime → List Value → Result (Unit {0})
  windows_allow local [] = ok tt
  windows_allow local (window ∷ windows) = do
    (allowed, reason) ← maintenance_window_allows local (window ∷ windows)
    raise_if (not allowed) (validation_error "apply blocked outside maintenance window (")

  abbrev check_windows : LocalTime → Value → Result (Unit {0})
  check_windows local (arr windows) = windows_allow local (to_list windows)
  check_windows local _ = ok tt

  unfoldable pub check_maintenance_window : LocalTime → Operation → Result (Unit {0})
  check_maintenance_window local o =
      if not (is_mutating_mode o.mode)
      then ok tt
      else check_windows local (get "maintenance_windows" (runtime_policy o))

  unfoldable pub count_active_operations : String → List String → Files → Result ℕ
  count_active_operations excluded names files = do
    operations ← list_operations names files
    ok (count_active excluded operations)

  -- A lock that is neither stale nor the operation's own.
  abbrev pub held_by_other : States → String → Option Fields → Bool
  held_by_other loaded id none = false
  held_by_other loaded id (some lock) =
      not (is_stale loaded lock) && not (text (get "operation_id" lock) == id)

  abbrev pub target_taken : States → Operation → Locks → Result Bool
  target_taken loaded o locks =
      if target_lock_enabled o
      then (do lock ← read o.environment o.target locks; ok (held_by_other loaded o.id lock))
      else ok false

  abbrev pub at_limit : Operation → ℤ → List String → Files → Result (AdmissionStatus × String)
  at_limit o most names files = do
    active ← count_active_operations o.id names files
    ok (if leb_ℤ most (pos active) then (queued, "max_concurrent_reached") else (admitted, ""))

  -- `_assess_for_execution`
  unfoldable pub assess_for_execution :
      States → List String → Operation → Locks → Files → Result (AdmissionStatus × String)
  unfolding count_active_operations
  assess_for_execution loaded names o locks files =
      if not (is_mutating_mode o.mode) then ok (admitted, "") else (do
        most ← max_concurrent o
        taken ← target_taken loaded o locks
        if taken then ok (queued, "target_locked") else at_limit o most names files)

  -- `_public_queue_has_compatible_pending`
  unfoldable pub public_queue_has_compatible_pending : JsonFile → Result Bool
  public_queue_has_compatible_pending file = do
    q ← load file
    validate_public_mutation q
    ok (has_entries q.pending)

  -- `_selection_from_existing_claim`
  unfoldable pub selection_from_existing_claim :
      Loader → LeaseDir → ℕ → String → Fields → Fields → JsonFile → Result Fields
  selection_from_existing_claim facts_of dir guard_now id lease snapshot file = do
    enter_lease_guard claim_conflict lease guard_now dir
    q ← load file
    validate_strict_mutation_topology q
    exact ← exact_current_claim (get id q.claims) id lease (some snapshot)
    raise_if (not exact) claim_conflict
    facts ← load_recovery_facts facts_of id
    purpose ← specific_claim_purpose facts
    ok (selection_of (purpose, dict_of (get id q.claims)))
