-- ===== src/Examples/Coordination.antt =====
-- Admissions on a small runtime root, and a restart.
use rexec_op.Base.{
  arith, String, ◌≡◌, ◌↔◌, refl, [], ◌∷◌, none, some, true, false, ok, ◌==◌, if◌then◌else◌,
}
use rexec_op.Base.Int.{pos}
use rexec_op.Json.{Fields, str, end, field, obj, arr, nil, cons, put, missing, readable}
use rexec_op.Operation.State.{running, failed, value}
use rexec_op.Operation.Model.{Operation, as_dict}
use rexec_op.Operation.Model.RoundTrip.{normal}
use rexec_op.Lease.{EpochFile}
use rexec_op.Queue.Store.{load}
use rexec_op.Queue.Topology.{
  validate_public_mutation, validate_strict_mutation_topology, require_topology, validate_topology,
  first_unsound,
}
use rexec_op.Queue.Claims.{enqueue}
use rexec_op.TargetLock.{
  lock_filename, lock_record, with_file, holder_operation_id, read, acquire, is_stale,
}
use rexec_op.TargetLock.Exclusion.{Holds}
use rexec_op.Storage.FileStore.{save_operation, load_operation, list_operations, revised}
use rexec_op.Coordinator.Maintenance.{
  LocalTime, maintenance_window_allows, first_open, window_open, parse_hhmm,
}
use rexec_op.Coordinator.Assessment.{
  admitted, queued, public_queue_has_compatible_pending, assess_for_execution,
  check_maintenance_window, target_lock_enabled,
}
use rexec_op.Coordinator.{
  queue_entry, Root, Moment, admit_for_execution, after_assessment, take_target,
  acquire_prechecked_target, persist_prechecked_admission, mark_queued, without_queue_entry,
  release_operation,
}
use rexec_op.Coordinator.Safety.{HasRoom, admitted_in_turn, keeps_out}
use rexec_op.Coordinator.Windows.{HasOpen, check_maintenance_window_iff}
use rexec_op.Restart.Swept.{active_locks_stay}
use rexec_op.Restart.{release_stale_locks, Stamps, mark_interrupted, recovery_entry}
use rexec_op.Restart.Interrupted.{Stored, Answers}
use rexec_op.Restart.Marked.{mark_interrupted_fails}
use rexec_op.Examples.Toy.{toy}

abbrev job : String → Fields → Operation
job id metadata = record {
  id = id;
  profile = "lab";
  environment = "lab";
  intent = "fix";
  target = "web";
  mode = "apply";
  requested_by = "alice";
  state = "approved";
  created_at = "T";
  updated_at = "T";
  correlation_id = "";
  current_step_id = "";
  govengine_decision_type = "";
  govengine_decision_summary = "";
  sclite_refs = end;
  metadata = metadata;
  history = [];
  evidence_event_ids = [];
  operation_revision = pos 0;
}

abbrev start : Root
start = record {
  queue = missing;
  lease = record { lease = missing; epoch = EpochFile.absent };
  locks = λ name. missing;
  files = λ id. missing;
}

abbrev moment : Moment
moment = record {
  queue_now = 4;
  lock_now = 5;
  guard_now = 6;
  loaded = λ id. some running;
  facts = none;
  names = [];
}

abbrev after_first : Root
after_first = (admit_for_execution moment (job "op1" end) start).1

first_admitted :
    admit_for_execution moment (job "op1" end) start
    ≡ (ok (admitted, revised (job "op1" end) (pos 1)), after_first)
unfolding admit_for_execution after_assessment take_target acquire_prechecked_target
    persist_prechecked_admission public_queue_has_compatible_pending load assess_for_execution
    list_operations read acquire save_operation validate_public_mutation
    validate_strict_mutation_topology require_topology validate_topology first_unsound
first_admitted = refl

admitted_in_turn_example :
    (public_queue_has_compatible_pending start.queue ≡ ok false)
    × HasRoom moment (job "op1" end) start
    × (revised (job "op1" end) (pos 1) ≡ revised (without_queue_entry (job "op1" end)) (pos 1))
    × (load_operation "op1" after_first.files ≡ ok (normal (revised (job "op1" end) (pos 1))))
    × (target_lock_enabled (job "op1" end) ≡ true
        → ("op1" == "") ≡ false
        → Holds "op1" "lab" "web" after_first.locks)
admitted_in_turn_example = admitted_in_turn moment (job "op1" end) start first_admitted refl

-- The second operation wants the same target.
abbrev busy : Root
busy = record start {
  locks =
      with_file "lab__web.lock" (readable (obj (lock_record "lab" "web" "op1" 5)))
        (λ name. missing);
}

op1-Holds_web : Holds "op1" "lab" "web" busy.locks
unfolding holder_operation_id read lock_filename
op1-Holds_web = refl

abbrev waiting : Operation
waiting = job "op2" (field "queue" (queue_entry "target_locked" 0) end)

abbrev after_second : Root
after_second = (admit_for_execution moment (job "op2" end) busy).1

second_queued :
    admit_for_execution moment (job "op2" end) busy
    ≡ (ok (queued, revised waiting (pos 1)), after_second)
unfolding admit_for_execution after_assessment mark_queued enqueue
    public_queue_has_compatible_pending load assess_for_execution list_operations read
    save_operation lock_filename is_stale validate_public_mutation validate_strict_mutation_topology
    require_topology validate_topology first_unsound
second_queued = refl

keeps_out_example : (queued ≡ queued) × (after_second.locks ≡ busy.locks)
keeps_out_example =
    keeps_out moment (job "op2" end) busy "op1" op1-Holds_web refl refl refl refl second_queued

abbrev after_release : Root
after_release = (release_operation moment (job "op1" end) busy).1

-- A window without times, and one over midnight.
abbrev at_night : Fields
at_night = field "start" (str "22:30") (field "end" (str "02:30") end)

abbrev windowed : Operation
windowed = job "op3" (
    field "runtime_policy"
      (obj (field "maintenance_windows" (arr (cons (obj end) (cons (obj at_night) nil))) end)) end)

-- One o'clock in the morning.
abbrev one_clock : LocalTime
one_clock = λ zone. some 3600000000

check_maintenance_window_iff_example :
    (check_maintenance_window one_clock windowed ≡ ok tt)
    ↔ HasOpen one_clock (obj end ∷ obj at_night ∷ [])
check_maintenance_window_iff_example =
    check_maintenance_window_iff one_clock windowed (obj end) (cons (obj at_night) nil)
      (λ zone time h. let same : 3600000000 ≡ time = cc in rw (← same) (omega arith)) refl refl

-- The operation passes.
windowed_passes : check_maintenance_window one_clock windowed ≡ ok tt
unfolding check_maintenance_window maintenance_window_allows first_open window_open parse_hhmm toy
windowed_passes = refl

-- A restart finds a paused operation.
abbrev stamps : Stamps
stamps = λ state. record { timestamp = 7; updated = 8; event = ok "ev-1" }

answered : Answers stamps
answered = λ state. ("ev-1", refl)

abbrev stopped : Operation
stopped = record (job "op1" end) { state = "paused"; operation_revision = pos 4 }

abbrev crashed : Root
crashed = record busy {
  files = λ id. if id == "op1" then readable (obj (as_dict stopped)) else missing;
}

stopped-Stored : Stored stopped crashed.files
unfolding as_dict
stopped-Stored = record { file = refl; requested = refl }

lock_readable : read "lab" "web" busy.locks ≡ ok (some (lock_record "lab" "web" "op1" 5))
unfolding read lock_filename
lock_readable = refl

mark_interrupted_fails_example :
    (o' : Operation) × (root' : Root) × (mark_interrupted moment stamps 9 stopped crashed
      ≡ (ok o', root'))
    × (o'.id ≡ "op1")
    × (o'.state ≡ value failed)
    × (o'.metadata ≡ put "recovery" (obj (recovery_entry 9 end)) end)
    × Stored o' root'.files
    × (root'.queue ≡ missing)
mark_interrupted_fails_example =
    mark_interrupted_fails moment stamps 9 stopped crashed answered stopped-Stored refl
      lock_readable refl

active_locks_stay_example :
    Holds "op1" "lab" "web"
      (release_stale_locks (λ id. some running) ("lab__web.lock" ∷ []) busy.locks).1
active_locks_stay_example =
    active_locks_stay (λ id. some running) "op1" "lab" "web" ("lab__web.lock" ∷ []) busy.locks refl
      op1-Holds_web
