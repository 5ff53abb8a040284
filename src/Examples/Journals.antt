-- ===== src/Examples/Journals.antt =====
-- One attempt that is started, finished, or cut off by a crash.
use rexec_op.Base.{◌≡◌, refl, [], ◌∷◌, none, ok, err, validation_error, false, any}
use rexec_op.Base.Int.{pos}
use rexec_op.Json.{int, obj, null, Fields, end, field, readable}
use rexec_op.Attempts.{
  Request, build_pending_attempt, pending_attempt, mark_attempt_started, finished,
  finish_attempt_record,
}
use rexec_op.Attempts.Journal.{
  Journal, start, finish, file_at, mark_started_indeterminate, has_indeterminate_side_effect, read,
  path,
}
use rexec_op.Attempts.Lifecycle.{finish_once}
use rexec_op.Attempts.Sweep.{sweep_reports, has_record_status, is_cut_off}
use rexec_op.Examples.Toy.{toy}

abbrev restart : Request
restart = record {
  operation_id = "op1";
  attempt_id = "attempt-1";
  operation_revision = pos 3;
  step_id = "restart";
  plan = null;
  execution_spec = none;
  target = "web1";
  mode = "execute";
  lease = field "lease_epoch" (int (pos 1)) end;
  execution_permit_ref = "";
}

abbrev started : Fields
started = mark_attempt_started (pending_attempt restart (pos 1) 5) 6

abbrev one_started : Journal
one_started =
    record { operation = "op1"; attempt = "attempt-1"; content = readable (obj started) } ∷ []

started_ok : (start restart 5 6 []).0 ≡ ok started
unfolding start file_at build_pending_attempt
started_ok = refl

finished_ok :
    (finish started "failed" "" "timeout" 7 one_started).0
    ≡ ok (finished started "failed" "" "timeout" 7)
unfolding finish path file_at read finish_attempt_record
finished_ok = refl

finish_once_example :
    let after = (finish started "failed" "" "timeout" 7 one_started).1 in
    finish started "completed" "" "" 8 after
    ≡ (err (validation_error "execution attempt is not started"), after)
finish_once_example =
    finish_once started "failed" "" "timeout" 7 one_started "completed" "" "" 8 finished_ok

swept_ok : (mark_started_indeterminate 9 one_started).0 ≡ ok ("attempt-1" ∷ [])
unfolding mark_started_indeterminate read
swept_ok = refl

sweep_reports_example :
    (any (has_record_status "started") (mark_started_indeterminate 9 one_started).1 ≡ false)
    × (has_indeterminate_side_effect "op1" (mark_started_indeterminate 9 one_started).1
        ≡ ok (any (is_cut_off "op1") one_started))
sweep_reports_example = sweep_reports 9 one_started "op1" swept_ok
