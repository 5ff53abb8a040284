-- ===== src/Examples/Locks.antt =====
-- Two operations and one target.
use rexec_op.Base.{◌≡◌, refl, [], ◌∷◌, some, ok, true, false}
use rexec_op.Json.{missing, readable, obj}
use rexec_op.Operation.State.{running}
use rexec_op.TargetLock.{
  Locks, States, lock_filename, lock_record, with_file, acquire, holder_operation_id, read,
}
use rexec_op.TargetLock.Exclusion.{Holds, acquire_call, release_call, run, exclusive}
use rexec_op.Examples.Toy.{toy}

abbrev all_running : States
all_running = λ id. some running

abbrev free : Locks
free = λ name. missing

abbrev locked : Locks
locked = with_file "lab__web.lock" (readable (obj (lock_record "lab" "web" "op1" 5))) free

op1-Holds : Holds "op1" "lab" "web" locked
unfolding holder_operation_id read lock_filename
op1-Holds = refl

exclusive_example :
    Holds "op1" "lab" "web" (
      run
        ((all_running, acquire_call "lab" "web" "op2" 6)
          ∷ (all_running, release_call "lab" "web" "op2")
          ∷ [])
        locked)
    × (acquire all_running "lab" "web" "op2" 7 (
          run
            ((all_running, acquire_call "lab" "web" "op2" 6)
              ∷ (all_running, release_call "lab" "web" "op2")
              ∷ [])
            locked)
        ≡ (
          ok false,
          run
              ((all_running, acquire_call "lab" "web" "op2" 6)
                ∷ (all_running, release_call "lab" "web" "op2")
                ∷ [])
              locked,
        ))
exclusive_example =
    exclusive "op1" "lab" "web"
      ((all_running, acquire_call "lab" "web" "op2" 6)
        ∷ (all_running, release_call "lab" "web" "op2")
        ∷ [])
      locked all_running "op2" 7 op1-Holds (unfold lock_filename in refl) refl

taken : (acquire all_running "lab" "web" "op1" 5 free).0 ≡ ok true
unfolding acquire read
taken = refl
