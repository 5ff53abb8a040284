-- ===== src/Examples/Queues.antt =====
-- A queue of two operations, a claim that its worker left behind, and its recovery.
use rexec_op.Base.{
  String, ◌≡◌, refl, List, ◌⊎◌, [], ◌∷◌, none, some, ok, err, concurrency_conflict, ◌≢◌, true,
  false,
}
use rexec_op.Base.Int.{pos}
use rexec_op.Json.{
  Value, int, str, arr, obj, nil, put, Fields, end, field, get, readable, null, same,
}
use rexec_op.Json.Python.{parse_time}
use rexec_op.Lease.{
  LeaseDir, EpochFile, new_lease, validate, require_owner, read_unlocked, is_stale,
}
use rexec_op.Queue.Completion.{
  complete_claim_from_lease, complete_from_lease_plan, exact_current_claim, same_claim_fields,
}
use rexec_op.Queue.Completion.Ownership.{completes_only_own, completion_raises_clean, CompletesOwn}
use rexec_op.Queue.Checks.{valid_bounded_integer, is_member, valid_public_claim_identity}
use rexec_op.Queue.Transition.{project_process_identity, transition_record}
use rexec_op.Queue.Transition.Projection.{project_process_identity_safe}
use rexec_op.Queue.Store.{QueueData, load, saved, check_claims, in_pending}
use rexec_op.Queue.Store.RoundTrip.{load-saved}
use rexec_op.Queue.Topology.{
  first_unsound, claim_is_sound, has_claim_status, require_topology, validate_topology,
  valid_claim_identity,
}
use rexec_op.Queue.Facts.{Loader, load_recovery_facts, scan_attempts}
use rexec_op.Queue.Claims.{
  claim, claim_plan, claim_unlocked, new_claim, validated_claim_expiry, next_attempt,
  enter_lease_guard,
}
use rexec_op.Queue.Recovery.{
  recover_expired_claims_from_lease, recover_plan, recover_expired_unlocked, recover_loop, judge,
  judge_facts, apply_verdict,
}
use rexec_op.Queue.Recovery.Fates.{recover_expired_claims_from_lease-IsRecovery, IsRecovery}
use rexec_op.Queue.Invariant.{IsWellFormed, claim-IsWellFormed}
use rexec_op.Queue.Fifo.{claim_takes_first, claim_refuses_claimed}
use rexec_op.Examples.Toy.{toy, toy_iso, toy_from_iso, read_row, row}

abbrev two_pending : QueueData
two_pending = record { pending = str "op1" ∷ str "op2" ∷ []; claims = end }

abbrev worker_claim : Fields
worker_claim = new_claim "op1" (str "t1") (int (pos 1)) (str "p1") 1 5 15 null

abbrev one_claimed : QueueData
one_claimed = record { pending = str "op1" ∷ []; claims = field "op1" (obj worker_claim) end }

two_loads : load (saved two_pending 3) ≡ ok two_pending
unfolding check_claims
two_loads = load-saved two_pending 3 refl

two_sound : first_unsound two_pending.pending two_pending.claims ≡ ok none
unfolding first_unsound
two_sound = refl

abbrev two_pending-IsWellFormed : IsWellFormed (saved two_pending 3)
two_pending-IsWellFormed = record {
  content = two_pending;
  loads = two_loads;
  orderly = record { all_texts = refl; no_repeats = refl };
  sound = two_sound;
  unique = refl;
}

one_loads : load (saved one_claimed 3) ≡ ok one_claimed
unfolding check_claims
one_loads = load-saved one_claimed 3 refl

one_sound : first_unsound one_claimed.pending one_claimed.claims ≡ ok none
unfolding first_unsound claim_is_sound valid_claim_identity valid_bounded_integer is_member
one_sound = refl

abbrev one_claimed-IsWellFormed : IsWellFormed (saved one_claimed 3)
one_claimed-IsWellFormed = record {
  content = one_claimed;
  loads = one_loads;
  orderly = record { all_texts = refl; no_repeats = refl };
  sound = one_sound;
  unique = refl;
}

claim-IsWellFormed_example :
    IsWellFormed (claim (str "t1") (int (pos 1)) (str "p1") (pos 10) 5 (saved two_pending 3)).1
claim-IsWellFormed_example =
    claim-IsWellFormed (str "t1") (int (pos 1)) (str "p1") (pos 10) 5 (saved two_pending 3)
      two_pending-IsWellFormed

claim_takes_first_example :
    ((claim (str "t1") (int (pos 1)) (str "p1") (pos 10) 5 (saved two_pending 3)).0
      ≡ ok (some worker_claim))
    × (load (claim (str "t1") (int (pos 1)) (str "p1") (pos 10) 5 (saved two_pending 3)).1
        ≡ ok (record { pending = str "op2" ∷ []; claims = field "op1" (obj worker_claim) end }))
    × (in_pending "op1" (str "op2" ∷ []) ≡ false)
    × (get "status" worker_claim ≡ str "claimed")
    × (get "owner_token" worker_claim ≡ str "t1")
    × (get "lease_epoch" worker_claim ≡ int (pos 1))
    × (get "attempt" worker_claim ≡ int (pos 1))
claim_takes_first_example =
    claim_takes_first (str "t1") (int (pos 1)) (str "p1") (pos 10) 5 15 (saved two_pending 3)
      two_pending-IsWellFormed
      (unfold valid_public_claim_identity valid_bounded_integer toy in refl)
      (unfold validated_claim_expiry toy in refl) refl refl (unfold next_attempt in refl)

abbrev op1_taken : QueueData
op1_taken = record { pending = str "op2" ∷ []; claims = field "op1" (obj worker_claim) end }

op1_claimed :
    claim (str "t1") (int (pos 1)) (str "p1") (pos 10) 5 (saved two_pending 3)
    ≡ (ok (some worker_claim), saved op1_taken 5)
unfolding claim claim_plan claim_unlocked valid_public_claim_identity valid_bounded_integer toy
    validated_claim_expiry next_attempt require_topology validate_topology first_unsound
op1_claimed = rw two_loads

claim_refuses_claimed_example :
    (q : QueueData) × (id : String) × (rest : List Value) × (load (saved two_pending 3) ≡ ok q)
    × (q.pending ≡ str id ∷ rest)
    × (has_claim_status "claimed" (get id q.claims) ≡ false)
    × (get "operation_id" worker_claim ≡ str id)
    × (get "owner_token" worker_claim ≡ str "t1")
    × (saved op1_taken 5
        ≡ saved (record { pending = rest; claims = put id (obj worker_claim) q.claims }) 5)
claim_refuses_claimed_example =
    claim_refuses_claimed (str "t1") (int (pos 1)) (str "p1") (pos 10) 5 (saved two_pending 3)
      op1_claimed

project_process_identity_safe_example :
    (s : String) × (project_process_identity
        (str "redacted-process-identity")
        "redacted-process-identity"
        "p"
      ≡ some s)
    × (s ≢ "redacted-process-identity")
    × (s ≢ "p")
project_process_identity_safe_example =
    project_process_identity_safe (str "redacted-process-identity") "redacted-process-identity" "p"

abbrev next_lease : Fields
next_lease =
    field "owner_token" (str "t2")
      (field "lease_epoch" (int (pos 2)) (field "process_instance_id" (str "p2") end))

abbrev store_of : String → Loader
store_of state = some (λ id. some (state, arr nil))

abbrev recovered_worker : Fields
recovered_worker = new_lease "w2" "p2" (pos 2) "t2" 16 20 0

abbrev next_dir : LeaseDir
next_dir = record { lease = readable (obj recovered_worker); epoch = EpochFile.number (pos 2) }

abbrev left_behind : QueueData
left_behind = record { pending = []; claims = field "op1" (obj worker_claim) end }

left_loads : load (saved left_behind 3) ≡ ok left_behind
unfolding check_claims
left_loads = load-saved left_behind 3 refl

-- The recovery of that file returns true.
left_recovered :
    (recover_expired_claims_from_lease
      (store_of "approved")
      next_dir
      20
      recovered_worker
      20
      20
      (saved left_behind 3)).0
    ≡ ok true
unfolding recover_expired_claims_from_lease recover_plan enter_lease_guard validate require_owner
    read_unlocked is_stale parse_time toy toy_iso toy_from_iso read_row row recover_expired_unlocked
    validate_topology first_unsound claim_is_sound valid_claim_identity valid_bounded_integer
    is_member recover_loop judge judge_facts load_recovery_facts scan_attempts apply_verdict
    transition_record
left_recovered = rw left_loads

recover_expired_claims_from_lease-IsRecovery_example :
    let r =
      recover_expired_claims_from_lease
        (store_of "approved")
        next_dir
        20
        recovered_worker
        20
        20
        (saved left_behind 3) in
    (r.1 ≡ saved left_behind 3)
    ⊎ IsRecovery
        (store_of "approved")
        recovered_worker
        20
        "op1"
        next_dir
        20
        20
        (saved left_behind 3)
        r
recover_expired_claims_from_lease-IsRecovery_example =
    recover_expired_claims_from_lease-IsRecovery (store_of "approved") recovered_worker 20 "op1"
      next_dir 20 20 (saved left_behind 3)

abbrev first_worker : Fields
first_worker = new_lease "w1" "p1" (pos 1) "t1" 5 10 0

abbrev first_dir : LeaseDir
first_dir = record { lease = readable (obj first_worker); epoch = EpochFile.number (pos 1) }

completed_ok :
    (complete_claim_from_lease first_dir 9 "op1" first_worker none 9 (saved one_claimed 3)).0
    ≡ ok tt
unfolding complete_claim_from_lease complete_from_lease_plan enter_lease_guard validate
    require_owner read_unlocked is_stale parse_time toy toy_iso toy_from_iso read_row row
    exact_current_claim same_claim_fields same transition_record
completed_ok = rw one_loads

completes_only_own_example :
    CompletesOwn first_dir 9 "op1" first_worker 9
      (saved one_claimed 3)
      (complete_claim_from_lease first_dir 9 "op1" first_worker none 9 (saved one_claimed 3)).1
completes_only_own_example =
    completes_only_own first_dir 9 "op1" first_worker none 9 (saved one_claimed 3) completed_ok

expired_worker :
    (complete_claim_from_lease first_dir 30 "op1" first_worker none 30 (saved one_claimed 3)).0
    ≡ err (concurrency_conflict "concurrency_conflict: queue claim ownership lost")
unfolding complete_claim_from_lease complete_from_lease_plan enter_lease_guard validate
    require_owner read_unlocked is_stale parse_time toy toy_iso toy_from_iso read_row row
expired_worker = refl

completion_raises_clean_example :
    (complete_claim_from_lease first_dir 30 "op1" first_worker none 30 (saved one_claimed 3)).1
    ≡ saved one_claimed 3
completion_raises_clean_example =
    completion_raises_clean first_dir 30 "op1" first_worker none 30 (saved one_claimed 3)
      expired_worker
