-- ===== src/Queue/Completion.antt =====
-- How a claim ends in runtime_ops/queue.py: completion, deferral, removal after cancellation.
pub mod Ownership
use rexec_op.Base.{
  ℕ, String, Bool, true, false, not, ◌&&◌, ◌||◌, Option, none, some, List, [], ◌∷◌, ◌++◌, ◌==◌,
  nat_eq, any, if◌then◌else◌, Result, ok, err, validation_error, Error, Action, commit, ◌>>=◌, ◌>>◌,
  raise_if,
}
use rexec_op.Base.Int.{ℤ, eq_ℤ}
use rexec_op.Json.{
  Value, null, str, obj, Fields, get, has, put, pop, is_text, is_empty, same, JsonFile, present,
}
use rexec_op.Json.Python.{Python, text, as_int}
use rexec_op.Lease.{LeaseDir, or_raise}
use rexec_op.Queue.Transition.{transition_record}
use rexec_op.Queue.Store.{QueueData, in_pending, count_in, drop_all, load, recovery_blocked}
use rexec_op.Queue.Topology.{validate_strict_mutation_topology, has_claim_status, claim_conflict}
use rexec_op.Queue.Facts.{
  Loader, RecoveryFacts, load_recovery_facts, has_load_reason, no_attempts, is_unfinished,
}
use rexec_op.Queue.Claims.{Change, kept, stored, run_change, enter_lease_guard}

-- `claim_snapshot or current`
abbrev pub expected_claim : Option Fields → Fields → Fields
expected_claim none current = current
expected_claim (some snapshot) current = if is_empty snapshot then current else snapshot

-- `all(current.get(field) == expected.get(field) for field in fields)`
unfoldable pub same_claim_fields : Fields → Fields → Bool
same_claim_fields current expected =
    same (get "operation_id" current) (get "operation_id" expected)
    && (same (get "owner_token" current) (get "owner_token" expected)
        && (same (get "process_instance_id" current) (get "process_instance_id" expected)
            && (same (get "lease_epoch" current) (get "lease_epoch" expected)
                && same (get "attempt" current) (get "attempt" expected))))

module _ ⦃py : Python⦄ where
  -- `int(a or 0) == int(b or 0)`, which raises where an `int` does.
  abbrev pub same_int : Value → Value → Result Bool
  same_int a b = do n ← or_raise (as_int a); m ← or_raise (as_int b); ok (eq_ℤ n m)

  -- `_exact_current_claim` of a claim that is a dict; each test is made if those before it hold.
  abbrev pub exact_fields : Fields → String → Fields → Fields → Result Bool
  exact_fields current operation_id lease expected =
      if text (get "operation_id" current) == operation_id
        && (same_claim_fields current expected
            && text (get "owner_token" current) == text (get "owner_token" lease))
      then (do
        epochs ← same_int (get "lease_epoch" current) (get "lease_epoch" lease)
        ok (
            epochs
            && text (get "process_instance_id" current) == text (get "process_instance_id" lease)))
      else ok false

  unfoldable pub exact_current_claim : Value → String → Fields → Option Fields → Result Bool
  exact_current_claim (obj current) operation_id lease snapshot =
      if is_text "claimed" (get "status" current)
      then exact_fields current operation_id lease (expected_claim snapshot current)
      else ok false
  exact_current_claim _ operation_id lease snapshot = ok false

  -- The claim of `complete_claim` if it is the caller's.
  abbrev owned_claim : Value → String → ℤ → Result Fields
  owned_claim (obj claim) token epoch =
      if is_text "claimed" (get "status" claim) && text (get "owner_token" claim) == token
      then (do
        n ← or_raise (as_int (get "lease_epoch" claim))
        raise_if (not (eq_ℤ n epoch)) claim_conflict
        ok claim)
      else err claim_conflict
  owned_claim _ token epoch = err claim_conflict

  unfoldable pub complete_claim_plan :
      String → String → ℤ → ℕ → JsonFile → Result (Change (Unit {0}))
  complete_claim_plan operation_id token epoch now file = do
    q ← load file
    claim ← owned_claim (get operation_id q.claims) token epoch
    let claim' = put "completed_at" (str (py.iso now)) (put "status" (str "completed") claim)
    ok (stored (record q { claims = put operation_id (obj claim') q.claims }) tt)

  -- `complete_claim`
  unfoldable pub complete_claim : String → String → ℤ → ℕ → Action JsonFile (Unit {0})
  unfolding complete_claim_plan
  complete_claim operation_id token epoch now file =
      commit (complete_claim_plan operation_id token epoch now file) (run_change now) file

  -- The fields of a claim that was found to be a dict.
  abbrev pub dict_of : Value → Fields
  dict_of (obj d) = d
  dict_of _ = Fields.end

  unfoldable pub complete_from_lease_plan :
      LeaseDir → ℕ → String → Fields → Option Fields → ℕ → JsonFile → Result (Change (Unit {0}))
  complete_from_lease_plan dir guard_now operation_id lease snapshot now file = do
    enter_lease_guard claim_conflict lease guard_now dir
    q ← load file
    let claim = get operation_id q.claims
    exact ← exact_current_claim claim operation_id lease snapshot
    raise_if (not exact) claim_conflict
    let claim' =
        put "completed_at" (str (py.iso now)) (put "status" (str "completed") (dict_of claim))
    transition ← transition_record claim' lease now "completed" "claim_completed" "unavailable" []
    ok (
        stored
          (record q {
            claims =
                put operation_id (obj (put "last_transition" (obj transition) claim')) q.claims;
          })
          tt)

  -- `complete_claim_from_lease`
  unfoldable pub complete_claim_from_lease :
      LeaseDir → ℕ → String → Fields → Option Fields → ℕ → Action JsonFile (Unit {0})
  unfolding complete_from_lease_plan
  complete_claim_from_lease dir guard_now operation_id lease snapshot now file =
      commit (complete_from_lease_plan dir guard_now operation_id lease snapshot now file)
        (run_change now) file

  unfoldable pub complete_and_remove_plan :
      LeaseDir → ℕ → String → Fields → Fields → JsonFile → Result (Change (Unit {0}))
  complete_and_remove_plan dir guard_now operation_id lease snapshot file = do
    enter_lease_guard claim_conflict lease guard_now dir
    q ← load file
    validate_strict_mutation_topology q
    raise_if (in_pending operation_id q.pending) recovery_blocked
    raise_if (not (is_text "claimed" (get "status" snapshot))) claim_conflict
    exact ← exact_current_claim (get operation_id q.claims) operation_id lease (some snapshot)
    raise_if (not exact) claim_conflict
    ok (stored (record q { claims = pop operation_id q.claims }) tt)

  -- `_complete_and_remove_claim_from_lease`
  unfoldable pub complete_and_remove_claim_from_lease :
      LeaseDir → ℕ → String → Fields → Fields → ℕ → Action JsonFile (Unit {0})
  unfolding complete_and_remove_plan
  complete_and_remove_claim_from_lease dir guard_now operation_id lease snapshot now file =
      commit (complete_and_remove_plan dir guard_now operation_id lease snapshot file)
        (run_change now) file

  abbrev cancel_is_safe : RecoveryFacts → Bool
  cancel_is_safe f =
      not (has_load_reason f) && (f.state == "cancelled" && not (any is_unfinished f.attempts))

  unfoldable pub remove_cancelled_plan :
      Loader → LeaseDir → ℕ → String → Fields → JsonFile → Result (Change (Unit {0}))
  remove_cancelled_plan loader dir guard_now operation_id lease file = do
    enter_lease_guard recovery_blocked lease guard_now dir
    q ← load file
    validate_strict_mutation_topology q
    facts ← load_recovery_facts loader operation_id
    raise_if (not (cancel_is_safe facts)) recovery_blocked
    ok (
        if in_pending operation_id q.pending || has operation_id q.claims
        then stored
            (record {
              pending = drop_all operation_id q.pending;
              claims = pop operation_id q.claims;
            })
            tt
        else kept tt)

  -- `remove_cancelled_from_lease`
  unfoldable pub remove_cancelled_from_lease :
      Loader → LeaseDir → ℕ → String → Fields → ℕ → Action JsonFile (Unit {0})
  unfolding remove_cancelled_plan
  remove_cancelled_from_lease loader dir guard_now operation_id lease now file =
      commit (remove_cancelled_plan loader dir guard_now operation_id lease file) (run_change now)
        file
