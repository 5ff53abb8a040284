-- ===== src/Queue/Deferral.antt =====
-- `defer_claim_from_lease` of runtime_ops/queue.py: a claim that cannot start yet goes back to the
-- end of the queue.
use rexec_op.Base.{
  ℕ, String, Bool, false, not, ◌&&◌, ◌||◌, some, List, [], ◌∷◌, ◌++◌, ◌==◌, nat_eq, if◌then◌else◌,
  Result, ok, validation_error, Action, commit, ◌>>=◌, ◌>>◌, raise_if,
}
use rexec_op.Json.{Value, str, obj, Fields, get, put, is_text, same, JsonFile}
use rexec_op.Json.Python.{Python, text}
use rexec_op.Lease.{LeaseDir}
use rexec_op.Queue.Transition.{transition_record, project_process_identity, or_assertion}
use rexec_op.Queue.Store.{QueueData, in_pending, count_in, load}
use rexec_op.Queue.Topology.{claim_conflict}
use rexec_op.Queue.Facts.{Loader, RecoveryFacts, load_recovery_facts, has_load_reason, no_attempts}
use rexec_op.Queue.Claims.{Change, kept, stored, run_change, enter_lease_guard}
use rexec_op.Queue.Completion.{exact_current_claim, dict_of}

module _ ⦃py : Python⦄ where
  -- The comparisons of `_same_defer_is_complete`, with the two projected identities.
  unfoldable pub same_defer_fields :
      List Value → String → Fields → Fields → Fields → Fields → String → String → String → Bool
  same_defer_fields pending operation_id current transition snapshot lease reason prior now_held =
      nat_eq (count_in operation_id pending) 1
      && (text (get "operation_id" current) == operation_id
          && (same (get "owner_token" current) (get "owner_token" snapshot)
              && (same (get "process_instance_id" current) (get "process_instance_id" snapshot)
                  && (same (get "lease_epoch" current) (get "lease_epoch" snapshot)
                      && (same (get "attempt" current) (get "attempt" snapshot)
                          && (same (get "owner_token" current) (get "owner_token" lease)
                              && (same (get "process_instance_id" current)
                                    (get "process_instance_id" lease)
                                  && (same (get "lease_epoch" current) (get "lease_epoch" lease)
                                      && (is_text "requeued" (get "disposition" transition)
                                          && (is_text reason (get "reason" transition)
                                              && (same (get "claim_attempt" transition)
                                                    (get "attempt" snapshot)
                                                  && (same (get "prior_lease_epoch" transition)
                                                        (get "lease_epoch" snapshot)
                                                      && (is_text prior (
                                                            get "prior_process_instance_id"
                                                            transition)
                                                          && (same
                                                            (get "current_lease_epoch" transition)
                                                            (get "lease_epoch" lease)
                                                            && is_text now_held (
                                                            get "current_process_instance_id"
                                                            transition)))))))))))))))

  abbrev same_defer : List Value → String → Fields → Value → Fields → Fields → String → Result Bool
  same_defer pending operation_id current (obj transition) snapshot lease reason = do
    let prior_token = text (get "owner_token" snapshot)
    let current_token = text (get "owner_token" lease)
    prior ←
        or_assertion
          (project_process_identity (get "process_instance_id" snapshot) prior_token current_token)
    now_held ←
        or_assertion
          (project_process_identity (get "process_instance_id" lease) prior_token current_token)
    ok (
        same_defer_fields pending operation_id current transition snapshot lease reason prior
          now_held)
  same_defer pending operation_id current _ snapshot lease reason = ok false

  -- `_same_defer_is_complete`
  unfoldable pub same_defer_is_complete :
      List Value → String → Value → Fields → Fields → String → Result Bool
  same_defer_is_complete pending operation_id (obj current) snapshot lease reason =
      if is_text "requeued" (get "status" current)
      then same_defer pending operation_id current (get "last_transition" current) snapshot lease
          reason
      else ok false
  same_defer_is_complete pending operation_id _ snapshot lease reason = ok false

  -- The claim may be deferred: its operation is approved and was never attempted.
  abbrev may_defer : RecoveryFacts → Bool
  may_defer f = not (has_load_reason f) && (f.state == "approved" && no_attempts f.attempts)

  abbrev deferrable_reason : String → Bool
  deferrable_reason r = r == "max_concurrent_reached" || r == "target_locked"

  -- The change once the claim was found to be the caller's.
  unfoldable pub defer_exact :
      Loader → String → Fields → Fields → String → ℕ → QueueData → Result (Change (Unit {0}))
  defer_exact loader operation_id current lease reason now q = do
    facts ← load_recovery_facts loader operation_id
    raise_if (not (may_defer facts)) claim_conflict
    raise_if (in_pending operation_id q.pending) claim_conflict
    let claim' = put "status" (str "requeued") current
    transition ← transition_record claim' lease now "requeued" reason facts.state facts.attempts
    ok (
        stored
          (record {
            pending = q.pending ++ str operation_id ∷ [];
            claims =
                put operation_id (obj (put "last_transition" (obj transition) claim')) q.claims;
          })
          tt)

  unfoldable pub defer_plan :
      Loader
      → LeaseDir
      → ℕ
      → String
      → Fields
      → Fields
      → String
      → ℕ
      → JsonFile
      → Result (Change (Unit {0}))
  defer_plan loader dir guard_now operation_id snapshot lease reason now file = do
    raise_if (not (deferrable_reason reason)) (validation_error "unsupported queue deferral reason")
    enter_lease_guard claim_conflict lease guard_now dir
    q ← load file
    let current = get operation_id q.claims
    already ← same_defer_is_complete q.pending operation_id current snapshot lease reason
    if already then ok (kept tt) else do
      exact ← exact_current_claim current operation_id lease (some snapshot)
      raise_if (not exact) claim_conflict
      defer_exact loader operation_id (dict_of current) lease reason now q

  -- `defer_claim_from_lease`
  unfoldable pub defer_claim_from_lease :
      Loader → LeaseDir → ℕ → String → Fields → Fields → String → ℕ → Action JsonFile (Unit {0})
  unfolding defer_plan
  defer_claim_from_lease loader dir guard_now operation_id snapshot lease reason now file =
      commit (defer_plan loader dir guard_now operation_id snapshot lease reason now file)
        (run_change now) file
