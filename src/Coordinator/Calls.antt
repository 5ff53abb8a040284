-- ===== src/Coordinator/Calls.antt =====
-- What the calls of RuntimeCoordinator leave in the runtime root.
use rexec_op.Base.{
  ℕ, String, ◌≡◌, sym, ap, subst, ◌∙◌, Bool, true, false, not, Option, none, some, Result, ok,
  Action, Bool-cases, inl, inr, commit-eq_ok, ◌==◌,
}
use rexec_op.Base.Actions.{go_on-eq_ok, by_branch, returned}
use rexec_op.Json.{Fields, get, JsonFile, present}
use rexec_op.Json.Laws.{get-put_self}
use rexec_op.Json.Python.{Python}
use rexec_op.Operation.Model.{Operation}
use rexec_op.Operation.Model.RoundTrip.{normal}
use rexec_op.Posture.{is_mutating_mode}
use rexec_op.Lease.{LeaseDir}
use rexec_op.Queue.Store.{position}
use rexec_op.Queue.Claims.{enqueue}
use rexec_op.Queue.Claims.Places.{position-enqueue}
use rexec_op.TargetLock.{Locks, States, acquire, acquire_from, read, is_stale}
use rexec_op.TargetLock.Exclusion.{Holds, acquire-Holds}
use rexec_op.Storage.FileStore.{Files, save_operation, load_operation, revised}
use rexec_op.Storage.Writes.{load-save}
use rexec_op.Coordinator.Assessment.{target_lock_enabled}
use rexec_op.Coordinator.{
  Root, Moment, on_queue, on_locks, on_files, queue_entry, with_queue_entry, mark_queued,
  acquire_prechecked_target, persist_prechecked_admission, without_queue_entry,
}

module _ {A : Type 0} (root : Root) {a : A} {root' : Root} where
  pub on_queue-eq_ok :
      (f : LeaseDir → Action JsonFile A)
      → on_queue f root ≡ (ok a, root')
      → (f root.lease root.queue ≡ (ok a, root'.queue))
        × (root'.locks ≡ root.locks)
        × (root'.files ≡ root.files)
  on_queue-eq_ok f h =
      (λ i. ((h i).0, ((h i).1).queue), λ i. ((sym h i).1).locks, λ i. ((sym h i).1).files)

  pub on_locks-eq_ok :
      (f : Action Locks A)
      → on_locks f root ≡ (ok a, root')
      → (f root.locks ≡ (ok a, root'.locks))
        × (root'.queue ≡ root.queue)
        × (root'.files ≡ root.files)
  on_locks-eq_ok f h =
      (λ i. ((h i).0, ((h i).1).locks), λ i. ((sym h i).1).queue, λ i. ((sym h i).1).files)

  pub on_files-eq_ok :
      (f : Action Files A)
      → on_files f root ≡ (ok a, root')
      → (f root.files ≡ (ok a, root'.files))
        × (root'.queue ≡ root.queue)
        × (root'.locks ≡ root.locks)
  on_files-eq_ok f h =
      (λ i. ((h i).0, ((h i).1).files), λ i. ((sym h i).1).queue, λ i. ((sym h i).1).locks)

-- The operation waits in the queue, and its record says so.
pub record IsQueued ⦃py : Python⦄ (reason : String) (o o' : Operation) (root : Root) : Type 0 where
  pub place : ℕ
  pub waits_at : position o.id root.queue ≡ ok (some place)
  pub noted : get "queue" o'.metadata ≡ queue_entry reason place
  pub stored : load_operation o.id root.files ≡ ok (normal o')

module _ ⦃py : Python⦄ (m : Moment) (o : Operation) (root : Root) {o' : Operation}
    {root' : Root} where
  pub mark_queued-IsQueued :
      (reason : String)
      → mark_queued m reason o root ≡ (ok o', root')
      → IsQueued reason o o' root' × (root'.locks ≡ root.locks)
  unfolding mark_queued
  mark_queued-IsQueued reason h =
      let (place, middle, queued, saved) =
        go_on-eq_ok (on_queue (λ _. enqueue o.id m.queue_now) root) _ h in
      let (in_queue, same_locks, _) = on_queue-eq_ok root (λ _. enqueue o.id m.queue_now) queued in
      let (on_disk, same_queue, same_locks') =
        on_files-eq_ok middle (save_operation (with_queue_entry reason place o)) saved in
      let (value, loaded) = load-save (with_queue_entry reason place o) middle.files on_disk in
      (
        record {
          place = place;
          waits_at = rw same_queue (position-enqueue o.id m.queue_now root.queue in_queue);
          noted =
              ap (λ (p : Operation). get "queue" p.metadata) value
              ∙ get-put_self "queue" (queue_entry reason place) o.metadata;
          stored = loaded;
        },
        same_locks' ∙ same_locks,
      )

  pub persist_prechecked_admission-eq_ok :
      persist_prechecked_admission m o root ≡ (ok o', root')
      → (o' ≡ revised (without_queue_entry o) o'.operation_revision)
        × (load_operation o.id root'.files ≡ ok (normal o'))
        × (root'.queue ≡ root.queue)
        × (root'.locks ≡ root.locks)
  unfolding persist_prechecked_admission
  persist_prechecked_admission-eq_ok h =
      let (on_disk, same_queue, same_locks) =
        on_files-eq_ok root (save_operation (without_queue_entry o)) h in
      let (value, loaded) = load-save (without_queue_entry o) root.files on_disk in
      (value, loaded, same_queue, same_locks)

-- A lock that was refused is left as it is.
acquire_refused :
    ⦃py : Python⦄ (loaded : States) (env target id : String) (now : ℕ) (locks : Locks)
    {locks' : Locks}
    → acquire loaded env target id now locks ≡ (ok false, locks')
    → locks' ≡ locks
unfolding acquire
acquire_refused loaded env target id now locks {locks'} h =
    let (existing, _, from) = commit-eq_ok (read env target locks) _ locks h in
    refused (present existing) from
  where
    refused :
        (found : Option Fields)
        → acquire_from loaded env target id now found locks ≡ (ok false, locks')
        → locks' ≡ locks
    refused none from = cc
    refused (some d) from = elim (Bool-cases (is_stale loaded d)) [
      | inl stale ↦ absurd (took (rw stale at from))
      | inr fresh ↦ (returned (rw fresh at from)).1
    ]
      where
        took : {l : Locks} → ◌≡◌ {A = Result Bool × Locks} (ok true, l) (ok false, locks') → ⊥
        took from = cc

module _ ⦃py : Python⦄ (m : Moment) (o : Operation) (root : Root) {root' : Root} where
  pub acquire_prechecked_target_refused :
      acquire_prechecked_target m o root ≡ (ok false, root') → root'.locks ≡ root.locks
  unfolding acquire_prechecked_target
  acquire_prechecked_target_refused h =
      by_branch (not (is_mutating_mode o.mode)) _ _ root h (λ _ left. absurd (clash left))
        (λ _ h₁.
          by_branch (not (target_lock_enabled o)) _ _ root h₁ (λ _ left. absurd (clash left))
            (λ _ left.
              acquire_refused m.loaded o.environment o.target o.id m.lock_now root.locks
                (on_locks-eq_ok root (acquire m.loaded o.environment o.target o.id m.lock_now)
                  left).0))
    where
      clash : {r : Root} → ◌≡◌ {A = Result Bool × Root} (ok true, r) (ok false, root') → ⊥
      clash left = cc

  -- A mutating operation that may take its target then holds it.
  pub acquire_prechecked_target-Holds :
      is_mutating_mode o.mode ≡ true
      → target_lock_enabled o ≡ true
      → (o.id == "") ≡ false
      → acquire_prechecked_target m o root ≡ (ok true, root')
      → Holds o.id o.environment o.target root'.locks
  unfolding acquire_prechecked_target
  acquire_prechecked_target-Holds mutates enabled named h =
      let call = acquire m.loaded o.environment o.target o.id m.lock_now in
      let (left, _, _) = on_locks-eq_ok root call (rw (mutates, enabled) at h) in
      subst (λ (l : Locks). Holds o.id o.environment o.target l) (ap (λ p. p.1) left)
        (acquire-Holds m.loaded o.environment o.target o.id m.lock_now root.locks named
          (ap (λ p. p.0) left))
