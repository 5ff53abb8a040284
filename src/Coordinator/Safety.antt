-- ===== src/Coordinator/Safety.antt =====
-- Who is admitted, and what becomes of an operation that is not.
use rexec_op.Base.{
  arith, ℕ, String, ◌≡◌, refl, sym, ap, ◌∙◌, ◌⊎◌, inl, inr, Bool, true, false, Result, ok,
  Bool-cases, ◌==◌, >>=-eq-ok,
}
use rexec_op.Base.Int.{ℤ, pos, leb_ℤ, ◌<ℤ◌}
use rexec_op.Json.Laws.{present-eq_some}
use rexec_op.Json.Python.{Python}
use rexec_op.Operation.Model.{Operation}
use rexec_op.Operation.Model.RoundTrip.{normal}
use rexec_op.Posture.{is_mutating_mode}
use rexec_op.TargetLock.{is_active, is_stale, lock_filename, read}
use rexec_op.TargetLock.Exclusion.{Holds, IsHeldBy, held_by, Holds-IsHeldBy}
use rexec_op.Storage.FileStore.{load_operation, revised}
use rexec_op.Coordinator.Assessment.{
  AdmissionStatus, admitted, queued, target_lock_enabled, assess_for_execution, max_concurrent,
  target_taken, at_limit, count_active_operations, public_queue_has_compatible_pending,
}
use rexec_op.Coordinator.{Root, Moment, admit_for_execution, without_queue_entry}
use rexec_op.Coordinator.Calls.{
  IsQueued, mark_queued-IsQueued, persist_prechecked_admission-eq_ok,
  acquire_prechecked_target_refused, acquire_prechecked_target-Holds,
}
use rexec_op.Coordinator.Admission.{
  waits, put_back, lost_target, read_only, took_target, admit_for_execution-Outcome,
}

queued≢admitted : {s : AdmissionStatus} → s ≡ queued → s ≡ admitted → ⊥
queued≢admitted p q = cc

true_not_false : ◌≡◌ {A = Result Bool} (ok true) (ok false) → ⊥
true_not_false e = cc

below : (most : ℤ) (n : ℕ) → leb_ℤ most (pos n) ≡ false → pos n <ℤ most
below most n h = ground arith

-- There is room for one more operation.
pub record HasRoom ⦃py : Python⦄ (m : Moment) (o : Operation) (root : Root) : Type 0 where
  pub most : ℤ
  pub active : ℕ
  pub limit : max_concurrent o ≡ ok most
  pub counted : count_active_operations o.id m.names root.files ≡ ok active
  pub room : pos active <ℤ most

module _ ⦃py : Python⦄ (m : Moment) (o : Operation) (root : Root) where
  at_limit-HasRoom :
      (most : ℤ) {reason : String}
      → max_concurrent o ≡ ok most
      → at_limit o most m.names root.files ≡ ok (admitted, reason)
      → HasRoom m o root
  at_limit-HasRoom most limit h =
      let (active, counted, decided) =
        >>=-eq-ok (count_active_operations o.id m.names root.files) _ h in
      record {
        most = most;
        active = active;
        limit = limit;
        counted = counted;
        room = elim (Bool-cases (leb_ℤ most (pos active))) [
          | inr free ↦ below most active free
          | inl full ↦ absurd (full_up (rw full at decided))
        ];
      }
    where
      full_up :
          {a b : String}
          → ◌≡◌ {A = Result (AdmissionStatus × String)} (ok (queued, a)) (ok (admitted, b))
          → ⊥
      full_up e = cc

  assess-HasRoom :
      {reason : String}
      → is_mutating_mode o.mode ≡ true
      → assess_for_execution m.loaded m.names o root.locks root.files ≡ ok (admitted, reason)
      → (target_taken m.loaded o root.locks ≡ ok false) × HasRoom m o root
  unfolding assess_for_execution
  assess-HasRoom mutates h =
      let (most, limit, h₁) = >>=-eq-ok (max_concurrent o) _ (rw mutates at h) in
      let (taken, found, h₂) = >>=-eq-ok (target_taken m.loaded o root.locks) _ h₁ in
      elim (Bool-cases taken) [
        | inr free ↦ (found ∙ ap (λ b. ok b) free, at_limit-HasRoom most limit (rw free at h₂))
        | inl busy ↦ absurd (held (rw busy at h₂))
      ]
    where
      held :
          {a b : String}
          → ◌≡◌ {A = Result (AdmissionStatus × String)} (ok (queued, a)) (ok (admitted, b))
          → ⊥
      held e = cc

  -- A mutating operation that is admitted came when nothing else waited in the queue and when fewer
  -- other operations were active than its policy allows; it is stored without its queue entry, and
  -- if its policy keeps the target lock and it has an id then it now holds its target.
  pub admitted_in_turn :
      {o' : Operation} {root' : Root}
      → admit_for_execution m o root ≡ (ok (admitted, o'), root')
      → is_mutating_mode o.mode ≡ true
      → (public_queue_has_compatible_pending root.queue ≡ ok false)
        × HasRoom m o root
        × (o' ≡ revised (without_queue_entry o) o'.operation_revision)
        × (load_operation o.id root'.files ≡ ok (normal o'))
        × (target_lock_enabled o ≡ true
            → (o.id == "") ≡ false
            → Holds o.id o.environment o.target root'.locks)
  admitted_in_turn {o'} {root'} h mutates = elim (admit_for_execution-Outcome m o root h) [
    | waits s _ _ _ ↦ absurd (queued≢admitted s refl)
    | put_back s _ _ ↦ absurd (queued≢admitted s refl)
    | lost_target s _ _ _ ↦ absurd (queued≢admitted s refl)
    | read_only _ _ reads _ _ ↦ absurd (both mutates reads)
    | took_target _ clear _ reason assessed middle acquired persisted ↦
        let (_, room) = assess-HasRoom mutates assessed in
        let (value, loaded, _, same_locks) =
          persist_prechecked_admission-eq_ok m o middle persisted in
        (
          clear,
          room,
          value,
          loaded,
          λ enabled named.
              rw same_locks
                (acquire_prechecked_target-Holds m o root mutates enabled named acquired),
        )
  ]
    where
      both : is_mutating_mode o.mode ≡ true → is_mutating_mode o.mode ≡ false → ⊥
      both p q = cc

  -- The assessment sees a lock that an active operation holds.
  sees_lock :
      (id : String)
      → IsHeldBy id root.locks (lock_filename o.environment o.target)
      → is_active m.loaded id ≡ true
      → (id == o.id) ≡ false
      → target_lock_enabled o ≡ true
      → target_taken m.loaded o root.locks ≡ ok true
  unfolding read is_stale
  sees_lock id (held_by found d opens there names named) active other enabled =
      rw (enabled, opens, present-eq_some found there, names, named, active, other) refl

  -- While an active operation holds a target, another mutating operation that keeps the target lock
  -- is not admitted to it, whatever the queue holds: the answer is "queued" and no lock changes.
  pub keeps_out :
      (id : String) {status : AdmissionStatus} {o' : Operation} {root' : Root}
      → Holds id o.environment o.target root.locks
      → is_active m.loaded id ≡ true
      → (id == o.id) ≡ false
      → is_mutating_mode o.mode ≡ true
      → target_lock_enabled o ≡ true
      → admit_for_execution m o root ≡ (ok (status, o'), root')
      → (status ≡ queued) × (root'.locks ≡ root.locks)
  keeps_out id held active other mutates enabled h = elim (admit_for_execution-Outcome m o root h) [
    | waits s _ _ same ↦ (s, ap (λ (r : Root). r.locks) same)
    | put_back s reason marked ↦ (s, (mark_queued-IsQueued m o root reason marked).1)
    | lost_target s middle refused marked ↦ (
      s,
      (mark_queued-IsQueued m o middle "target_locked" marked).1
          ∙ acquire_prechecked_target_refused m o root refused,
    )
    | read_only _ _ reads _ _ ↦ absurd (both mutates reads)
    | took_target _ _ _ _ assessed _ _ _ ↦ absurd (taken (assess-HasRoom mutates assessed).0)
  ]
    where
      both : is_mutating_mode o.mode ≡ true → is_mutating_mode o.mode ≡ false → ⊥
      both p q = cc

      taken : target_taken m.loaded o root.locks ≡ ok false → ⊥
      taken free = true_not_false (
          sym (
            sees_lock id (Holds-IsHeldBy id o.environment o.target root.locks held) active other
              enabled)
          ∙ free)

  -- An operation that is told "queued" either met a queue in which others wait, and nothing changed,
  -- or now waits at a place in the queue that its stored record names, and no lock changed.
  pub queued_waits :
      {o' : Operation} {root' : Root}
      → admit_for_execution m o root ≡ (ok (queued, o'), root')
      → ((public_queue_has_compatible_pending root.queue ≡ ok true) × (o' ≡ o) × (root' ≡ root))
        ⊎ ((reason : String) × IsQueued reason o o' root' × (root'.locks ≡ root.locks))
  queued_waits h = elim (admit_for_execution-Outcome m o root h) [
    | waits _ busy value same ↦ inl (busy, value, same)
    | put_back _ reason marked ↦
        let (waiting, same) = mark_queued-IsQueued m o root reason marked in
        inr (reason, waiting, same)
    | lost_target _ middle refused marked ↦
        let (waiting, same) = mark_queued-IsQueued m o middle "target_locked" marked in
        inr ("target_locked", waiting, same ∙ acquire_prechecked_target_refused m o root refused)
    | read_only s _ _ _ _ ↦ absurd (queued≢admitted refl s)
    | took_target s _ _ _ _ _ _ _ ↦ absurd (queued≢admitted refl s)
  ]
