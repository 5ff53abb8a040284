-- ===== src/Coordinator/Admission.antt =====
-- What `admit_for_execution` answers, and what it leaves.
use rexec_op.Base.{arith, String, ◌≡◌, ap, subst, Bool, true, false, not, ok}
use rexec_op.Base.Actions.{go_on-eq_ok, lift-eq_ok, by_branch, returned, paired-eq_ok}
use rexec_op.Json.Python.{Python}
use rexec_op.Operation.Model.{Operation}
use rexec_op.Posture.{is_mutating_mode}
use rexec_op.Coordinator.{
  Root, Moment, mark_queued, acquire_prechecked_target, persist_prechecked_admission, take_target,
  after_assessment, admit_for_execution,
}
use rexec_op.Coordinator.Assessment.{
  AdmissionStatus, admitted, queued, assess_for_execution, public_queue_has_compatible_pending,
}

module _ ⦃py : Python⦄ (m : Moment) (o : Operation) (root : Root) where
  -- The ways in which the method returns.
  pub data Outcome (status : AdmissionStatus) (o' : Operation) (root' : Root) : Type 0 where
    waits :
        status ≡ queued
        → public_queue_has_compatible_pending root.queue ≡ ok true
        → o' ≡ o
        → root' ≡ root
        → Outcome status o' root'
    put_back :
        status ≡ queued
        → (reason : String) → mark_queued m reason o root ≡ (ok o', root')
        → Outcome status o' root'
    lost_target :
        status ≡ queued
        → (middle : Root) → acquire_prechecked_target m o root ≡ (ok false, middle)
        → mark_queued m "target_locked" o middle ≡ (ok o', root')
        → Outcome status o' root'
    read_only :
        status ≡ admitted
        → public_queue_has_compatible_pending root.queue ≡ ok false
        → is_mutating_mode o.mode ≡ false
        → o' ≡ o
        → root' ≡ root
        → Outcome status o' root'
    took_target :
        status ≡ admitted
        → public_queue_has_compatible_pending root.queue ≡ ok false
        → is_mutating_mode o.mode ≡ true
        → (reason : String)
        → assess_for_execution m.loaded m.names o root.locks root.files ≡ ok (admitted, reason)
        → (middle : Root) → acquire_prechecked_target m o root ≡ (ok true, middle)
        → persist_prechecked_admission m o middle ≡ (ok o', root')
        → Outcome status o' root'

  take_target-Outcome :
      {status : AdmissionStatus} {o' : Operation} {root' : Root} (reason : String)
      → public_queue_has_compatible_pending root.queue ≡ ok false
      → is_mutating_mode o.mode ≡ true
      → assess_for_execution m.loaded m.names o root.locks root.files ≡ ok (admitted, reason)
      → take_target m o root ≡ (ok (status, o'), root')
      → Outcome status o' root'
  unfolding take_target
  take_target-Outcome {status} {o'} {root'} reason clear mutates assessed h =
      let (taken, middle, acquired, rest) = go_on-eq_ok (acquire_prechecked_target m o root) _ h in
      let acquired_as = λ (b : Bool) (is : taken ≡ b).
        subst (λ c. acquire_prechecked_target m o root ≡ (ok c, middle)) is acquired in
      by_branch taken _ _ middle rest
        (λ won left.
          let (value, persisted) =
            paired-eq_ok admitted (persist_prechecked_admission m o middle) left in
          took_target value clear mutates reason assessed middle (acquired_as true won) persisted)
        (λ lost left.
          let (value, marked) = paired-eq_ok queued (mark_queued m "target_locked" o middle) left in
          lost_target value middle (acquired_as false lost) marked)

  after_assessment-Outcome :
      {status' : AdmissionStatus} {o' : Operation} {root' : Root} (status : AdmissionStatus)
      (reason : String)
      → public_queue_has_compatible_pending root.queue ≡ ok false
      → assess_for_execution m.loaded m.names o root.locks root.files ≡ ok (status, reason)
      → after_assessment m o status reason root ≡ (ok (status', o'), root')
      → Outcome status' o' root'
  unfolding after_assessment
  after_assessment-Outcome queued reason clear assessed h =
      let (value, marked) = paired-eq_ok queued (mark_queued m reason o root) h in
      put_back value reason marked
  after_assessment-Outcome admitted reason clear assessed h =
      by_branch (not (is_mutating_mode o.mode)) _ _ root h
        (λ reads_only left.
          let (value, end) = returned left in
          read_only (ap (λ p. p.0) value) clear (ground (arith, reads_only)) (ap (λ p. p.1) value)
            end)
        (λ mutates left. take_target-Outcome reason clear (ground (arith, mutates)) assessed left)

  pub admit_for_execution-Outcome :
      {status : AdmissionStatus} {o' : Operation} {root' : Root}
      → admit_for_execution m o root ≡ (ok (status, o'), root')
      → Outcome status o' root'
  unfolding admit_for_execution
  admit_for_execution-Outcome h =
      let (waiting, found, h₁) =
        lift-eq_ok (public_queue_has_compatible_pending root.queue) root _ h in
      by_branch waiting _ _ root h₁
        (λ busy left.
          let (value, end) = returned left in
          waits (ap (λ p. p.0) value)
            (subst (λ b. public_queue_has_compatible_pending root.queue ≡ ok b) busy found)
            (ap (λ p. p.1) value) end)
        (λ free left.
          let ((status, reason), assessed, rest) =
            lift-eq_ok (assess_for_execution m.loaded m.names o root.locks root.files) root _
              left in
          after_assessment-Outcome status reason
            (subst (λ b. public_queue_has_compatible_pending root.queue ≡ ok b) free found) assessed
            rest)
