-- ===== src/Coordinator/Release.antt =====
-- What `release_operation` leaves of an operation.
use rexec_op.Base.{String, ◌≡◌, ◌≢◌, ◌⊎◌, Bool, ◌&&◌, none, some, ok}
use rexec_op.Json.Python.{Python}
use rexec_op.Operation.Model.{Operation}
use rexec_op.Posture.{is_mutating_mode}
use rexec_op.TargetLock.{Locks, holder_operation_id}
use rexec_op.Coordinator.Assessment.{target_lock_enabled}

-- Whether a release concerns the lock of the target.
abbrev pub frees_target : Operation → Bool
frees_target o = is_mutating_mode o.mode && target_lock_enabled o

module _ ⦃py : Python⦄ where
  -- What a release leaves of a lock: nobody holds it, or another operation does, as before.
  abbrev pub IsReleased : String → String → String → Locks → Locks → Type 0
  IsReleased operation_id environment target before after =
      (holder_operation_id environment target after ≡ ok none)
      ⊎ ((other : String) × (holder_operation_id environment target before ≡ ok (some other))
          × (other ≢ operation_id)
          × (after ≡ before))
