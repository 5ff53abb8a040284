-- ===== src/Storage/Writes.antt =====
-- What a save of the file store leaves.
use rexec_op.Base.{◌≡◌, refl, ==_refl, ok, commit-eq_ok}
use rexec_op.Base.Actions.{returned}
use rexec_op.Base.Int.{suc_ℤ}
use rexec_op.Json.Python.{Python}
use rexec_op.Operation.Model.{Operation, as_dict}
use rexec_op.Operation.Model.RoundTrip.{normal, from_dict-as_dict}
use rexec_op.Storage.FileStore.{Files, current_revision, revised, save_operation, load_operation}

module _ ⦃py : Python⦄ (o : Operation) (files : Files) where
  -- The operation that a save gave back is the saved one under a new revision, and it is what the
  -- store then loads.
  pub load-save :
      {o' : Operation} {files' : Files}
      → save_operation o files ≡ (ok o', files')
      → (o' ≡ revised o o'.operation_revision) × (load_operation o.id files' ≡ ok (normal o'))
  unfolding save_operation load_operation as_dict
  load-save {o'} {files'} h =
      let (revision, _, written) = commit-eq_ok (current_revision (files o.id) o) _ files h in
      let (value, left) = returned written in
      (
        rw value refl,
        rw (left, value, ==_refl o.id) (from_dict-as_dict (revised o (suc_ℤ revision))),
      )
