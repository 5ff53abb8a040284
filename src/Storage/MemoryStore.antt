-- ===== src/Storage/MemoryStore.antt =====
-- storage/memory_store.py: the operations of InMemoryStore, a dict from ids to operations.
use rexec_op.Base.{
  String, ◌==◌, not, Option, none, some, if◌then◌else◌, Result, ok, err, validation_error,
  concurrency_conflict, Action, commit, ◌>>◌, raise_if,
}
use rexec_op.Base.Int.{ℤ, pos, suc_ℤ, eq_ℤ}
use rexec_op.Json.Python.{Python}
use rexec_op.Operation.Model.{Operation, as_dict, from_dict}

abbrev pub Operations : Type 0
Operations = String → Option Operation

abbrev pub with_operation : String → Operation → Operations → Operations
with_operation id o operations = λ a. if a == id then some o else operations a

abbrev revision_of : Option Operation → ℤ
revision_of none = pos 0
revision_of (some o) = o.operation_revision

module _ ⦃py : Python⦄ where
  -- `Operation.from_dict(operation.as_dict())`
  unfoldable pub copied : Operation → Result Operation
  unfolding as_dict from_dict
  copied o = from_dict (as_dict o)

  abbrev store_copy : Operation → Result Operation → Action Operations Operation
  store_copy o (ok copy) operations = (ok o, with_operation o.id copy operations)
  store_copy o (err e) operations = (err e, operations)

  abbrev pub checked_revision : Option Operation → Operation → Result ℤ
  checked_revision current o = do
    raise_if (not (eq_ℤ (revision_of current) o.operation_revision))
        (concurrency_conflict "concurrency_conflict: operation ")
    ok (revision_of current)

  unfoldable pub save_operation : Operation → Action Operations Operation
  unfolding copied
  save_operation o operations =
      commit (checked_revision (operations o.id) o)
        (λ revision.
          let next = record o { operation_revision = suc_ℤ revision } in
          store_copy next (copied next))
        operations

  abbrev pub read_operation : Option Operation → Result Operation
  read_operation none = err (validation_error "operation not found: ")
  read_operation (some o) = copied o

  unfoldable pub load_operation : String → Operations → Result Operation
  unfolding copied
  load_operation id operations = read_operation (operations id)
