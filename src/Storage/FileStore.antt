-- ===== src/Storage/FileStore.antt =====
-- storage/file_store.py: the operations. The directory operations/ is a function from ids to files.
-- The flock of an operation makes `save_operation` one step, and every number is finite.
use rexec_op.Base.{
  String, List, [], ◌∷◌, ◌==◌, not, if◌then◌else◌, Result, ok, err, builtin_error, validation_error,
  concurrency_conflict, Action, commit, ◌>>=◌, ◌>>◌, raise_if,
}
use rexec_op.Base.Int.{ℤ, pos, suc_ℤ, eq_ℤ}
use rexec_op.Json.{int, obj, get, put, JsonFile, missing, unreadable, readable}
use rexec_op.Json.Python.{Python, as_int}
use rexec_op.Json.Coerce.{int_or_raise}
use rexec_op.Operation.Model.{Operation, as_dict, from_dict}

abbrev pub Files : Type 0
Files = String → JsonFile

abbrev pub with_file : String → JsonFile → Files → Files
with_file id file files = λ a. if a == id then file else files a

abbrev pub revised : Operation → ℤ → Operation
revised o revision = record o { operation_revision = revision }

module _ ⦃py : Python⦄ where
  -- The revision that the file of an operation has, checked against that of the operation.
  abbrev pub current_revision : JsonFile → Operation → Result ℤ
  current_revision missing o = do
    raise_if (not (eq_ℤ o.operation_revision (pos 0)))
        (concurrency_conflict "concurrency_conflict: operation ")
    ok (pos 0)
  current_revision (readable (obj current)) o = do
    revision ← int_or_raise (as_int (get "operation_revision" current))
    raise_if (not (eq_ℤ revision o.operation_revision))
        (concurrency_conflict "concurrency_conflict: operation ")
    ok revision
  current_revision (readable _) o = err builtin_error
  current_revision unreadable o = err builtin_error

  -- The write; the operation returned is the caller's object after its update.
  abbrev write_revision : Operation → ℤ → Action Files Operation
  write_revision o revision files = (
    ok (revised o (suc_ℤ revision)),
    with_file o.id (readable (obj (put "operation_revision" (int (suc_ℤ revision)) (as_dict o))))
        files,
  )

  unfoldable pub save_operation : Operation → Action Files Operation
  unfolding as_dict
  save_operation o files =
      commit (current_revision (files o.id) o) (λ revision. write_revision o revision) files

  abbrev pub read_operation : JsonFile → Result Operation
  read_operation missing = err (validation_error "operation not found: ")
  read_operation (readable (obj d)) = from_dict d
  read_operation _ = err builtin_error

  unfoldable pub load_operation : String → Files → Result Operation
  unfolding from_dict
  load_operation id files = read_operation (files id)

  abbrev listed_operation : JsonFile → Result Operation
  listed_operation (readable (obj d)) = from_dict d
  listed_operation _ = err builtin_error

  -- `names` are the ids of the files of operations/ in path order, which the glob finds.
  unfoldable pub list_operations : List String → Files → Result (List Operation)
  unfolding from_dict
  list_operations [] files = ok []
  list_operations (name ∷ names) files = do
    first ← listed_operation (files name)
    rest ← list_operations names files
    ok (first ∷ rest)
