-- ===== src/Storage/Refinement.antt =====
-- The memory store and the file store answer alike: the operations of both are one map from ids to
-- operations with a revision check.
use rexec_op.Base.{
  String, ◌≡◌, refl, sym, ap, ◌∙◌, inl, inr, ◌==◌, Option, none, some, List, [], ◌∷◌, Result, ok,
  err, arith, Bool-cases,
}
use rexec_op.Base.Int.{ℤ, pos, eq_ℤ, suc_ℤ}
use rexec_op.Json.{int, obj, get, put, JsonFile, missing, readable}
use rexec_op.Json.Python.{Python}
use rexec_op.Operation.Model.{Operation, as_dict}
use rexec_op.Operation.Model.RoundTrip.{normal, from_dict-as_dict}
use rexec_op.Storage.FileStore.{Files, with_file, revised, current_revision}
use rexec_op.Storage.FileStore
use rexec_op.Storage.MemoryStore.{Operations, with_operation, checked_revision, copied}
use rexec_op.Storage.MemoryStore

eq_ℤ_sym : (a b : ℤ) → eq_ℤ a b ≡ eq_ℤ b a
eq_ℤ_sym a b = ground arith

-- The file of an operation and its entry in the dict.
data SameEntry : JsonFile → Option Operation → Type 0 where
  both_missing : SameEntry missing none
  both_hold : (o : Operation) → SameEntry (readable (obj (as_dict o))) (some (normal o))

abbrev SameStores : Files → Operations → Type 0
SameStores files operations = (id : String) → SameEntry (files id) (operations id)

as_dict-revised :
    (o : Operation) (n : ℤ) → put "operation_revision" (int n) (as_dict o) ≡ as_dict (revised o n)
unfolding as_dict
as_dict-revised o n = refl

revision_written : (o : Operation) → get "operation_revision" (as_dict o) ≡ int o.operation_revision
unfolding as_dict
revision_written o = refl

SameStores-write :
    (files : Files) (operations : Operations) (o : Operation)
    → SameStores files operations
    → SameStores
        (with_file o.id (readable (obj (as_dict o))) files)
        (with_operation o.id (normal o) operations)
SameStores-write files operations o h id = elim (Bool-cases (id == o.id)) [
  | inl same ↦ rw same (both_hold o)
  | inr other ↦ rw other (h id)
]

both_same : {A : Type 0} {a b : A} {xs ys : List A} → a ≡ b → xs ≡ ys → (a ∷ xs) ≡ (b ∷ ys)
both_same p q = cc

module _ ⦃py : Python⦄ where
  copied-normal : (o : Operation) → copied o ≡ ok (normal o)
  unfolding copied
  copied-normal o = from_dict-as_dict o

  -- Both stores read the same revision, or refuse alike.
  revisions_agree :
      (file : JsonFile) (entry : Option Operation) (o : Operation)
      → SameEntry file entry
      → current_revision file o ≡ checked_revision entry o
  revisions_agree _ _ o both_missing = rw (eq_ℤ_sym o.operation_revision (pos 0)) refl
  revisions_agree _ _ o (both_hold held) = rw (revision_written held) refl

  save_agrees :
      (files : Files) (operations : Operations) (o : Operation)
      → SameStores files operations
      → ((FileStore.save_operation o files).0 ≡ (MemoryStore.save_operation o operations).0)
        × SameStores
            (FileStore.save_operation o files).1
            (MemoryStore.save_operation o operations).1
  unfolding FileStore.save_operation MemoryStore.save_operation
  save_agrees files operations o h = go (checked_revision (operations o.id) o) refl
    where
      go :
          (r : Result ℤ)
          → checked_revision (operations o.id) o ≡ r
          → ((FileStore.save_operation o files).0 ≡ (MemoryStore.save_operation o operations).0)
            × SameStores
                (FileStore.save_operation o files).1
                (MemoryStore.save_operation o operations).1
      go (err e) same =
          rw (revisions_agree (files o.id) (operations o.id) o (h o.id), same) (refl, h)
      go (ok n) same =
          rw
            (
              revisions_agree (files o.id) (operations o.id) o (h o.id),
              same,
              copied-normal (revised o (suc_ℤ n)),
              as_dict-revised o (suc_ℤ n),
            )
            (refl, SameStores-write files operations (revised o (suc_ℤ n)) h)

  normal-normal : (o : Operation) → normal (normal o) ≡ normal o
  normal-normal o = elim (Bool-cases (o.requested_by == "")) [
    | inl empty ↦ rw empty refl
    | inr named ↦ rw (named, named) refl
  ]

  reads_agree :
      (file : JsonFile) (entry : Option Operation)
      → SameEntry file entry
      → FileStore.read_operation file ≡ MemoryStore.read_operation entry
  reads_agree _ _ both_missing = refl
  reads_agree _ _ (both_hold held) =
      from_dict-as_dict held ∙ sym (copied-normal (normal held) ∙ ap ok (normal-normal held))

  load_agrees :
      (files : Files) (operations : Operations) (id : String)
      → SameStores files operations
      → FileStore.load_operation id files ≡ MemoryStore.load_operation id operations
  unfolding FileStore.load_operation MemoryStore.load_operation
  load_agrees files operations id h = reads_agree (files id) (operations id) (h id)

-- A call of either store, and the answers of a sequence of calls.
pub data Call : Type 0 where
  save_call : Operation → Call
  load_call : String → Call

module _ ⦃py : Python⦄ where
  abbrev pub file_answers : List Call → Files → List (Result Operation)
  file_answers [] files = []
  file_answers (save_call o ∷ calls) files =
      (FileStore.save_operation o files).0 ∷ file_answers calls (FileStore.save_operation o files).1
  file_answers (load_call id ∷ calls) files =
      FileStore.load_operation id files ∷ file_answers calls files

  abbrev pub memory_answers : List Call → Operations → List (Result Operation)
  memory_answers [] operations = []
  memory_answers (save_call o ∷ calls) operations =
      (MemoryStore.save_operation o operations).0
      ∷ memory_answers calls (MemoryStore.save_operation o operations).1
  memory_answers (load_call id ∷ calls) operations =
      MemoryStore.load_operation id operations ∷ memory_answers calls operations

  answers_agree :
      (calls : List Call) (files : Files) (operations : Operations)
      → SameStores files operations
      → file_answers calls files ≡ memory_answers calls operations
  answers_agree [] files operations h = refl
  answers_agree (save_call o ∷ calls) files operations h =
      let (same, next) = save_agrees files operations o h in
      both_same same (answers_agree calls _ _ next)
  answers_agree (load_call id ∷ calls) files operations h =
      both_same (load_agrees files operations id h) (answers_agree calls files operations h)

  -- From empty stores, any sequence of saves and loads of operations gets the same answers from the
  -- file store as from the memory store: the same operations and revisions, and a raise of the same
  -- class where one raises.
  pub stores_agree :
      (calls : List Call) → file_answers calls (λ id. missing) ≡ memory_answers calls (λ id. none)
  stores_agree calls = answers_agree calls (λ id. missing) (λ id. none) (λ id. both_missing)
