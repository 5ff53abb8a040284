-- ===== src/Attempts/Journal.antt =====
-- AttemptJournal of runtime_ops/attempts.py: the directory attempts/ as the list of its files, in
-- the order of their paths. A file is attempts/<operation>/<attempt>.json; each method is one run
-- over this state, and what it wrote before a raise stays written.
use Prim.Native.String
use package.text.Mathlib.Text.{is_le}
use rexec_op.Base.{
  ℕ, String, Bool, true, false, ◌&&◌, List, [], ◌∷◌, ◌==◌, if◌then◌else◌, Result, ok, err,
  builtin_error, validation_error, Action, commit, ◌>>=◌, ◌>>◌, raise_if,
}
use rexec_op.Json.{str, obj, Fields, get, put, is_text, is_true, JsonFile, missing, readable}
use rexec_op.Json.Python.{Python, text}
use rexec_op.Json.Coerce.{required}
use rexec_op.Attempts.{
  Request, build_pending_attempt, mark_attempt_started, finish_attempt_record,
  finish_attempt_indeterminate_if_started,
}

pub record Entry : Type 0 where
  pub operation : String
  pub attempt : String
  pub content : JsonFile

abbrev pub Journal : Type 0
Journal = List Entry

-- The order of two paths: by directory, then by file name.
abbrev path_le : String → String → Entry → Bool
path_le operation attempt e =
    if operation == e.operation
    then is_le (String.compare (String.◌++◌ attempt ".json") (String.◌++◌ e.attempt ".json"))
    else is_le (String.compare operation e.operation)

abbrev pub is_at : String → String → Entry → Bool
is_at operation attempt e = operation == e.operation && attempt == e.attempt

-- The file at a path.
unfoldable pub file_at : String → String → Journal → JsonFile
file_at operation attempt [] = missing
file_at operation attempt (e ∷ es) =
    if is_at operation attempt e then e.content else file_at operation attempt es

abbrev pub written : String → String → Fields → Entry
written operation attempt d = record {
  operation = operation;
  attempt = attempt;
  content = readable (obj d);
}

-- `_write`
unfoldable pub write : String → String → Fields → Journal → Journal
write operation attempt d [] = written operation attempt d ∷ []
write operation attempt d (e ∷ es) =
    if is_at operation attempt e
    then written operation attempt d ∷ es
    else if path_le operation attempt e
    then written operation attempt d ∷ e ∷ es
    else e ∷ write operation attempt d es

abbrev pub exists : JsonFile → Bool
exists missing = false
exists _ = true

-- `_read`
unfoldable pub read : JsonFile → Result Fields
read (readable (obj d)) = ok d
read (readable _) = err (validation_error "invalid execution attempt")
read _ = err builtin_error

module _ ⦃py : Python⦄ where
  -- `start`; the two clocks are those of `created_at` and of `started_at`.
  abbrev write_started : Request → Fields → ℕ → Action Journal Fields
  write_started r pending now journal =
      let started = mark_attempt_started pending now in
      (
        ok started,
        write r.operation_id r.attempt_id started
            (write r.operation_id r.attempt_id pending journal),
      )

  abbrev pub start_plan : Request → ℕ → Journal → Result Fields
  start_plan r now journal = do
    raise_if (exists (file_at r.operation_id r.attempt_id journal))
        (validation_error "execution attempt already exists")
    build_pending_attempt r now

  unfoldable pub start : Request → ℕ → ℕ → Action Journal Fields
  start r created started journal =
      commit (start_plan r created journal) (λ d. write_started r d started) journal

  -- `_path`
  unfoldable pub path : Fields → Result (String × String)
  path d = do
    operation ← required "operation_id" d
    attempt ← required "attempt_id" d
    ok (operation, attempt)

  -- Read the file of a record, change its content and write it back.
  abbrev pub update_plan :
      Fields → (Fields → Result Fields) → Journal → Result ((String × String) × Fields)
  update_plan d change journal = do
    at ← path d
    current ← read (file_at at.0 at.1 journal)
    next ← change current
    ok (at, next)

  abbrev write_at : (String × String) × Fields → Action Journal Fields
  write_at (at, d) journal = (ok d, write at.0 at.1 d journal)

  unfoldable pub finish : Fields → String → String → String → ℕ → Action Journal Fields
  finish d status result_digest error_class now journal =
      commit
        (update_plan d
          (λ current. finish_attempt_record current status result_digest error_class now) journal)
        write_at journal

  unfoldable pub finish_indeterminate_if_started : Fields → String → ℕ → Action Journal Fields
  finish_indeterminate_if_started d result_digest now journal =
      commit
        (update_plan d
          (λ current. finish_attempt_indeterminate_if_started current result_digest now) journal)
        write_at journal

  -- The update of `mark_started_indeterminate`.
  abbrev pub marked : Fields → ℕ → Fields
  marked d now =
      put "error_class" (str "outcome_indeterminate")
        (put "finished_at" (str (py.iso now)) (put "status" (str "indeterminate") d))

  -- `str(record.get("attempt_id") or path.stem)`
  abbrev pub attempt_name : Fields → Entry → String
  attempt_name d e = let name = text (get "attempt_id" d) in if name == "" then e.attempt else name

  abbrev pub keep_entry : Entry → Result (List String) × Journal → Result (List String) × Journal
  keep_entry e (r, es) = (r, e ∷ es)

  abbrev pub mark_entry :
      Entry → Fields → ℕ → Result (List String) × Journal → Result (List String) × Journal
  mark_entry e d now (r, es) = (
    r >>= λ names. ok (attempt_name d e ∷ names),
    record e { content = readable (obj (marked d now)) } ∷ es,
  )

  -- One file of the loop, before the files after it.
  abbrev mark_step :
      Entry
      → Result Fields
      → ℕ
      → Journal
      → Result (List String) × Journal
      → Result (List String) × Journal
  mark_step e (err x) now es rest = (err x, e ∷ es)
  mark_step e (ok d) now es rest =
      if is_text "started" (get "status" d) then mark_entry e d now rest else keep_entry e rest

  -- `mark_started_indeterminate`
  unfoldable pub mark_started_indeterminate : ℕ → Action Journal (List String)
  mark_started_indeterminate now [] = (ok [], [])
  mark_started_indeterminate now (e ∷ es) =
      let rest = mark_started_indeterminate now es in mark_step e (read e.content) now es rest

  abbrev pub is_indeterminate_effect : Fields → Bool
  is_indeterminate_effect d =
      is_text "indeterminate" (get "status" d) && is_true (get "side_effectful" d)

  abbrev or_later : Bool → Result Bool → Result Bool
  or_later true rest = ok true
  or_later false rest = rest

  -- `has_indeterminate_side_effect`
  unfoldable pub has_indeterminate_side_effect : String → Journal → Result Bool
  has_indeterminate_side_effect operation [] = ok false
  has_indeterminate_side_effect operation (e ∷ es) =
      let rest = has_indeterminate_side_effect operation es in
      if operation == e.operation
      then (do d ← read e.content; or_later (is_indeterminate_effect d) rest)
      else rest

  -- `list`
  unfoldable pub list : String → Journal → Result (List Fields)
  list operation [] = ok []
  list operation (e ∷ es) =
      let rest = list operation es in
      if operation == e.operation
      then (do d ← read e.content; later ← rest; ok (d ∷ later))
      else rest
