-- ===== src/Queue/Store.antt =====
-- The queue file of runtime_ops/queue.py: `_load_unlocked` and `_save_unlocked`, the list of
-- pending operations, and the methods that only read.
-- `queue_dir/run_now.json` is a `JsonFile`. Each method holds the file lock from its first read to
-- its last write, so it is one step on that file. `sort_keys` of the dump is left out: a dict's
-- order does not count.
pub mod RoundTrip
use rexec_op.Base.{
  ℕ, suc, String, Bool, true, false, not, ◌&&◌, ◌||◌, Option, none, some, List, [], ◌∷◌, ◌==◌,
  if◌then◌else◌, Result, ok, err, builtin_error, validation_error, Error, Action, commit, ◌>>=◌,
  ◌>>◌, raise_if,
}
use rexec_op.Json.{
  Value, null, str, arr, obj, Items, nil, cons, Fields, end, field, get, has, put, to_list, of_list,
  values, JsonFile, missing, unreadable, readable, is_text,
}
use rexec_op.Json.Python.{Python}
use rexec_op.Queue.Checks.{valid_transition_record}

-- QUEUE_CLAIM_RECOVERY_BLOCKED
abbrev pub recovery_blocked : Error
recovery_blocked = validation_error "queue_claim_recovery_blocked"

-- The dict that the methods work on: its keys are always these two.
pub record QueueData : Type 0 where
  pub pending : List Value
  pub claims : Fields

-- The entries of `pending` that are texts, which are all of them once the topology is checked.
abbrev pub texts : List Value → List String
texts [] = []
texts (str s ∷ vs) = s ∷ texts vs
texts (_ ∷ vs) = texts vs

-- `operation_id in pending`
abbrev pub in_pending : String → List Value → Bool
in_pending a [] = false
in_pending a (v ∷ vs) = is_text a v || in_pending a vs

-- `pending.index(operation_id)`
abbrev pub index_of : String → List Value → ℕ
index_of a [] = 0
index_of a (v ∷ vs) = if is_text a v then 0 else suc (index_of a vs)

-- `[item for item in pending if item != operation_id]`
abbrev pub drop_all : String → List Value → List Value
drop_all a [] = []
drop_all a (v ∷ vs) = if is_text a v then drop_all a vs else v ∷ drop_all a vs

-- `pending.remove(operation_id)`
abbrev pub drop_one : String → List Value → List Value
drop_one a [] = []
drop_one a (v ∷ vs) = if is_text a v then vs else v ∷ drop_one a vs

-- `pending.count(operation_id)`
abbrev pub count_in : String → List Value → ℕ
count_in a [] = 0
count_in a (v ∷ vs) = if is_text a v then suc (count_in a vs) else count_in a vs

module _ ⦃py : Python⦄ where
  -- The loop of `_load_unlocked` over the claims.
  abbrev pub check_claim : Value → Result (Unit {0})
  check_claim (obj d) =
      if has "last_transition" d
      then (do
        valid ← valid_transition_record (get "last_transition" d)
        raise_if (not valid) recovery_blocked)
      else ok tt
  check_claim _ = ok tt

  unfoldable pub check_claims : Fields → Result (Unit {0})
  check_claims end = ok tt
  check_claims (field k v d) = do check_claim v; check_claims d

  -- `data.get("claims")`: a dict, or nothing at all.
  abbrev pub claims_of : Value → Result Fields
  claims_of null = ok end
  claims_of (obj d) = ok d
  claims_of _ = err recovery_blocked

  abbrev pub pending_of : Value → Result (List Value)
  pending_of (arr xs) = ok (to_list xs)
  pending_of _ = err recovery_blocked

  unfoldable pub load : JsonFile → Result QueueData
  load missing = ok (record { pending = []; claims = end })
  load unreadable = err recovery_blocked
  load (readable (obj d)) = do
    waiting ← pending_of (get "pending" d)
    held ← claims_of (get "claims" d)
    check_claims held
    ok (record { pending = waiting; claims = held })
  load (readable _) = err recovery_blocked

  -- What `_save_unlocked` writes at an instant.
  abbrev pub saved : QueueData → ℕ → JsonFile
  saved q now = readable (
      obj (
        field "pending" (arr (of_list q.pending))
          (field "claims" (obj q.claims) (field "updated_at" (str (py.iso now)) end))))

  -- A method that returns a value, and saves the data if it changed them.
  abbrev pub keep : {A : Type 0} → A → Action JsonFile A
  keep a file = (ok a, file)

  abbrev pub save : {A : Type 0} → QueueData → ℕ → A → Action JsonFile A
  save q now a file = (ok a, saved q now)

  unfoldable pub list_pending : JsonFile → Result (List Value)
  list_pending file = do q ← load file; ok q.pending

  unfoldable pub position : String → JsonFile → Result (Option ℕ)
  position operation_id file = do
    pending ← list_pending file
    ok (if in_pending operation_id pending then some (index_of operation_id pending) else none)

  abbrev first : List Value → Option Value
  first [] = none
  first (v ∷ vs) = some v

  unfoldable pub peek : JsonFile → Result (Option Value)
  peek file = do pending ← list_pending file; ok (first pending)
