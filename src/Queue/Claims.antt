-- ===== src/Queue/Claims.antt =====
-- The methods of RunNowQueue in runtime_ops/queue.py that add to the queue, take from it and claim
-- from it. Times are instants that the caller reads; the worker lease and the store's facts are
-- arguments.
pub mod Laws
pub mod Places
use rexec_op.Base.{
  ℕ, suc, ◌+◌, String, Bool, true, false, not, ◌&&◌, ◌||◌, Option, none, some, List, [], ◌∷◌, ◌++◌,
  ◌==◌, leb, ltb, if◌then◌else◌, Result, ok, err, builtin_error, validation_error,
  concurrency_conflict, Error, Action, commit, ◌>>=◌, ◌>>◌, raise_if,
}
use rexec_op.Base.Int.{ℤ, pos, negsuc}
use rexec_op.Json.{
  Value, null, int, str, obj, Fields, end, field, get, has, put, pop, JsonFile, is_text,
}
use rexec_op.Json.Python.{Python, text, as_int}
use rexec_op.Lease.{LeaseDir, validate, or_raise}
use rexec_op.Queue.Checks.{valid_bounded_integer, valid_public_claim_identity, max_transition_epoch}
use rexec_op.Queue.Store.{
  QueueData, in_pending, index_of, drop_all, drop_one, load, saved, recovery_blocked,
}
use rexec_op.Queue.Topology.{
  require_topology, validate_strict_mutation_topology, validate_public_mutation, has_claim_status,
  claim_conflict,
}
use rexec_op.Queue.Facts.{Loader, load_recovery_facts, specific_claim_purpose}

-- How a method ends: it returns and leaves the file, it saves the data and returns, or it saves
-- the data and raises.
pub data Change (A : Type 0) : Type 0 where
  kept : A → Change A
  stored : QueueData → A → Change A
  blocked : QueueData → Error → Change A

-- INVALID_QUEUE_CLAIM_PARAMETERS
abbrev pub invalid_parameters : Error
invalid_parameters = validation_error "invalid_queue_claim_parameters"

abbrev attempt_after : Value → Result ℕ
attempt_after (int (pos n)) =
    if valid_bounded_integer 9223372036854775806 1 (int (pos n))
    then ok (n + 1)
    else err recovery_blocked
attempt_after _ = err recovery_blocked

-- `_next_attempt`
unfoldable pub next_attempt : Value → Result ℕ
next_attempt (obj previous) = attempt_after (get "attempt" previous)
next_attempt _ = ok 1

-- `claim["last_transition"] = dict(previous["last_transition"])`, where both are dicts
abbrev pub carried : Value → Value
carried (obj previous) = get "last_transition" previous
carried _ = null

abbrev pub with_transition : Value → Fields → Fields
with_transition (obj t) claim = put "last_transition" (obj t) claim
with_transition _ claim = claim

module _ ⦃py : Python⦄ where
  -- `_validated_claim_expiry`, of a finite time to live in microseconds
  unfoldable pub validated_claim_expiry : ℤ → ℕ → Result ℕ
  validated_claim_expiry (negsuc n) now = err invalid_parameters
  validated_claim_expiry (pos n) now = do
    raise_if (leb n 0) invalid_parameters
    raise_if (ltb py.max_instant (now + n)) invalid_parameters
    ok (now + n)

  abbrev pub run_change : {A : Type 0} → ℕ → Change A → Action JsonFile A
  run_change now (kept a) file = (ok a, file)
  run_change now (stored q a) file = (ok a, saved q now)
  run_change now (blocked q e) file = (err e, saved q now)

  unfoldable pub enqueue_change : String → JsonFile → Result (Change ℕ)
  enqueue_change operation_id file = do
    q ← load file
    require_topology q
    raise_if (has_claim_status "claimed" (get operation_id q.claims))
        (concurrency_conflict "concurrency_conflict: active queue claim exists")
    let pending = q.pending ++ str operation_id ∷ []
    ok (
        if in_pending operation_id q.pending
        then kept (index_of operation_id q.pending)
        else stored (record q { pending = pending }) (index_of operation_id pending))

  unfoldable pub enqueue : String → ℕ → Action JsonFile ℕ
  unfolding enqueue_change
  enqueue operation_id now file = commit (enqueue_change operation_id file) (run_change now) file

  unfoldable pub remove_change : String → JsonFile → Result (Change (Unit {0}))
  remove_change operation_id file = do
    q ← load file
    validate_public_mutation q
    ok (
        if in_pending operation_id q.pending || has operation_id q.claims
        then stored
            (record {
              pending = drop_all operation_id q.pending;
              claims = pop operation_id q.claims;
            })
            tt
        else kept tt)

  unfoldable pub remove : String → ℕ → Action JsonFile (Unit {0})
  unfolding remove_change
  remove operation_id now file = commit (remove_change operation_id file) (run_change now) file

  unfoldable pub discard_pending_change : String → JsonFile → Result (Change (Unit {0}))
  discard_pending_change operation_id file = do
    q ← load file
    validate_public_mutation q
    ok (
        if in_pending operation_id q.pending
        then stored (record q { pending = drop_all operation_id q.pending }) tt
        else kept tt)

  unfoldable pub discard_pending : String → ℕ → Action JsonFile (Unit {0})
  unfolding discard_pending_change
  discard_pending operation_id now file =
      commit (discard_pending_change operation_id file) (run_change now) file

  abbrev take_first : QueueData → List Value → Change (Option Value)
  take_first q [] = kept none
  take_first q (v ∷ rest) = stored (record q { pending = rest }) (some v)

  unfoldable pub dequeue_change : JsonFile → Result (Change (Option Value))
  dequeue_change file = do q ← load file; validate_public_mutation q; ok (take_first q q.pending)

  unfoldable pub dequeue : ℕ → Action JsonFile (Option Value)
  unfolding dequeue_change
  dequeue now file = commit (dequeue_change file) (run_change now) file

  -- The claim that `_claim_unlocked` and `_claim_specific_unlocked` build.
  abbrev pub new_claim : String → Value → Value → Value → ℕ → ℕ → ℕ → Value → Fields
  new_claim operation_id token epoch process attempt now expires previous =
      with_transition (carried previous) (
        field "operation_id" (str operation_id) (
          field "status" (str "claimed") (
            field "owner_token" token (
              field "process_instance_id" process (
                field "lease_epoch" epoch (
                  field "attempt" (int (pos attempt)) (
                    field "claimed_at" (str (py.iso now))
                      (field "expires_at" (str (py.iso expires)) end))))))))

  -- `_claim_unlocked`. The topology check has made every pending entry a text.
  unfoldable pub claim_unlocked :
      QueueData → List Value → Value → Value → Value → ℕ → ℕ → Result (QueueData × Option Fields)
  claim_unlocked q (str operation_id ∷ rest) token epoch process expires now = do
    let previous = get operation_id q.claims
    raise_if (has_claim_status "claimed" previous)
        (concurrency_conflict "concurrency_conflict: active queue claim exists")
    attempt ← next_attempt previous
    let claim = new_claim operation_id token epoch process attempt now expires previous
    ok (record { pending = rest; claims = put operation_id (obj claim) q.claims }, some claim)
  claim_unlocked q [] token epoch process expires now = ok (q, none)
  claim_unlocked q (_ ∷ rest) token epoch process expires now = err builtin_error

  -- `_claim_specific_unlocked`
  unfoldable pub claim_specific_unlocked :
      QueueData → String → Value → Value → Value → ℕ → ℕ → Result (QueueData × Fields)
  claim_specific_unlocked q operation_id token epoch process expires now = do
    let previous = get operation_id q.claims
    attempt ← next_attempt previous
    let claim = new_claim operation_id token epoch process attempt now expires previous
    ok (
      record {
        pending = drop_one operation_id q.pending;
        claims = put operation_id (obj claim) q.claims;
      },
      claim,
    )

  -- `if claim is not None: save`
  abbrev pub claim_change : Bool → QueueData × Option Fields → Change (Option Fields)
  claim_change changed (q, some claim) = stored q (some claim)
  claim_change true (q, none) = stored q none
  claim_change false (q, none) = kept none

  abbrev pub valid_claim_parameters : Value → Value → Value → Bool
  valid_claim_parameters token epoch process =
      valid_public_claim_identity token
      && (valid_public_claim_identity process && valid_bounded_integer max_transition_epoch 1 epoch)

  unfoldable pub claim_plan :
      Value → Value → Value → ℤ → ℕ → JsonFile → Result (Change (Option Fields))
  claim_plan token epoch process ttl now file = do
    raise_if (not (valid_claim_parameters token epoch process)) invalid_parameters
    expires ← validated_claim_expiry ttl now
    q ← load file
    require_topology q
    claimed ← claim_unlocked q q.pending token epoch process expires now
    ok (claim_change false claimed)

  -- `claim`
  unfoldable pub claim : Value → Value → Value → ℤ → ℕ → Action JsonFile (Option Fields)
  unfolding claim_plan
  claim token epoch process ttl now file =
      commit (claim_plan token epoch process ttl now file) (run_change now) file

  -- `_enter_lease_guard`: every exception of the guard becomes one error.
  abbrev pub replace_error : Error → Result (Unit {0}) → Result (Unit {0})
  replace_error e (ok u) = ok u
  replace_error e (err x) = err e

  unfoldable pub enter_lease_guard : Error → Fields → ℕ → LeaseDir → Result (Unit {0})
  enter_lease_guard e lease now dir = replace_error e (validate lease now dir)

  unfoldable pub claim_specific_plan :
      Loader
      → LeaseDir
      → ℕ
      → String
      → Fields
      → ℕ
      → JsonFile
      → Result (Change (Option (String × Fields)))
  claim_specific_plan loader dir guard_now operation_id lease now file = do
    expires ← validated_claim_expiry (pos 120000000) now
    enter_lease_guard recovery_blocked lease guard_now dir
    q ← load file
    validate_strict_mutation_topology q
    raise_if (has_claim_status "claimed" (get operation_id q.claims)) claim_conflict
    if not (in_pending operation_id q.pending) then ok (kept none) else do
      facts ← load_recovery_facts loader operation_id
      purpose ← specific_claim_purpose facts
      epoch ← or_raise (as_int (get "lease_epoch" lease))
      (q', claim') ←
          claim_specific_unlocked q operation_id (str (text (get "owner_token" lease))) (int epoch)
            (str (text (get "process_instance_id" lease))) expires now
      ok (stored q' (some (purpose, claim')))

  -- `claim_specific_from_lease`
  unfoldable pub claim_specific_from_lease :
      Loader → LeaseDir → ℕ → String → Fields → ℕ → Action JsonFile (Option (String × Fields))
  unfolding claim_specific_plan
  claim_specific_from_lease loader dir guard_now operation_id lease now file =
      commit (claim_specific_plan loader dir guard_now operation_id lease now file) (run_change now)
        file
