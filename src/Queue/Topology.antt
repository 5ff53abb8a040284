-- ===== src/Queue/Topology.antt =====
-- The consistency of pending and claims: `_validate_topology` of runtime_ops/queue.py and the
-- stricter checks before a mutation.
pub mod Laws
use rexec_op.Base.{
  String, Bool, true, false, not, ◌&&◌, ◌||◌, Option, none, some, List, [], ◌∷◌, ◌==◌, all, any,
  sorted, distinct, if◌then◌else◌, Result, ok, err, concurrency_conflict, Error, ◌>>=◌, ◌>>◌,
  raise_if,
}
use rexec_op.Json.{Value, str, obj, Fields, end, field, get, keys, is_text, is_nonempty_text}
use rexec_op.Json.Python.{Python, text}
use rexec_op.Queue.Checks.{is_member, valid_bounded_integer, max_transition_epoch}
use rexec_op.Queue.Store.{QueueData, texts, in_pending, recovery_blocked}

abbrev pub claim_statuses : List String
claim_statuses = "claimed" ∷ "completed" ∷ "requeued" ∷ []

-- `_claim_conflict`
abbrev pub claim_conflict : Error
claim_conflict = concurrency_conflict "concurrency_conflict: queue claim ownership lost"

-- `_valid_claim_identity`
unfoldable pub valid_claim_identity : Fields → Bool
valid_claim_identity claim =
    valid_bounded_integer max_transition_epoch 1 (get "lease_epoch" claim)
    && (valid_bounded_integer max_transition_epoch 1 (get "attempt" claim)
        && (is_nonempty_text (get "owner_token" claim)
            && is_nonempty_text (get "process_instance_id" claim)))

-- `claim.get("status") == status`, for a claim that may be no dict
abbrev pub has_claim_status : String → Value → Bool
has_claim_status s (obj claim) = is_text s (get "status" claim)
has_claim_status s _ = false

module _ ⦃py : Python⦄ where
  -- The claim of one operation: true if the topology check passes over it.
  unfoldable pub claim_is_sound : List Value → String → Value → Result Bool
  claim_is_sound pending operation_id (obj claim) = if operation_id == "" then ok false else do
    known ← is_member claim_statuses (get "status" claim)
    ok (
        known
        && (text (get "operation_id" claim) == operation_id
            && (valid_claim_identity claim
                && not (
                    is_text "requeued" (get "status" claim)
                    && not (in_pending operation_id pending)))))
  claim_is_sound pending operation_id _ = ok false

  abbrev blocked_at : Bool → String → Result (Option String) → Result (Option String)
  blocked_at true operation_id rest = rest
  blocked_at false operation_id rest = ok (some operation_id)

  unfoldable pub first_unsound : List Value → Fields → Result (Option String)
  first_unsound pending end = ok none
  first_unsound pending (field k v d) = do
    sound ← claim_is_sound pending k v
    blocked_at sound k (first_unsound pending d)

  -- `_validate_topology`: none, or the operation that it found unsound ("" for the pending list).
  unfoldable pub validate_topology : QueueData → Result (Option String)
  validate_topology q =
      if all is_nonempty_text q.pending && distinct (texts q.pending)
      then first_unsound q.pending q.claims
      else ok (some "")

  abbrev pub is_some : Option String → Bool
  is_some none = false
  is_some (some s) = true

  -- `if blocked is not None: raise`
  unfoldable pub require_topology : QueueData → Result (Unit {0})
  require_topology q = do blocked ← validate_topology q; raise_if (is_some blocked) recovery_blocked

  -- An operation that is both claimed and pending.
  abbrev pub claimed_pending : List Value → Fields → Bool
  claimed_pending pending end = false
  claimed_pending pending (field k v d) =
      (has_claim_status "claimed" v && in_pending k pending) || claimed_pending pending d

  -- `_validate_strict_mutation_topology`
  unfoldable pub validate_strict_mutation_topology : QueueData → Result (Unit {0})
  validate_strict_mutation_topology q = do
    require_topology q
    raise_if (claimed_pending q.pending q.claims) recovery_blocked

  abbrev pub unfinished_claim : Fields → List String → Bool
  unfinished_claim claims [] = false
  unfinished_claim claims (k ∷ ks) =
      (has_claim_status "claimed" (get k claims) || has_claim_status "requeued" (get k claims))
      || unfinished_claim claims ks

  -- `_validate_public_mutation`
  unfoldable pub validate_public_mutation : QueueData → Result (Unit {0})
  validate_public_mutation q = do
    validate_strict_mutation_topology q
    raise_if (unfinished_claim q.claims (sorted (keys q.claims))) claim_conflict
