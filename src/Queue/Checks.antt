-- ===== src/Queue/Checks.antt =====
-- The value checks of runtime_ops/queue.py: bounded integers, identities, transition records.
use Prim.Native.Char.{code}
use Prim.Native.String.{count}
use rexec_op.Base.{
  ℕ, ◌+◌, String, Bool, true, false, not, ◌&&◌, ◌||◌, Option, none, some, List, [], ◌∷◌, leb,
  nat_eq, all, contains, if◌then◌else◌, Result, ok, err, builtin_error, ◌==◌, ◌>>=◌,
}
use rexec_op.Base.Int.{pos}
use rexec_op.Json.{Value, int, str, arr, obj, Fields, get, has, keys, values, is_text}
use rexec_op.Json.Python.{Python, expand_zulu}
use rexec_op.Attempts.{attempt_statuses}
use rexec_op.Operation.State.{OperationState, value, all_states}

abbrev pub transition_schema : String
transition_schema = "rexecop.queue_claim_transition.v0.1"

abbrev pub transition_fields : List String
transition_fields =
    "private_schema" ∷ "disposition" ∷ "reason" ∷ "operation_state" ∷ "attempt_count"
    ∷ "attempt_status_counts" ∷ "claim_attempt" ∷ "prior_lease_epoch" ∷ "prior_process_instance_id"
    ∷ "current_lease_epoch" ∷ "current_process_instance_id" ∷ "recorded_at" ∷ []

abbrev pub transition_dispositions : List String
transition_dispositions = "blocked" ∷ "completed" ∷ "requeued" ∷ []

abbrev pub transition_reasons : List String
transition_reasons =
    "active_operation_requires_startup_recovery" ∷ "approved_operation_has_attempts"
    ∷ "attempt_inventory_unavailable" ∷ "claim_completed" ∷ "expired_pre_execution_claim"
    ∷ "invalid_claim_expiry" ∷ "invalid_queue_topology" ∷ "lease_epoch_not_advanced"
    ∷ "legacy_claim_not_expired" ∷ "malformed_attempt_inventory" ∷ "max_concurrent_reached"
    ∷ "operation_state_not_recoverable" ∷ "operation_unavailable" ∷ "target_locked"
    ∷ "terminal_operation" ∷ "unfinished_attempt_requires_recovery" ∷ "unknown_operation_state" ∷ []

abbrev state_values : List OperationState → List String
state_values [] = "unavailable" ∷ "unknown" ∷ []
state_values (s ∷ rest) = value s ∷ state_values rest

abbrev pub transition_operation_states : List String
transition_operation_states = state_values all_states

abbrev pub max_transition_attempt_count : ℕ
max_transition_attempt_count = 1000000

-- `(1 << 63) - 1`
abbrev pub max_transition_epoch : ℕ
max_transition_epoch = 9223372036854775807

abbrev pub max_transition_identity_length : ℕ
max_transition_identity_length = 128

abbrev pub max_transition_timestamp_length : ℕ
max_transition_timestamp_length = 64

-- `v in names`, for a frozenset of texts: a list or a dict is unhashable, which is a TypeError.
unfoldable pub is_member : List String → Value → Result Bool
is_member names (str s) = ok (contains s names)
is_member names (arr xs) = err builtin_error
is_member names (obj d) = err builtin_error
is_member names _ = ok false

-- `_valid_bounded_integer(v, maximum=maximum, minimum=minimum)`
unfoldable pub valid_bounded_integer : ℕ → ℕ → Value → Bool
valid_bounded_integer maximum minimum (int (pos n)) = leb minimum n && leb n maximum
valid_bounded_integer maximum minimum _ = false

-- `_bounded_epoch`
unfoldable pub bounded_epoch : Value → ℕ
bounded_epoch (int (pos n)) = if leb 1 n && leb n max_transition_epoch then n else 0
bounded_epoch _ = 0

-- `any(character in s for character in "\r\n")`
unfoldable pub has_line_break : String → Bool
has_line_break String.[] = false
has_line_break (String.◌∷◌ c s) = (nat_eq (code c) 13 || nat_eq (code c) 10) || has_line_break s

-- The test of an identity field, on a text.
unfoldable pub valid_identity_text : String → Bool
unfolding has_line_break
valid_identity_text s =
    not (s == "") && (leb (count s) max_transition_identity_length && not (has_line_break s))

abbrev pub valid_identity : Value → Bool
valid_identity (str s) = valid_identity_text s
valid_identity _ = false

-- `sum(status_counts.values())`, where all of them are bounded integers.
abbrev pub sum_counts : List Value → ℕ
sum_counts [] = 0
sum_counts (int (pos n) ∷ rest) = n + sum_counts rest
sum_counts (_ ∷ rest) = sum_counts rest

abbrev equals_count : ℕ → Value → Bool
equals_count n (int (pos m)) = nat_eq n m
equals_count n _ = false

-- `set(d) == names`
unfoldable pub has_exactly : List String → Fields → Bool
has_exactly names d = all (λ k. contains k names) (keys d) && all (λ k. has k d) names

abbrev pub valid_status_counts : Value → Value → Bool
valid_status_counts (obj counts) total =
    has_exactly attempt_statuses counts
    && (all (valid_bounded_integer max_transition_attempt_count 0) (values counts)
        && equals_count (sum_counts (values counts)) total)
valid_status_counts _ total = false

module _ ⦃py : Python⦄ where
  abbrev names_zone : Option (Bool × ℕ) → Bool
  names_zone none = false
  names_zone (some (zone, t)) = zone

  -- `_valid_transition_timestamp`
  unfoldable pub valid_transition_timestamp : String → Bool
  valid_transition_timestamp s =
      not (s == "")
      && (leb (count s) max_transition_timestamp_length && names_zone (py.from_iso (expand_zulu s)))

  abbrev valid_recorded_at : Value → Bool
  valid_recorded_at (str s) = valid_transition_timestamp s
  valid_recorded_at _ = false

  -- The tests after those of membership, which raise nothing.
  unfoldable pub valid_transition_numbers : Fields → Bool
  valid_transition_numbers d =
      valid_bounded_integer max_transition_attempt_count 0 (get "attempt_count" d)
      && (valid_status_counts (get "attempt_status_counts" d) (get "attempt_count" d)
          && (valid_bounded_integer max_transition_epoch 1 (get "claim_attempt" d)
              && (valid_bounded_integer max_transition_epoch 1 (get "prior_lease_epoch" d)
                  && (valid_bounded_integer max_transition_epoch 1 (get "current_lease_epoch" d)
                      && (valid_identity (get "prior_process_instance_id" d)
                          && (valid_identity (get "current_process_instance_id" d)
                              && valid_recorded_at (get "recorded_at" d)))))))

  -- `if not test: return False`, and on to the next test
  abbrev and_then : Result Bool → Result Bool → Result Bool
  and_then test next = do passed ← test; if passed then next else ok false

  -- `_valid_transition_record`
  unfoldable pub valid_transition_record : Value → Result Bool
  valid_transition_record (obj d) = and_then (ok (has_exactly transition_fields d)) (
      and_then (ok (is_text transition_schema (get "private_schema" d))) (
        and_then (is_member transition_dispositions (get "disposition" d)) (
          and_then (is_member transition_reasons (get "reason" d)) (
            and_then (is_member transition_operation_states (get "operation_state" d))
              (ok (valid_transition_numbers d))))))
  valid_transition_record _ = ok false

  abbrev no_control : String → Bool
  no_control String.[] = true
  no_control (String.◌∷◌ c s) = not (py.is_control (code c)) && no_control s

  -- `_valid_public_claim_identity`
  unfoldable pub valid_public_claim_identity : Value → Bool
  valid_public_claim_identity (str s) =
      not (s == "") && (leb (count s) max_transition_identity_length && no_control s)
  valid_public_claim_identity _ = false
