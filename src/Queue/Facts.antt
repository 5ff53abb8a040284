-- ===== src/Queue/Facts.antt =====
-- What the store knows of an operation: `_load_recovery_facts` and `_specific_claim_purpose` of
-- runtime_ops/queue.py. The store's `_queue_claim_facts` is an argument.
use rexec_op.Base.{
  String, Bool, true, false, not, ◌&&◌, ◌||◌, Option, none, some, List, [], ◌∷◌, ◌==◌, any,
  contains, if◌then◌else◌, Result, ok, err, ◌>>=◌,
}
use rexec_op.Json.{Value, arr, obj, Fields, get, is_text, is_nonempty_text, to_list}
use rexec_op.Json.Python.{Python, text}
use rexec_op.Attempts.{attempt_schema, attempt_statuses}
use rexec_op.Operation.State.{OperationState, value, all_states}
use rexec_op.Queue.Checks.{is_member}
use rexec_op.Queue.Store.{recovery_blocked}

-- The store's facts of one operation: the state of the operation and its list of attempts, or
-- `none` if the call raises. A store without the method is the outer `none`.
abbrev pub Loader : Type 0
Loader = Option (String → Option (String × Value))

pub record RecoveryFacts : Type 0 where
  pub state : String
  pub attempts : List Value
  pub load_reason : String

abbrev pub is_operation_state : List OperationState → String → Bool
is_operation_state [] s = false
is_operation_state (st ∷ rest) s = s == value st || is_operation_state rest s

-- _ACTIVE_STATES, _TERMINAL_RECOVERY_STATES
abbrev pub active_states : List String
active_states = "running" ∷ "paused" ∷ "resuming" ∷ "retrying" ∷ "validating" ∷ []

abbrev pub terminal_recovery_states : List String
terminal_recovery_states = "completed" ∷ "failed" ∷ "cancelled" ∷ "escalated" ∷ []

-- `attempt.get("status") in {"pending", "started"}`
abbrev pub is_unfinished : Value → Bool
is_unfinished (obj d) = is_text "pending" (get "status" d) || is_text "started" (get "status" d)
is_unfinished _ = false

module _ ⦃py : Python⦄ where
  -- One attempt of the inventory: the tests before the membership of its status.
  abbrev names_new_attempt : String → List String → Fields → Bool
  names_new_attempt operation_id seen d =
      is_text attempt_schema (get "schema" d)
      && (is_nonempty_text (get "attempt_id" d)
          && (not (contains (text (get "attempt_id" d)) seen)
              && text (get "operation_id" d) == operation_id))

  abbrev malformed : String → List Value → RecoveryFacts
  malformed state attempts = record {
    state = state;
    attempts = attempts;
    load_reason = "malformed_attempt_inventory";
  }

  abbrev status_known : Bool → Value → Result Bool
  status_known false status = ok false
  status_known true status = is_member attempt_statuses status

  -- The loop over the attempts, with the ids seen so far. `inventory` is the whole list.
  unfoldable pub scan_attempts :
      String → String → List Value → List String → List Value → Result RecoveryFacts
  scan_attempts operation_id state inventory seen [] =
      ok (record { state = state; attempts = inventory; load_reason = "" })
  scan_attempts operation_id state inventory seen (obj d ∷ rest) = do
    let later = scan_attempts operation_id state inventory (text (get "attempt_id" d) ∷ seen) rest
    known ← status_known (names_new_attempt operation_id seen d) (get "status" d)
    if known then later else ok (malformed state inventory)
  scan_attempts operation_id state inventory seen (_ ∷ rest) = ok (malformed state [])

  abbrev facts_of : String → String → Value → Result RecoveryFacts
  facts_of operation_id state (arr xs) =
      scan_attempts operation_id state (to_list xs) [] (to_list xs)
  facts_of operation_id state _ = ok (malformed state [])

  abbrev loaded_facts : String → Option (String × Value) → Result RecoveryFacts
  loaded_facts operation_id none =
      ok (record { state = "unavailable"; attempts = []; load_reason = "operation_unavailable" })
  loaded_facts operation_id (some (state, attempts)) =
      if is_operation_state all_states state
      then facts_of operation_id state attempts
      else ok (record { state = "unknown"; attempts = []; load_reason = "unknown_operation_state" })

  -- `_load_recovery_facts`
  unfoldable pub load_recovery_facts : Loader → String → Result RecoveryFacts
  load_recovery_facts none operation_id = ok (record {
    state = "unavailable";
    attempts = [];
    load_reason = "attempt_inventory_unavailable";
  })
  load_recovery_facts (some loader) operation_id = loaded_facts operation_id (loader operation_id)

-- `if load_reason`, `if attempts`
abbrev pub has_load_reason : RecoveryFacts → Bool
has_load_reason f = not (f.load_reason == "")

abbrev pub no_attempts : List Value → Bool
no_attempts [] = true
no_attempts (v ∷ vs) = false

-- `_specific_claim_purpose`
unfoldable pub specific_claim_purpose : RecoveryFacts → Result String
specific_claim_purpose f =
    if has_load_reason f
    then err recovery_blocked
    else if f.state == "approved" && no_attempts f.attempts
    then ok "execution"
    else if contains f.state terminal_recovery_states && not (any is_unfinished f.attempts)
    then ok "terminal_cleanup"
    else err recovery_blocked
