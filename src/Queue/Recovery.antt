-- ===== src/Queue/Recovery.antt =====
-- The recovery of expired claims in runtime_ops/queue.py: `_recover_expired_unlocked` and the two
-- methods that run it under the worker lease.
pub mod Verdicts
mod Fate
mod Rounds
pub mod Fates
use rexec_op.Base.{
  ℕ, String, Bool, true, false, not, ◌&&◌, ◌||◌, Option, none, some, List, [], ◌∷◌, ◌++◌, ◌==◌, leb,
  any, contains, sorted, if◌then◌else◌, Result, ok, err, builtin_error, Error, Action, commit,
  ◌>>=◌, ◌>>◌, raise_if,
}
use rexec_op.Base.Int.{ℤ, pos, leb_ℤ}
use rexec_op.Json.{Value, null, int, str, obj, Fields, get, put, keys, is_text, JsonFile}
use rexec_op.Json.Python.{Python, text, as_int, parse_time}
use rexec_op.Lease.{LeaseDir, or_raise}
use rexec_op.Queue.Transition.{transition_record}
use rexec_op.Queue.Store.{QueueData, in_pending, load, recovery_blocked}
use rexec_op.Queue.Topology.{validate_topology, valid_claim_identity}
use rexec_op.Queue.Facts.{
  Loader, RecoveryFacts, load_recovery_facts, has_load_reason, no_attempts, is_unfinished,
  active_states, terminal_recovery_states,
}
use rexec_op.Queue.Claims.{
  Change, kept, stored, blocked, run_change, claim_unlocked, claim_change, validated_claim_expiry,
  enter_lease_guard,
}

-- The loop's state: the data so far and `changed`, or the data to save before the raise.
pub data Progress : Type 0 where
  going : QueueData → Bool → Progress
  stopped : QueueData → Progress

-- What the loop does with one claim.
pub data Verdict : Type 0 where
  skip : Verdict
  block : String → RecoveryFacts → Verdict
  requeue complete : RecoveryFacts → Verdict

-- The facts that `_block_claim` records where none were loaded.
abbrev pub unavailable : RecoveryFacts
unavailable = record { state = "unavailable"; attempts = []; load_reason = "" }

-- The tests on the facts, in their order. `legacy` is a claim that is still pending.
unfoldable pub judge_facts : Bool → RecoveryFacts → Verdict
judge_facts legacy f =
    if has_load_reason f
    then block f.load_reason f
    else if f.state == "approved" && no_attempts f.attempts
    then requeue f
    else if f.state == "approved"
    then block "approved_operation_has_attempts" f
    else if legacy
    then block "operation_state_not_recoverable" f
    else if contains f.state active_states
    then block "active_operation_requires_startup_recovery" f
    else if contains f.state terminal_recovery_states
    then if any is_unfinished f.attempts
      then block "unfinished_attempt_requires_recovery" f
      else complete f
    else block "operation_state_not_recoverable" f

module _ ⦃py : Python⦄ where
  -- The tests on the expiry; `expired` goes on to the epochs.
  abbrev pub judge_expiry : Option ℕ → ℕ → Bool → Result Verdict → Result Verdict
  judge_expiry none now legacy expired = ok (block "invalid_claim_expiry" unavailable)
  judge_expiry (some expiry) now legacy expired =
      if leb expiry now
      then expired
      else ok (if legacy then block "legacy_claim_not_expired" unavailable else skip)

  abbrev pub judge_epoch : Loader → Fields → String → Fields → Bool → Result Verdict
  judge_epoch loader lease operation_id claim legacy = do
    prior ← or_raise (as_int (get "lease_epoch" claim))
    current ← or_raise (as_int (get "lease_epoch" lease))
    if leb_ℤ current prior
        then ok (block "lease_epoch_not_advanced" unavailable)
        else do facts ← load_recovery_facts loader operation_id; ok (judge_facts legacy facts)

  -- One round of the loop, up to the change that it makes.
  unfoldable pub judge : Loader → Fields → ℕ → String → Fields → Bool → Result Verdict
  judge loader lease now operation_id claim legacy =
      let status = text (get "status" claim) in
      let rest = judge_epoch loader lease operation_id claim legacy in
      if status == "completed" || status == "requeued"
      then ok skip
      else judge_expiry (parse_time (text (get "expires_at" claim))) now legacy rest

  abbrev pub put_claim : QueueData → String → Fields → Fields → QueueData
  put_claim q operation_id claim transition = record q {
    claims = put operation_id (obj (put "last_transition" (obj transition) claim)) q.claims;
  }

  abbrev pub requeue_pending : Bool → String → List Value → List Value
  requeue_pending true operation_id pending = pending
  requeue_pending false operation_id pending = pending ++ str operation_id ∷ []

  -- The change that a verdict makes to the data.
  unfoldable pub apply_verdict :
      Fields → ℕ → String → Fields → Bool → Verdict → QueueData → Bool → Result Progress
  apply_verdict lease now operation_id claim legacy skip q changed = ok (going q changed)
  apply_verdict lease now operation_id claim legacy (block reason f) q changed = do
    transition ← transition_record claim lease now "blocked" reason f.state f.attempts
    ok (stopped (put_claim q operation_id claim transition))
  apply_verdict lease now operation_id claim legacy (requeue f) q changed = do
    let claim' = put "status" (str "requeued") claim
    transition ←
        transition_record claim' lease now "requeued" "expired_pre_execution_claim" f.state
          f.attempts
    let q' = put_claim q operation_id claim' transition
    ok (going (record q' { pending = requeue_pending legacy operation_id q.pending }) true)
  apply_verdict lease now operation_id claim legacy (complete f) q changed = do
    let claim' = put "completed_at" (str (py.iso now)) (put "status" (str "completed") claim)
    transition ←
        transition_record claim' lease now "completed" "terminal_operation" f.state f.attempts
    ok (going (put_claim q operation_id claim' transition) true)

  -- The topology check has made every claim a dict.
  abbrev pub recover_claim :
      Loader → Fields → ℕ → String → Value → QueueData → Bool → Result Progress
  recover_claim loader lease now operation_id (obj claim) q changed = do
    let legacy = in_pending operation_id q.pending
    verdict ← judge loader lease now operation_id claim legacy
    apply_verdict lease now operation_id claim legacy verdict q changed
  recover_claim loader lease now operation_id _ q changed = err builtin_error

  abbrev pub continue : Progress → (QueueData → Bool → Result Progress) → Result Progress
  continue (going q changed) rest = rest q changed
  continue (stopped q) rest = ok (stopped q)

  unfoldable pub recover_loop :
      Loader → Fields → ℕ → List String → QueueData → Bool → Result Progress
  recover_loop loader lease now [] q changed = ok (going q changed)
  recover_loop loader lease now (operation_id ∷ rest) q changed = do
    progress ← recover_claim loader lease now operation_id (get operation_id q.claims) q changed
    continue progress (recover_loop loader lease now rest)

  -- `_persist_blocker_if_possible`, and the save that follows it
  unfoldable pub persist_blocker :
      Fields → ℕ → String → Value → QueueData → Result (Option QueueData)
  persist_blocker lease now operation_id (obj claim) q =
      if valid_claim_identity claim
      then (do
        transition ←
            transition_record claim lease now "blocked" "invalid_queue_topology" "unavailable" []
        ok (some (put_claim q operation_id claim transition)))
      else ok none
  persist_blocker lease now operation_id _ q = ok none

  -- `_recover_expired_unlocked`: the loop's end, or the raise with or without a save.
  abbrev pub blocked_topology : Option QueueData → Result Progress
  blocked_topology none = err recovery_blocked
  blocked_topology (some q) = ok (stopped q)

  abbrev pub recover_topology : Loader → Fields → ℕ → QueueData → Option String → Result Progress
  recover_topology loader lease now q none =
      recover_loop loader lease now (sorted (keys q.claims)) q false
  recover_topology loader lease now q (some operation_id) = do
    saved' ← persist_blocker lease now operation_id (get operation_id q.claims) q
    blocked_topology saved'

  unfoldable pub recover_expired_unlocked : Loader → Fields → ℕ → QueueData → Result Progress
  recover_expired_unlocked loader lease now q = do
    unsound ← validate_topology q
    recover_topology loader lease now q unsound

  abbrev pub recovered : Progress → Change Bool
  recovered (going q true) = stored q true
  recovered (going q false) = kept false
  recovered (stopped q) = blocked q recovery_blocked

  unfoldable pub recover_plan : Loader → LeaseDir → ℕ → Fields → ℕ → JsonFile → Result (Change Bool)
  recover_plan loader dir guard_now lease now file = do
    enter_lease_guard recovery_blocked lease guard_now dir
    q ← load file
    progress ← recover_expired_unlocked loader lease now q
    ok (recovered progress)

  -- `recover_expired_claims_from_lease`; `saved_at` is the clock of `_save_unlocked`.
  unfoldable pub recover_expired_claims_from_lease :
      Loader → LeaseDir → ℕ → Fields → ℕ → ℕ → Action JsonFile Bool
  unfolding recover_plan
  recover_expired_claims_from_lease loader dir guard_now lease now saved_at file =
      commit (recover_plan loader dir guard_now lease now file) (run_change saved_at) file

  abbrev claim_after : Fields → ℕ → ℕ → Progress → Result (Change (Option Fields))
  claim_after lease expires now (stopped q) = ok (blocked q recovery_blocked)
  claim_after lease expires now (going q changed) = do
    epoch ← or_raise (as_int (get "lease_epoch" lease))
    claimed ←
        claim_unlocked q q.pending (str (text (get "owner_token" lease))) (int epoch)
          (str (text (get "process_instance_id" lease))) expires now
    ok (claim_change changed claimed)

  unfoldable pub claim_from_lease_plan :
      Loader → LeaseDir → ℕ → Fields → ℤ → ℕ → JsonFile → Result (Change (Option Fields))
  claim_from_lease_plan loader dir guard_now lease ttl now file = do
    expires ← validated_claim_expiry ttl now
    enter_lease_guard recovery_blocked lease guard_now dir
    q ← load file
    progress ← recover_expired_unlocked loader lease now q
    claim_after lease expires now progress

  -- `claim_from_lease`
  unfoldable pub claim_from_lease :
      Loader → LeaseDir → ℕ → Fields → ℤ → ℕ → ℕ → Action JsonFile (Option Fields)
  unfolding claim_from_lease_plan
  claim_from_lease loader dir guard_now lease ttl now saved_at file =
      commit (claim_from_lease_plan loader dir guard_now lease ttl now file) (run_change saved_at)
        file
