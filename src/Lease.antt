-- ===== src/Lease.antt =====
-- runtime_ops/lease.py: the fenced single-executor lease of a runtime root.
-- `LeaseDir` is the directory watchdog/: worker_lease.json and worker_lease.epoch. Each method
-- holds the file lock from its first read to its last write, so it is one step here. Instants and
-- durations are microseconds; the clocks and the fresh identifiers are arguments.
pub mod Fencing
pub mod Ownership
use rexec_op.Base.{
  ℕ, ◌+◌, String, Bool, true, false, not, ◌&&◌, ◌||◌, Option, none, some, ◌==◌, leb, ltb,
  if◌then◌else◌, Result, ok, err, builtin_error, lease_lost, validation_error, ◌>>=◌, ◌>>◌,
  raise_if, Action, commit,
}
use rexec_op.Base.Int.{ℤ, pos, eq_ℤ, ltb_ℤ, max_ℤ, suc_ℤ}
use rexec_op.Json.{
  Value, int, str, obj, Fields, end, field, get, put, JsonFile, missing, unreadable, readable,
  present,
}
use rexec_op.Json.Python.{Python, text, as_int, parse_time, strip}

abbrev pub worker_lease_schema : String
worker_lease_schema = "rexecop.worker_lease.v0.2"

-- DEFAULT_LEASE_TTL_SECONDS
abbrev pub default_lease_ttl : ℕ
default_lease_ttl = 120000000

-- worker_lease.epoch: its text is the number that `int` reads from it, or none.
pub data EpochFile : Type 0 where
  absent unparsable : EpochFile
  number : ℤ → EpochFile

pub record LeaseDir : Type 0 where
  pub lease : JsonFile
  pub epoch : EpochFile

-- `_read_unlocked`
unfoldable pub read_unlocked : JsonFile → Result (Option Fields)
read_unlocked missing = ok none
read_unlocked unreadable = err builtin_error
read_unlocked (readable (obj d)) = ok (some d)
read_unlocked (readable _) = ok none

abbrev pub or_raise {ℓ} : {A : Type ℓ} → Option A → Result A
or_raise none = err builtin_error
or_raise (some a) = ok a

-- The epoch that `acquire` reads from the epoch file.
abbrev pub persisted_epoch : EpochFile → ℤ
persisted_epoch absent = pos 0
persisted_epoch unparsable = pos 0
persisted_epoch (number n) = n

-- `value or default`, for a text that may be None
abbrev pub text_or : Option String → String → String
text_or none d = d
text_or (some s) d = if s == "" then d else s

-- `(existing or {}).get(key)`
abbrev pub get_or_null : String → Option Fields → Value
get_or_null key none = Value.null
get_or_null key (some d) = get key d

-- `max(persisted_epoch, held) + 1`, where the held lease has an epoch that `int` reads.
unfoldable pub epoch_above : ℤ → Option ℤ → Result ℤ
epoch_above persisted none = err builtin_error
epoch_above persisted (some held) = ok (suc_ℤ (max_ℤ persisted held))

module _ ⦃py : Python⦄ where
  abbrev expired : Option ℕ → ℕ → Bool
  expired none now = true
  expired (some expiry) now = leb expiry now

  -- `is_stale` of a record that was read
  unfoldable pub is_stale : Fields → ℕ → Bool
  is_stale record' now =
      not (text (get "schema" record') == worker_lease_schema)
      || expired (parse_time (text (get "expires_at" record'))) now

  -- `is_stale(lease)`: without an argument it reads the file, and None is stale.
  abbrev stale_or_none : Option Fields → ℕ → Bool
  stale_or_none none now = true
  stale_or_none (some d) now = is_stale d now

  pub is_stale_lease : Option Fields → ℕ → LeaseDir → Result Bool
  is_stale_lease (some d) now dir = ok (stale_or_none (present (some d)) now)
  is_stale_lease none now dir = do
    found ← read_unlocked dir.lease
    ok (stale_or_none (present found) now)

  abbrev clear : Option Fields → ℕ → Action LeaseDir Bool
  clear none now dir = (ok false, dir)
  clear (some d) now dir =
      if is_stale d now then (ok true, record dir { lease = missing }) else (ok false, dir)

  unfoldable pub clear_if_stale : ℕ → Action LeaseDir Bool
  clear_if_stale now dir = commit (read_unlocked dir.lease) (λ found. clear (present found) now) dir

  -- The record that `acquire` writes.
  abbrev pub new_lease : String → String → ℤ → String → ℕ → ℕ → ℕ → Fields
  new_lease worker_id process_instance_id epoch token now ttl monotonic =
      field "schema" (str worker_lease_schema) (
        field "worker_id" (str worker_id) (
          field "process_instance_id" (str process_instance_id) (
            field "lease_epoch" (int epoch) (
              field "owner_token" (str token) (
                field "acquired_at" (str (py.iso now)) (
                  field "heartbeat_at" (str (py.iso now)) (
                    field "expires_at" (str (py.iso (now + ttl)))
                      (field "monotonic_seconds" (int (pos monotonic)) end))))))))

  -- `existing and not self.is_stale(existing)`
  abbrev pub is_held : Option Fields → ℕ → Bool
  is_held none now = false
  is_held (some d) now = not (is_stale d now)

  -- The epoch of the record that `acquire` is about to write. A time to live that leads past
  -- `datetime.max` is an OverflowError.
  unfoldable pub next_epoch : String → ℕ → ℕ → LeaseDir → Result ℤ
  next_epoch worker_id now ttl dir = do
    raise_if (strip worker_id == "") (validation_error "worker_id must not be empty")
    existing ← read_unlocked dir.lease
    raise_if (is_held (present existing) now) (lease_lost "worker lease held by")
    epoch ←
        epoch_above (persisted_epoch dir.epoch)
          (as_int (get_or_null "lease_epoch" (present existing)))
    raise_if (ltb py.max_instant (now + ttl)) builtin_error
    ok epoch

  abbrev write_lease : Fields → ℤ → Action LeaseDir Fields
  write_lease d epoch dir = (ok d, record { lease = readable (obj d); epoch = number epoch })

  -- `fresh_process` and `fresh_token` are the two `uuid.uuid4()`.
  unfoldable pub acquire :
      String → Option String → String → String → ℕ → ℕ → ℕ → Action LeaseDir Fields
  acquire worker_id process_instance_id fresh_process fresh_token now ttl monotonic dir =
      commit (next_epoch worker_id now ttl dir)
        (λ epoch.
          write_lease
            (new_lease worker_id (text_or process_instance_id fresh_process) epoch fresh_token now
              ttl monotonic)
            epoch)
        dir

  -- `_require_owner`: the three tests of the `or`, each made only if those before it fail.
  abbrev conflict : Result Fields
  conflict = err (lease_lost "worker lease ownership conflict")

  abbrev match_epoch : Option ℤ → ℤ → String → Fields → Result Fields
  match_epoch none epoch process d = err builtin_error
  match_epoch (some n) epoch process d =
      if eq_ℤ n epoch && (text (get "process_instance_id" d) == process) then ok d else conflict

  abbrev match_owner : String → ℤ → String → Option Fields → Result Fields
  match_owner token epoch process none = conflict
  match_owner token epoch process (some d) =
      if text (get "owner_token" d) == token
      then match_epoch (as_int (get "lease_epoch" d)) epoch process d
      else conflict

  unfoldable pub require_owner : String → ℤ → String → LeaseDir → Result Fields
  require_owner token epoch process dir = do
    existing ← read_unlocked dir.lease
    match_owner token epoch process (present existing)

  -- The update that `renew` makes on the record.
  abbrev pub renewed : ℕ → ℕ → ℕ → Fields → Fields
  renewed now ttl monotonic d =
      put "monotonic_seconds" (int (pos monotonic))
        (put "expires_at" (str (py.iso (now + ttl))) (put "heartbeat_at" (str (py.iso now)) d))

  unfoldable pub renewal : String → ℤ → String → ℕ → ℕ → ℕ → LeaseDir → Result Fields
  renewal token epoch process now ttl monotonic dir = do
    existing ← require_owner token epoch process dir
    earlier ← or_raise (as_int (get "monotonic_seconds" existing))
    raise_if (ltb_ℤ (pos monotonic) earlier)
        (validation_error "worker lease monotonic clock moved backwards")
    raise_if (ltb py.max_instant (now + ttl)) builtin_error
    ok (renewed now ttl monotonic existing)

  unfoldable pub renew : String → ℤ → String → ℕ → ℕ → ℕ → Action LeaseDir Fields
  renew token epoch process now ttl monotonic dir =
      commit (renewal token epoch process now ttl monotonic dir)
        (λ d dir'. (ok d, record dir' { lease = readable (obj d) })) dir

  unfoldable pub release : String → ℤ → String → Action LeaseDir Bool
  release token epoch process dir =
      commit (require_owner token epoch process dir)
        (λ _ dir'. (ok true, record dir' { lease = missing })) dir

  -- `validate`, and the test that `guard` makes before it yields. The arguments are those of a
  -- lease record that the caller holds.
  unfoldable pub validate : Fields → ℕ → LeaseDir → Result (Unit {0})
  validate lease now dir = do
    epoch ← or_raise (as_int (get "lease_epoch" lease))
    existing ←
        require_owner (text (get "owner_token" lease)) epoch
          (text (get "process_instance_id" lease)) dir
    raise_if (is_stale existing now) (lease_lost "execution lease expired")

  -- `guard`: the caller's body runs under the lease lock if the lease is owned and not expired.
  unfoldable pub guard : {S A : Type 0} → Fields → ℕ → LeaseDir → Action S A → Action S A
  guard lease now dir body = commit (validate lease now dir) (λ _. body)
