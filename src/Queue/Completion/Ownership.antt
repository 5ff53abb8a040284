-- ===== src/Queue/Completion/Ownership.antt =====
-- Who may end a claim: the holder of the worker lease under which it was made.
use mathlib.Core.Bool.{false≢true}
use rexec_op.Base.{
  ℕ, String, ◌≡◌, refl, ◌≢◌, Bool, true, false, not, ◌&&◌, Option, none, some, arith, ◌==◌, eq_iff,
  if◌then◌else◌, Result, ok, err, Error, ok-injective, err≢ok, >>=-eq-ok, raise_if-eq_ok, ap, sym,
  ◌∙◌,
}
use rexec_op.Base.Int.{ℤ, eq_ℤ, eq_ℤ→eq}
use rexec_op.Json.{Value, null, bool, int, str, arr, obj, Fields, get, put, is_text, JsonFile}
use rexec_op.Json.Python.{Python, text, as_int}
use rexec_op.Lease.{LeaseDir, validate, or_raise}
use rexec_op.Queue.Store.{QueueData, load, saved}
use rexec_op.Queue.Topology.{claim_conflict}
use rexec_op.Queue.Transition.{transition_record}
use rexec_op.Queue.Claims.{Change, stored, enter_lease_guard}
use rexec_op.Queue.Completion.{
  same_claim_fields, expected_claim, same_int, exact_current_claim, dict_of,
  complete_from_lease_plan, complete_claim_from_lease,
}

-- A test that returned true, and what it led to.
if-eq_ok :
    (c : Bool) (k : Result Bool)
    → (if c then k else ok false) ≡ ok true
    → (c ≡ true) × (k ≡ ok true)
if-eq_ok true k h = (refl, h)
if-eq_ok false k h = absurd (false≢true (ok-injective h))

or_raise-some : (o : Option ℤ) {n : ℤ} → or_raise o ≡ ok n → o ≡ some n
or_raise-some none h = cc
or_raise-some (some m) h = cc

ok≢err : {x : Unit {0}} {e : Error} → ok x ≢ err e
ok≢err h = cc

module _ ⦃py : Python⦄ where
  -- The claim is active, it is the operation's, and it names the token, the process and the epoch
  -- of the lease.
  pub record IsOwned (claim lease : Fields) (operation_id : String) : Type 0 where
    pub active : is_text "claimed" (get "status" claim) ≡ true
    pub operation : text (get "operation_id" claim) ≡ operation_id
    pub token : text (get "owner_token" claim) ≡ text (get "owner_token" lease)
    pub process : text (get "process_instance_id" claim) ≡ text (get "process_instance_id" lease)
    pub epoch : ℤ
    pub claim_epoch : as_int (get "lease_epoch" claim) ≡ some epoch
    pub lease_epoch : as_int (get "lease_epoch" lease) ≡ some epoch

  exact-IsOwned :
      (claim lease : Fields) (operation_id : String) (snapshot : Option Fields)
      → exact_current_claim (obj claim) operation_id lease snapshot ≡ ok true
      → IsOwned claim lease operation_id
  unfolding exact_current_claim
  exact-IsOwned claim lease operation_id snapshot h =
      let (active, h₁) = if-eq_ok (is_text "claimed" (get "status" claim)) _ h in
      let (facts, h₂) =
        if-eq_ok
          (text (get "operation_id" claim) == operation_id
            && (same_claim_fields claim (expected_claim snapshot claim)
                && text (get "owner_token" claim) == text (get "owner_token" lease)))
          _ h₁ in
      let (agree, compared, h₃) =
        >>=-eq-ok (same_int (get "lease_epoch" claim) (get "lease_epoch" lease)) _ h₂ in
      let (n, en, h₄) = >>=-eq-ok (or_raise (as_int (get "lease_epoch" claim))) _ compared in
      let (m, em, h₅) = >>=-eq-ok (or_raise (as_int (get "lease_epoch" lease))) _ h₄ in
      let both = ok-injective h₃ in
      let equal : eq_ℤ n m ≡ true = ok-injective h₅ ∙ (ground (arith, both)) in
      record {
        active = active;
        operation = (eq_iff _ _).0 (ground (arith, facts));
        token = (eq_iff _ _).0 (ground (arith, facts));
        process = (eq_iff _ _).0 (ground (arith, both));
        epoch = n;
        claim_epoch = or_raise-some _ en;
        lease_epoch = or_raise-some _ em ∙ ap some (sym (eq_ℤ→eq n m equal));
      }

  exact-obj :
      (v : Value) (lease : Fields) (operation_id : String) (snapshot : Option Fields)
      → exact_current_claim v operation_id lease snapshot ≡ ok true
      → v ≡ obj (dict_of v)
  unfolding exact_current_claim
  exact-obj (obj d) lease operation_id snapshot h = refl
  exact-obj null lease operation_id snapshot h = cc
  exact-obj (bool b) lease operation_id snapshot h = cc
  exact-obj (int n) lease operation_id snapshot h = cc
  exact-obj (str s) lease operation_id snapshot h = cc
  exact-obj (arr xs) lease operation_id snapshot h = cc

  guard-eq_ok :
      (e : Error) (lease : Fields) (now : ℕ) (dir : LeaseDir)
      → enter_lease_guard e lease now dir ≡ ok tt
      → validate lease now dir ≡ ok tt
  unfolding enter_lease_guard
  guard-eq_ok e lease now dir h = ground arith

  -- What a completion that returns has found and written.
  plan-eq_ok :
      (dir : LeaseDir) (guard_now : ℕ) (operation_id : String) (lease : Fields)
      (snapshot : Option Fields) (now : ℕ) (file : JsonFile) {c : Change (Unit {0})}
      → complete_from_lease_plan dir guard_now operation_id lease snapshot now file ≡ ok c
      → (validate lease guard_now dir ≡ ok tt)
        × (q : QueueData) × (load file ≡ ok q)
        × (claim : Fields) × (get operation_id q.claims ≡ obj claim)
        × IsOwned claim lease operation_id
        × (t : Fields) × (c
            ≡ stored
                (record q {
                  claims =
                      put operation_id
                        (obj (
                          put "last_transition" (obj t) (
                            put "completed_at"
                              (str (py.iso now))
                              (put "status" (str "completed") claim))))
                        q.claims;
                })
                tt)
  unfolding complete_from_lease_plan
  plan-eq_ok dir guard_now operation_id lease snapshot now file {c} h =
      let (_, guarded, h₁) = >>=-eq-ok (enter_lease_guard claim_conflict lease guard_now dir) _ h in
      let (q, loaded, h₂) = >>=-eq-ok (load file) _ h₁ in
      let (exact, tested, h₃) =
        >>=-eq-ok (exact_current_claim (get operation_id q.claims) operation_id lease snapshot) _
          h₂ in
      let (passed, h₄) = raise_if-eq_ok (not exact) claim_conflict _ h₃ in
      let (t, recorded, made) = >>=-eq-ok (transition_record _ _ _ _ _ _ _) _ h₄ in
      let owned : exact_current_claim (get operation_id q.claims) operation_id lease snapshot
          ≡ ok true =
        tested ∙ ap ok (ground (arith, passed)) in
      let found = exact-obj (get operation_id q.claims) lease operation_id snapshot owned in
      (
        guard-eq_ok claim_conflict lease guard_now dir guarded,
        q,
        loaded,
        dict_of (get operation_id q.claims),
        found,
        exact-IsOwned (dict_of (get operation_id q.claims)) lease operation_id snapshot
            (rw found at owned),
        t,
        sym (ok-injective made),
      )

  -- The claim that a completion writes, with its transition record.
  abbrev pub completed_claim : Fields → Fields → ℕ → Fields
  completed_claim claim t now =
      put "last_transition" (obj t)
        (put "completed_at" (str (py.iso now)) (put "status" (str "completed") claim))

  -- What a completion has found and written: the lease is valid, the file holds an active claim of
  -- the operation that names the lease's token, process and epoch, and it is saved with this claim
  -- completed.
  abbrev pub CompletesOwn : LeaseDir → ℕ → String → Fields → ℕ → JsonFile → JsonFile → Type 0
  CompletesOwn dir guard_now operation_id lease now file file' =
      (validate lease guard_now dir ≡ ok tt)
      × (q : QueueData) × (load file ≡ ok q)
      × (claim : Fields) × (get operation_id q.claims ≡ obj claim)
      × IsOwned claim lease operation_id
      × (t : Fields) × (file'
          ≡ saved
              (record q { claims = put operation_id (obj (completed_claim claim t now)) q.claims })
              now)

  -- A call of `complete_claim_from_lease` that returns was made under a worker lease that is held
  -- and not expired, found an active claim of the operation with the token, process and epoch of
  -- that lease, and wrote this claim as completed and nothing else.
  pub completes_only_own :
      (dir : LeaseDir) (guard_now : ℕ) (operation_id : String) (lease : Fields)
      (snapshot : Option Fields) (now : ℕ) (file : JsonFile)
      → (complete_claim_from_lease dir guard_now operation_id lease snapshot now file).0 ≡ ok tt
      → CompletesOwn dir guard_now operation_id lease now file
          (complete_claim_from_lease dir guard_now operation_id lease snapshot now file).1
  unfolding complete_claim_from_lease
  completes_only_own dir guard_now operation_id lease snapshot now file h =
      go (complete_from_lease_plan dir guard_now operation_id lease snapshot now file) refl
    where
      go :
          (p : Result (Change (Unit {0})))
          → complete_from_lease_plan dir guard_now operation_id lease snapshot now file ≡ p
          → CompletesOwn dir guard_now operation_id lease now file
              (complete_claim_from_lease dir guard_now operation_id lease snapshot now file).1
      go (err e) p = absurd (err≢ok (rw p at h))
      go (ok c) p =
          let (guarded, q, loaded, claim, found, owned, t, made) =
            plan-eq_ok dir guard_now operation_id lease snapshot now file p in
          (guarded, q, loaded, claim, found, owned, t, rw (p, made))

  -- A call of `complete_claim_from_lease` that raises leaves the file as it is.
  pub completion_raises_clean :
      (dir : LeaseDir) (guard_now : ℕ) (operation_id : String) (lease : Fields)
      (snapshot : Option Fields) (now : ℕ) (file : JsonFile) {e : Error}
      → (complete_claim_from_lease dir guard_now operation_id lease snapshot now file).0 ≡ err e
      → (complete_claim_from_lease dir guard_now operation_id lease snapshot now file).1 ≡ file
  unfolding complete_claim_from_lease
  completion_raises_clean dir guard_now operation_id lease snapshot now file {e} h =
      go (complete_from_lease_plan dir guard_now operation_id lease snapshot now file) refl
    where
      go :
          (p : Result (Change (Unit {0})))
          → complete_from_lease_plan dir guard_now operation_id lease snapshot now file ≡ p
          → (complete_claim_from_lease dir guard_now operation_id lease snapshot now file).1 ≡ file
      go (err x) p = rw p
      go (ok c) p =
          let (_, _, _, _, _, _, _, made) =
            plan-eq_ok dir guard_now operation_id lease snapshot now file p in
          absurd (ok≢err (rw (p, made) at h))
