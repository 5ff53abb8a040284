-- ===== src/Queue/Fifo.antt =====
-- First in, first out: where operations enter the queue and which one a claim takes.
use rexec_op.Base.{
  false, not, none, Option, sym, ap, ◌∙◌, err≢ok, ok-injective, >>=-eq-ok, >>-eq-ok, raise_if-eq_ok,
  commit-eq_ok, ℕ, String, ◌≡◌, refl, true, ◌||◌, some, List, [], ◌∷◌, ◌++◌, arith, ==_refl, length,
  ok, err, Bool-cases, inl, inr, if◌then◌else◌, concurrency_conflict, subst,
}
use rexec_op.Base.Int.{ℤ, pos}
use rexec_op.Json.{Value, int, str, obj, get, put, JsonFile, null, bool, arr, Fields}
use rexec_op.Json.Python.{Python}
use rexec_op.Queue.Store.{QueueData, saved, load, in_pending, index_of}
use rexec_op.Queue.Store.RoundTrip.{load-saved, load_checks, check_claims-put}
use rexec_op.Queue.Topology.{has_claim_status, require_topology}
use rexec_op.Queue.Topology.Laws.{tail-IsOrderly, IsOrderly}
use rexec_op.Queue.Claims.{
  run_change, claim_change, enqueue, enqueue_change, claim, claim_plan, claim_unlocked,
  next_attempt, new_claim, validated_claim_expiry, valid_claim_parameters, carried,
}
use rexec_op.Queue.Claims.Laws.{get-with_transition, new_claim_checked}
use rexec_op.Queue.Invariant.{IsWellFormed, require_topology_ok}

index_of_new :
    (id : String) (p : List Value)
    → in_pending id p ≡ false
    → index_of id (p ++ str id ∷ []) ≡ length p
index_of_new id [] h = ground (arith, ==_refl id)
index_of_new id (v ∷ p) h = ground (arith, index_of_new id p)

some_fields : {a b : Fields} → some a ≡ some b → a ≡ b
some_fields h = cc

none_fields : {a : Fields} → ◌≡◌ {A = Option Fields} none (some a) → ⊥
none_fields h = cc

module _ ⦃py : Python⦄ where
  -- In a well-formed file, an operation that is not pending and has no active claim is queued
  -- behind all that wait: the call returns their number, and the file then holds the longer list
  -- and the same claims.
  pub enqueue_appends :
      (id : String) (now : ℕ) (file : JsonFile) (w : IsWellFormed file)
      → has_claim_status "claimed" (get id w.content.claims) ≡ false
      → in_pending id w.content.pending ≡ false
      → ((enqueue id now file).0 ≡ ok (length w.content.pending))
        × (load (enqueue id now file).1
            ≡ ok (record { pending = w.content.pending ++ str id ∷ []; claims = w.content.claims }))
  unfolding enqueue enqueue_change
  enqueue_appends id now file w free new = (
    rw (w.loads, require_topology_ok w, free, new, index_of_new id w.content.pending new),
    rw (w.loads, require_topology_ok w, free, new)
        (load-saved
          (record { pending = w.content.pending ++ str id ∷ []; claims = w.content.claims }) now
          (load_checks file w.loads)),
  )

  -- In a well-formed file, queueing again writes nothing: an operation with an active claim is
  -- refused, and one that is pending keeps the place that the call returns.
  enqueue_again :
      (id : String) (now : ℕ) (file : JsonFile) (w : IsWellFormed file)
      → (has_claim_status "claimed" (get id w.content.claims) || in_pending id w.content.pending)
        ≡ true
      → enqueue id now file ≡ (
        if has_claim_status "claimed" (get id w.content.claims)
            then err (concurrency_conflict "concurrency_conflict: active queue claim exists")
            else ok (index_of id w.content.pending),
        file,
      )
  unfolding enqueue enqueue_change
  enqueue_again id now file w h =
      elim (Bool-cases (has_claim_status "claimed" (get id w.content.claims))) [
        | inl held ↦ rw (w.loads, require_topology_ok w, held)
        | inr free ↦ rw (w.loads, require_topology_ok w, free, rw free at h)
      ]

  -- On a well-formed file, with valid parameters and a first pending operation that has no active
  -- claim and whose attempts can be counted on, a claim takes that operation: it returns and
  -- writes a claim that names the caller and the next attempt, the other entries of both lists
  -- stay, and the operation is no longer pending.
  pub claim_takes_first :
      (token epoch process : Value) (ttl : ℤ) (now expires : ℕ) (file : JsonFile)
      (w : IsWellFormed file) {id : String} {p : List Value} {n : ℕ}
      → valid_claim_parameters token epoch process ≡ true
      → validated_claim_expiry ttl now ≡ ok expires
      → w.content.pending ≡ str id ∷ p
      → has_claim_status "claimed" (get id w.content.claims) ≡ false
      → next_attempt (get id w.content.claims) ≡ ok n
      → let c = new_claim id token epoch process n now expires (get id w.content.claims) in
        ((claim token epoch process ttl now file).0 ≡ ok (some c))
        × (load (claim token epoch process ttl now file).1
            ≡ ok (record { pending = p; claims = put id (obj c) w.content.claims }))
        × (in_pending id p ≡ false)
        × (get "status" c ≡ str "claimed")
        × (get "owner_token" c ≡ token)
        × (get "lease_epoch" c ≡ epoch)
        × (get "attempt" c ≡ int (pos n))
  unfolding claim claim_plan claim_unlocked
  claim_takes_first token epoch process ttl now expires file w {id} {p} {n} v e first free a =
      let c = new_claim id token epoch process n now expires (get id w.content.claims) in
      let bare = new_claim id token epoch process n now expires null in
      let kept' = carried (get id w.content.claims) in
      (
        rw (v, e, w.loads, require_topology_ok w, first, free, a),
        rw (v, e, w.loads, require_topology_ok w, first, free, a)
            (load-saved (record { pending = p; claims = put id (obj c) w.content.claims }) now
              (check_claims-put id (obj c) w.content.claims
                (new_claim_checked id token epoch process n now expires w.content.claims
                  (load_checks file w.loads))
                (load_checks file w.loads))),
        (tail-IsOrderly id p (subst IsOrderly first w.orderly)).1,
        get-with_transition "status" kept' bare refl,
        get-with_transition "owner_token" kept' bare refl,
        get-with_transition "lease_epoch" kept' bare refl,
        get-with_transition "attempt" kept' bare refl,
      )

  -- A claim that was made of the data.
  record IsTaken (q : QueueData) (token epoch process : Value) (claimed : QueueData × Option Fields)
      (c : Fields) : Type 0 where
    id : String
    rest : List Value
    first : q.pending ≡ str id ∷ rest
    free : has_claim_status "claimed" (get id q.claims) ≡ false
    made : claimed ≡ (record { pending = rest; claims = put id (obj c) q.claims }, some c)
    named : get "operation_id" c ≡ str id
    owned : get "owner_token" c ≡ token

  claim_unlocked-IsTaken :
      (q : QueueData) (pending : List Value) (token epoch process : Value) (expires now : ℕ)
      {claimed : QueueData × Option Fields} {c : Fields}
      → q.pending ≡ pending
      → claim_unlocked q pending token epoch process expires now ≡ ok claimed
      → claimed.1 ≡ some c
      → IsTaken q token epoch process claimed c
  unfolding claim_unlocked
  claim_unlocked-IsTaken q (str id ∷ rest) token epoch process expires now {claimed} {c} first h
        returned =
      let (free, h₁) = raise_if-eq_ok (has_claim_status "claimed" (get id q.claims)) _ _ h in
      let (n, counted, h₂) = >>=-eq-ok (next_attempt (get id q.claims)) _ h₁ in
      let made : Fields = new_claim id token epoch process n now expires (get id q.claims) in
      let same : (record { pending = rest; claims = put id (obj made) q.claims }, some made)
          ≡ claimed =
        ok-injective h₂ in
      let same_claim : made ≡ c = some_fields (ap (λ p. p.1) same ∙ returned) in
      let bare = new_claim id token epoch process n now expires null in
      subst (λ x. IsTaken q token epoch process claimed x) same_claim
        (record {
          id = id;
          rest = rest;
          first = first;
          free = free;
          made = sym same;
          named = get-with_transition "operation_id" (carried (get id q.claims)) bare refl;
          owned = get-with_transition "owner_token" (carried (get id q.claims)) bare refl;
        })
  claim_unlocked-IsTaken q [] token epoch process expires now first h returned =
      absurd (none_fields (ap (λ p. p.1) (ok-injective h) ∙ returned))
  claim_unlocked-IsTaken q (null ∷ rest) token epoch process expires now first h returned =
      absurd (err≢ok h)
  claim_unlocked-IsTaken q (bool b ∷ rest) token epoch process expires now first h returned =
      absurd (err≢ok h)
  claim_unlocked-IsTaken q (int n ∷ rest) token epoch process expires now first h returned =
      absurd (err≢ok h)
  claim_unlocked-IsTaken q (arr xs ∷ rest) token epoch process expires now first h returned =
      absurd (err≢ok h)
  claim_unlocked-IsTaken q (obj d ∷ rest) token epoch process expires now first h returned =
      absurd (err≢ok h)

  -- What `claim` stores where it returns a claim.
  claim_change-stored :
      (claimed : QueueData × Option Fields) (now : ℕ) (file : JsonFile) {c : Fields}
      {file' : JsonFile}
      → run_change now (claim_change false claimed) file ≡ (ok (some c), file')
      → (claimed.1 ≡ some c) × (file' ≡ saved claimed.0 now)
  claim_change-stored (q, some c) now file h = (cc, cc)
  claim_change-stored (q, none) now file h = cc

  -- Whatever the file holds, a call of `claim` that returns a claim took the first pending operation of
  -- the data in the file, and that operation had no active claim there; the claim names the operation
  -- and the caller's token, and the file then holds the data without that pending entry and with the
  -- claim.
  pub claim_refuses_claimed :
      (token epoch process : Value) (ttl : ℤ) (now : ℕ) (file : JsonFile) {c : Fields}
      {file' : JsonFile}
      → claim token epoch process ttl now file ≡ (ok (some c), file')
      → (q : QueueData) × (id : String) × (rest : List Value) × (load file ≡ ok q)
        × (q.pending ≡ str id ∷ rest)
        × (has_claim_status "claimed" (get id q.claims) ≡ false)
        × (get "operation_id" c ≡ str id)
        × (get "owner_token" c ≡ token)
        × (file' ≡ saved (record { pending = rest; claims = put id (obj c) q.claims }) now)
  unfolding claim claim_plan
  claim_refuses_claimed token epoch process ttl now file h =
      let (change, planned, ran) =
        commit-eq_ok (claim_plan token epoch process ttl now file) (run_change now) file h in
      let (_, h₁) = raise_if-eq_ok (not (valid_claim_parameters token epoch process)) _ _ planned in
      let (expires, _, h₂) = >>=-eq-ok (validated_claim_expiry ttl now) _ h₁ in
      let (q, loads, h₃) = >>=-eq-ok (load file) _ h₂ in
      let (_, h₄) = >>-eq-ok (require_topology q) _ h₃ in
      let (claimed, taken, h₅) =
        >>=-eq-ok (claim_unlocked q q.pending token epoch process expires now) _ h₄ in
      let (returned, written) =
        claim_change-stored claimed now file (rw (← ok-injective h₅) at ran) in
      let t =
        claim_unlocked-IsTaken q q.pending token epoch process expires now refl taken returned in
      (
        q,
        t.id,
        t.rest,
        loads,
        t.first,
        t.free,
        t.named,
        t.owned,
        written ∙ ap (λ p. saved p.0 now) t.made,
      )
