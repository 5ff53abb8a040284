-- ===== src/Queue/Invariant.antt =====
-- The invariant of the queue file, and the methods that keep it.
use rexec_op.Base.{
  ℕ, String, ◌≡◌, refl, ◌≢◌, true, false, ◌&&◌, none, some, List, [], ◌∷◌, ◌++◌, arith, eq_iff,
  ◌==◌, all, distinct, Result, ok, err, ok-injective, Bool-cases, inl, inr, ◌>>=◌, commit, sym,
}
use rexec_op.Base.Int.{ℤ}
use rexec_op.Json.{Value, int, str, obj, get, put, JsonFile, is_nonempty_text, null, bool, arr}
use rexec_op.Json.Laws.{HasUniqueKeys, put-HasUniqueKeys}
use rexec_op.Json.Python.{Python}
use rexec_op.Queue.Checks.{valid_bounded_integer, max_transition_epoch, valid_public_claim_identity}
use rexec_op.Queue.Store.{QueueData, load, saved, texts, in_pending, check_claims}
use rexec_op.Queue.Store.RoundTrip.{load-saved, load_checks, check_claims-put}
use rexec_op.Queue.Topology.{validate_topology, first_unsound, require_topology, has_claim_status}
use rexec_op.Queue.Topology.Laws.{
  IsOrderly, append-IsOrderly, tail-IsOrderly, in_pending-append, first_unsound_mono,
  first_unsound-put,
}
use rexec_op.Queue.Claims.{
  run_change, enqueue, enqueue_change, claim, claim_plan, claim_unlocked, claim_change,
  next_attempt, new_claim, validated_claim_expiry, valid_claim_parameters,
}
use rexec_op.Queue.Claims.Laws.{new_claim_sound, new_claim_checked, next_attempt_bounded}

stays :
    (id j : String) (p : List Value)
    → j ≢ id
    → in_pending j (str id ∷ p) ≡ true
    → in_pending j p ≡ true
stays id j p ne h = elim (Bool-cases (id == j)) [
  | inl same ↦ absurd (ne (sym ((eq_iff id j).0 same)))
  | inr other ↦ rw other at h
]

head_nonempty : (id : String) (p : List Value) → IsOrderly (str id ∷ p) → (id == "") ≡ false
head_nonempty id p o = ground (arith, o.all_texts)

module _ ⦃py : Python⦄ where
  public_identity : (v : Value) → valid_public_claim_identity v ≡ true → is_nonempty_text v ≡ true
  unfolding valid_public_claim_identity
  public_identity (str s) h = ground arith
  public_identity null h = cc
  public_identity (bool b) h = cc
  public_identity (int n) h = cc
  public_identity (arr xs) h = cc
  public_identity (obj d) h = cc

  parameters_valid :
      (token epoch process : Value)
      → valid_claim_parameters token epoch process ≡ true
      → (is_nonempty_text token ≡ true)
        × (is_nonempty_text process ≡ true)
        × (valid_bounded_integer max_transition_epoch 1 epoch ≡ true)
  parameters_valid token epoch process h =
      (public_identity token (ground arith), public_identity process (ground arith), ground arith)

  -- The file loads, its pending operations are texts, none empty and none twice, and every claim
  -- passes the topology check.
  pub record IsWellFormed (file : JsonFile) : Type 0 where
    pub content : QueueData
    pub loads : load file ≡ ok content
    pub orderly : IsOrderly content.pending
    pub sound : first_unsound content.pending content.claims ≡ ok none
    pub unique : HasUniqueKeys content.claims

  -- The topology check passes exactly on such data.
  pub validate_topology-eq_none :
      (q : QueueData)
      → validate_topology q ≡ ok none
      → IsOrderly q.pending × (first_unsound q.pending q.claims ≡ ok none)
  unfolding validate_topology
  validate_topology-eq_none q h =
      elim (Bool-cases (all is_nonempty_text q.pending && distinct (texts q.pending))) [
        | inl good ↦ (record { all_texts = ground arith; no_repeats = ground arith }, rw good at h)
        | inr bad ↦ absurd (some≢none (ok-injective (rw bad at h)))
      ]
    where
      some≢none : {s : String} → some s ≢ none
      some≢none e = cc

  pub validate_topology_sound :
      (q : QueueData)
      → IsOrderly q.pending
      → first_unsound q.pending q.claims ≡ ok none
      → validate_topology q ≡ ok none
  unfolding validate_topology
  validate_topology_sound q o s = rw (o.all_texts, o.no_repeats) s

  pub require_topology_ok :
      {file : JsonFile} (w : IsWellFormed file) → require_topology w.content ≡ ok tt
  unfolding require_topology
  require_topology_ok w = rw (validate_topology_sound w.content w.orderly w.sound)

  pub saved-IsWellFormed :
      (q : QueueData) (now : ℕ)
      → check_claims q.claims ≡ ok tt
      → IsOrderly q.pending
      → first_unsound q.pending q.claims ≡ ok none
      → HasUniqueKeys q.claims
      → IsWellFormed (saved q now)
  saved-IsWellFormed q now c o s u = record {
    content = q;
    loads = load-saved q now c;
    orderly = o;
    sound = s;
    unique = u;
  }

  -- Queueing an operation with a name keeps a well-formed file well formed, on every branch.
  pub enqueue-IsWellFormed :
      (id : String) (now : ℕ) (file : JsonFile)
      → (id == "") ≡ false
      → IsWellFormed file
      → IsWellFormed (enqueue id now file).1
  unfolding enqueue enqueue_change
  enqueue-IsWellFormed id now file ne w =
      let q = w.content in
      elim (Bool-cases (has_claim_status "claimed" (get id q.claims))) [
        | inl held ↦ rw (w.loads, require_topology_ok w, held) w
        | inr free ↦ elim (Bool-cases (in_pending id q.pending)) [
          | inl waiting ↦ rw (w.loads, require_topology_ok w, free, waiting) w
          | inr new ↦
              rw (w.loads, require_topology_ok w, free, new)
                (saved-IsWellFormed (record q { pending = q.pending ++ str id ∷ [] }) now
                  (load_checks file w.loads) (append-IsOrderly q.pending id w.orderly ne new)
                  (first_unsound_mono q.pending (q.pending ++ str id ∷ []) q.claims
                    (λ k _ p. rw (in_pending-append k q.pending (str id ∷ []), p)) w.sound)
                  w.unique)
        ]
      ]

  -- The claim of the first pending operation, on well-formed data.
  claim_unlocked-IsWellFormed :
      (q : QueueData) (p : List Value) (id : String) (token epoch process : Value)
      (expires now saved_at n : ℕ)
      → q.pending ≡ str id ∷ p
      → check_claims q.claims ≡ ok tt
      → IsOrderly (str id ∷ p)
      → first_unsound (str id ∷ p) q.claims ≡ ok none
      → HasUniqueKeys q.claims
      → valid_claim_parameters token epoch process ≡ true
      → next_attempt (get id q.claims) ≡ ok n
      → IsWellFormed (
          saved
            (record {
              pending = p;
              claims =
                  put id
                    (obj (new_claim id token epoch process n now expires (get id q.claims)))
                    q.claims;
            })
            saved_at)
  claim_unlocked-IsWellFormed q p id token epoch process expires now saved_at n e c o s u v a =
      let claim' = new_claim id token epoch process n now expires (get id q.claims) in
      let (rest, gone) = tail-IsOrderly id p o in
      let (ht, hp, he) = parameters_valid token epoch process v in
      saved-IsWellFormed (record { pending = p; claims = put id (obj claim') q.claims }) saved_at
        (check_claims-put id (obj claim') q.claims
          (new_claim_checked id token epoch process n now expires q.claims c) c)
        rest
        (first_unsound-put (str id ∷ p) p id (obj claim') q.claims u (λ j ne h. stays id j p ne h)
          (new_claim_sound p id token epoch process n now expires (get id q.claims)
            (head_nonempty id p o) ht hp he (next_attempt_bounded (get id q.claims) a))
          s)
        (put-HasUniqueKeys id (obj claim') q.claims u)

  -- What `_claim_unlocked` does with well-formed data, whatever the list of pending operations.
  claim_after_load :
      (q : QueueData) (p : List Value) (token epoch process : Value) (expires now saved_at : ℕ)
      (file : JsonFile)
      → q.pending ≡ p
      → check_claims q.claims ≡ ok tt
      → IsOrderly p
      → first_unsound p q.claims ≡ ok none
      → HasUniqueKeys q.claims
      → valid_claim_parameters token epoch process ≡ true
      → IsWellFormed file
      → IsWellFormed
          (commit
            (claim_unlocked q p token epoch process expires now >>= λ c. ok (claim_change false c))
            (run_change saved_at)
            file).1
  unfolding claim_unlocked
  claim_after_load q [] token epoch process expires now saved_at file e c o s u v w = w
  claim_after_load q (str id ∷ p) token epoch process expires now saved_at file e c o s u v w =
      let claimed = has_claim_status "claimed" (get id q.claims) in
      elim (Bool-cases claimed) [
        | inl held ↦ rw held w
        | inr free ↦ go (next_attempt (get id q.claims)) refl free
      ]
    where
      go :
          (r : Result ℕ)
          → next_attempt (get id q.claims) ≡ r
          → has_claim_status "claimed" (get id q.claims) ≡ false
          → IsWellFormed
              (commit
                (claim_unlocked q (str id ∷ p) token epoch process expires now >>= λ c.
                  ok (claim_change false c))
                (run_change saved_at)
                file).1
      go (ok n) a free =
          rw (free, a)
            (claim_unlocked-IsWellFormed q p id token epoch process expires now saved_at n e c o s u
              v a)
      go (err x) a free = rw (free, a) w
  claim_after_load q (null ∷ p) token epoch process expires now saved_at file e c o s u v w = w
  claim_after_load q (bool b ∷ p) token epoch process expires now saved_at file e c o s u v w = w
  claim_after_load q (int n ∷ p) token epoch process expires now saved_at file e c o s u v w = w
  claim_after_load q (arr xs ∷ p) token epoch process expires now saved_at file e c o s u v w = w
  claim_after_load q (obj d ∷ p) token epoch process expires now saved_at file e c o s u v w = w

  -- A claim keeps a well-formed file well formed, whether it takes an operation, finds none or
  -- raises.
  pub claim-IsWellFormed :
      (token epoch process : Value) (ttl : ℤ) (now : ℕ) (file : JsonFile)
      → IsWellFormed file
      → IsWellFormed (claim token epoch process ttl now file).1
  unfolding claim claim_plan
  claim-IsWellFormed token epoch process ttl now file w =
      elim (Bool-cases (valid_claim_parameters token epoch process)) [
        | inr bad ↦ rw bad w
        | inl good ↦ go (validated_claim_expiry ttl now) refl good
      ]
    where
      go :
          (r : Result ℕ)
          → validated_claim_expiry ttl now ≡ r
          → valid_claim_parameters token epoch process ≡ true
          → IsWellFormed (claim token epoch process ttl now file).1
      go (err x) e good = rw (good, e) w
      go (ok expires) e good =
          rw (good, e, w.loads, require_topology_ok w)
            (claim_after_load w.content w.content.pending token epoch process expires now now file
              refl (load_checks file w.loads) w.orderly w.sound w.unique good w)
