-- ===== src/Queue/Claims/Laws.antt =====
-- The claim that is written when an operation is taken from the queue.
use rexec_op.Base.{
  ℕ, String, ◌≡◌, refl, ◌≢◌, Bool, true, false, not, List, arith, eq_iff, ◌==◌, ==_refl, Result, ok,
  err, >>=-eq-ok, >>-eq-ok, Bool-cases, inl, inr, raise_if, Error, commit, sym, ◌∙◌, ap,
}
use rexec_op.Base.Int.{pos, negsuc}
use rexec_op.Json.{
  Value, null, bool, int, str, arr, obj, Fields, end, field, get, has, is_nonempty_text, JsonFile,
}
use rexec_op.Json.Laws.{get-put_ne, has-put, get-put_self, get_absent}
use rexec_op.Json.Python.{Python}
use rexec_op.Queue.Checks.{
  valid_bounded_integer, max_transition_epoch, is_member, valid_transition_record,
}
use rexec_op.Queue.Store.{QueueData, check_claim, check_claims, saved, recovery_blocked}
use rexec_op.Queue.Topology.{claim_is_sound, valid_claim_identity}
use rexec_op.Queue.Claims.{
  Change, kept, stored, blocked, run_change, next_attempt, attempt_after, carried, with_transition,
  new_claim,
}

-- A transition that is carried along changes no other field.
pub get-with_transition :
    (k : String) (c : Value) (d : Fields)
    → (k == "last_transition") ≡ false
    → get k (with_transition c d) ≡ get k d
get-with_transition k null d h = refl
get-with_transition k (bool b) d h = refl
get-with_transition k (int n) d h = refl
get-with_transition k (str s) d h = refl
get-with_transition k (arr xs) d h = refl
get-with_transition k (obj t) d h =
    get-put_ne "last_transition" k (obj t) d (λ e. ground (arith, eq_iff k "last_transition"))

-- Attempts are counted from one and stay in range.
pub next_attempt_bounded :
    (previous : Value) {n : ℕ}
    → next_attempt previous ≡ ok n
    → valid_bounded_integer max_transition_epoch 1 (int (pos n)) ≡ true
unfolding next_attempt valid_bounded_integer
next_attempt_bounded (obj d) h = bounded (get "attempt" d) h
  where
    bounded :
        (v : Value) {n : ℕ}
        → attempt_after v ≡ ok n
        → valid_bounded_integer max_transition_epoch 1 (int (pos n)) ≡ true
    bounded (int (pos m)) e = ground arith
    bounded (int (negsuc m)) e = cc
    bounded null e = cc
    bounded (bool b) e = cc
    bounded (str s) e = cc
    bounded (arr xs) e = cc
    bounded (obj d) e = cc
next_attempt_bounded null h = ground arith
next_attempt_bounded (bool b) h = ground arith
next_attempt_bounded (int n) h = ground arith
next_attempt_bounded (str s) h = ground arith
next_attempt_bounded (arr xs) h = ground arith

module _ ⦃py : Python⦄ where
  -- Whatever the call does to the file, the file it leaves is the old one or one that it saved.
  pub run_change_inv {κ} :
      {A : Type 0} (P : JsonFile → Type κ) (now : ℕ) (m : Result (Change A)) (file : JsonFile)
      → P file
      → ((q : QueueData) (a : A) → m ≡ ok (stored q a) → P (saved q now))
      → ((q : QueueData) (e : Error) → m ≡ ok (blocked q e) → P (saved q now))
      → P (commit m (run_change now) file).1
  run_change_inv P now (err e) file h s b = h
  run_change_inv P now (ok (kept a)) file h s b = h
  run_change_inv P now (ok (stored q a)) file h s b = s q a refl
  run_change_inv P now (ok (blocked q e)) file h s b = b q e refl

  -- The new claim is sound when its owner is named and its numbers are in range.
  pub new_claim_sound :
      (p : List Value) (id : String) (token epoch process : Value) (n now expires : ℕ)
      (previous : Value)
      → (id == "") ≡ false
      → is_nonempty_text token ≡ true
      → is_nonempty_text process ≡ true
      → valid_bounded_integer max_transition_epoch 1 epoch ≡ true
      → valid_bounded_integer max_transition_epoch 1 (int (pos n)) ≡ true
      → claim_is_sound p id (obj (new_claim id token epoch process n now expires previous))
        ≡ ok true
  unfolding claim_is_sound is_member valid_claim_identity
  new_claim_sound p id token epoch process n now expires previous ne ht hp he hn =
      let c = carried previous in
      let d = new_claim id token epoch process n now expires null in
      rw (
        ne,
        get-with_transition "status" c d refl,
        get-with_transition "operation_id" c d refl,
        get-with_transition "lease_epoch" c d refl,
        get-with_transition "attempt" c d refl,
        get-with_transition "owner_token" c d refl,
        get-with_transition "process_instance_id" c d refl,
        ==_refl id,
        ht,
        hp,
        he,
        hn,
      )

  carried_checked :
      (c : Value) (d : Fields)
      → has "last_transition" d ≡ false
      → ((t : Fields) → c ≡ obj t → valid_transition_record (obj t) ≡ ok true)
      → check_claim (obj (with_transition c d)) ≡ ok tt
  carried_checked (obj t) d none' valid = rw (
    has-put "last_transition" "last_transition" (obj t) d,
    get-put_self "last_transition" (obj t) d,
    valid t refl,
  )
  carried_checked null d none' valid = rw none'
  carried_checked (bool b) d none' valid = rw none'
  carried_checked (int n) d none' valid = rw none'
  carried_checked (str s) d none' valid = rw none'
  carried_checked (arr xs) d none' valid = rw none'

  -- The check of a claim found in checked claims.
  get_checked : (k : String) (d : Fields) → check_claims d ≡ ok tt → check_claim (get k d) ≡ ok tt
  unfolding check_claims
  get_checked k end h = refl
  get_checked k (field j v d) h =
      let (hv, rest) = >>-eq-ok (check_claim v) (check_claims d) h in
      elim (Bool-cases (k == j)) [
        | inl same ↦ rw same hv
        | inr other ↦ rw other (get_checked k d rest)
      ]

  transition_checked :
      (d : Fields) (t : Fields)
      → check_claim (obj d) ≡ ok tt
      → get "last_transition" d ≡ obj t
      → valid_transition_record (obj t) ≡ ok true
  transition_checked d t h e = elim (Bool-cases (has "last_transition" d)) [
    | inr missing' ↦ absurd (null≢obj (sym (get_absent "last_transition" d missing') ∙ e))
    | inl here ↦
        let (b, valid, passed) =
          >>=-eq-ok (valid_transition_record (obj t)) (λ b. raise_if (not b) recovery_blocked)
            (rw (here, e) at h) in
        rw valid (ap ok (accepted b passed))
  ]
    where
      null≢obj : {a : Fields} → null ≢ obj a
      null≢obj q = cc

      accepted : (b : Bool) → raise_if (not b) recovery_blocked ≡ ok tt → b ≡ true
      accepted true q = refl
      accepted false q = cc

  -- The new claim passes the check of the loader if the claims it comes from did.
  pub new_claim_checked :
      (id : String) (token epoch process : Value) (n now expires : ℕ) (claims : Fields)
      → check_claims claims ≡ ok tt
      → check_claim (obj (new_claim id token epoch process n now expires (get id claims))) ≡ ok tt
  new_claim_checked id token epoch process n now expires claims h =
      carried_checked (carried (get id claims))
        (new_claim id token epoch process n now expires null) refl
        (was_checked (get id claims) (get_checked id claims h))
    where
      was_checked :
          (previous : Value)
          → check_claim previous ≡ ok tt
          → (t : Fields) → carried previous ≡ obj t
          → valid_transition_record (obj t) ≡ ok true
      was_checked (obj d) c t e = transition_checked d t c e
      was_checked null c t e = cc
      was_checked (bool b) c t e = cc
      was_checked (int m) c t e = cc
      was_checked (str s) c t e = cc
      was_checked (arr xs) c t e = cc
