-- ===== src/TargetLock/Exclusion.antt =====
-- One target, one operation: a lock stays with its holder until that operation ends or releases it.
use mathlib.Core.Bool.{true≢false}
use rexec_op.Base.{
  ℕ, String, ◌≡◌, refl, ◌≢◌, Bool, true, false, not, ◌&&◌, Option, none, some, List, [], ◌∷◌, arith,
  ◌==◌, ==_refl, eq_iff, all, if◌then◌else◌, Result, ok, err, ok-injective, err≢ok, >>=-eq-ok,
  Bool-cases, inl, inr, ap, sym, ◌∙◌, nat_eq, subst,
}
use rexec_op.Base.Int.{pos, negsuc}
use rexec_op.Json.{
  Value, null, bool, int, str, arr, obj, nil, cons, Fields, end, field, get, missing, readable,
  present,
}
use rexec_op.Json.Python.{Python, text, to_text}
use rexec_op.TargetLock.{
  lock_filename, Locks, with_file, States, is_active, read, read_file, holder, holder_operation_id,
  is_stale, lock_record, acquire, release,
}

none≢some : {s : String} → none ≢ some s
none≢some h = cc

some-injective : {s t : String} → some s ≡ some t → s ≡ t
some-injective h = cc

-- A call of one of the two methods that write.
pub data Call : Type 0 where
  acquire_call : String → String → String → ℕ → Call
  release_call : String → String → String → Call

-- The call comes while the operation is active, and does not release that operation's lock.
abbrev pub leaves : String → String → States × Call → Bool
leaves op name (load, acquire_call env t op' now) = is_active load op
leaves op name (load, release_call env t op') =
    is_active load op && not (name == lock_filename env t && op == op')

module _ ⦃py : Python⦄ where
  -- `str(v)` and `str(v or "")` differ only where the second is empty.
  text-to_text : (v : Value) → (text v == "") ≡ false → to_text v ≡ text v
  text-to_text null h = cc
  text-to_text (bool false) h = cc
  text-to_text (bool true) h = refl
  text-to_text (int (pos n)) h = elim (Bool-cases (nat_eq n 0)) [
    | inl zero' ↦ absurd (true≢false (rw (text, zero') at h))
    | inr positive ↦ rw (text, positive)
  ]
  text-to_text (int (negsuc n)) h = refl
  text-to_text (str s) h = refl
  text-to_text (arr nil) h = cc
  text-to_text (arr (cons v xs)) h = refl
  text-to_text (obj end) h = cc
  text-to_text (obj (field k v d)) h = refl

  -- The operation that holds the lock of a target.
  abbrev pub Holds : String → String → String → Locks → Type 0
  Holds operation_id environment target locks =
      holder_operation_id environment target locks ≡ ok (some operation_id)

  -- A held lock's file, as the methods find it.
  pub data IsHeldBy (operation_id : String) (locks : Locks) (name : String) : Type 0 where
    held_by :
        (found : Option Fields) (d : Fields)
        → read_file (locks name) ≡ ok found
        → present found ≡ some d
        → text (get "operation_id" d) ≡ operation_id
        → (operation_id == "") ≡ false
        → IsHeldBy operation_id locks name

  pub Holds-IsHeldBy :
      (op env t : String) (locks : Locks)
      → Holds op env t locks
      → IsHeldBy op locks (lock_filename env t)
  unfolding holder_operation_id read
  Holds-IsHeldBy op env t locks h =
      let (found, r, h₁) = >>=-eq-ok (read_file (locks (lock_filename env t))) _ h in
      go found (present found) r refl (ok-injective h₁)
    where
      go :
          (found p : Option Fields)
          → read_file (locks (lock_filename env t)) ≡ ok found
          → present found ≡ p
          → holder p ≡ some op
          → IsHeldBy op locks (lock_filename env t)
      go found none r e n = cc
      go found (some d) r e n = elim (Bool-cases (text (get "operation_id" d) == "")) [
        | inl unnamed ↦ absurd (none≢some (rw unnamed at n))
        | inr named ↦
            let same : text (get "operation_id" d) ≡ op = some-injective (rw named at n) in
            held_by found d r e same (rw (← same) named)
      ]

  pub IsHeldBy-Holds :
      (op env t : String) (locks : Locks)
      → IsHeldBy op locks (lock_filename env t)
      → Holds op env t locks
  unfolding holder_operation_id read
  IsHeldBy-Holds op env t locks (held_by found d r p o n) = rw (r, p, o, n)

  pub after : States × Call → Locks → Locks
  after (load, acquire_call env t op now) locks = (acquire load env t op now locks).1
  after (load, release_call env t op) locks = (release env t op locks).1

  pub run : List (States × Call) → Locks → Locks
  run [] locks = locks
  run (c ∷ cs) locks = run cs (after c locks)

  -- While an active operation holds a lock, the lock's file is not written: to each call `acquire`
  -- says whether the caller is that operation.
  acquire-IsHeldBy :
      (load : States) (env t op op' : String) (now : ℕ) (locks : Locks)
      → IsHeldBy op locks (lock_filename env t)
      → is_active load op ≡ true
      → acquire load env t op' now locks ≡ (ok (op == op'), locks)
  unfolding acquire read is_stale
  acquire-IsHeldBy load env t op op' now locks (held_by found d r p o n) active =
      rw (r, p, text-to_text (get "operation_id" d) (rw o n), o, n, active)

  release_other :
      (env t op op' : String) (locks : Locks)
      → IsHeldBy op locks (lock_filename env t)
      → (op == op') ≡ false
      → release env t op' locks ≡ (ok tt, locks)
  unfolding release read
  release_other env t op op' locks (held_by found d r p o n) ne = rw (r, p, o, n, ne)

  -- A call for another file leaves this one.
  acquire_elsewhere :
      (load : States) (env t op : String) (now : ℕ) (locks : Locks) (name : String)
      → (name == lock_filename env t) ≡ false
      → (acquire load env t op now locks).1 name ≡ locks name
  unfolding acquire
  acquire_elsewhere load env t op now locks name ne = ground arith

  pub release_elsewhere :
      (env t op : String) (locks : Locks) (name : String)
      → (name == lock_filename env t) ≡ false
      → (release env t op locks).1 name ≡ locks name
  unfolding release
  release_elsewhere env t op locks name ne = ground arith

  pub IsHeldBy-same :
      (op name : String) (locks locks' : Locks)
      → locks' name ≡ locks name
      → IsHeldBy op locks name
      → IsHeldBy op locks' name
  IsHeldBy-same op name locks locks' same (held_by found d r p o n) =
      held_by found d (ap read_file same ∙ r) p o n

  step :
      (op name : String) (c : States × Call) (locks : Locks)
      → leaves op name c ≡ true
      → IsHeldBy op locks name
      → IsHeldBy op (after c locks) name
  unfolding after
  step op name (load, acquire_call env t op' now) locks l h =
      elim (Bool-cases (name == lock_filename env t)) [
        | inr other ↦
            IsHeldBy-same op name locks _ (acquire_elsewhere load env t op' now locks name other) h
        | inl same ↦
            let here =
              subst (λ x. IsHeldBy op locks x) ((eq_iff name (lock_filename env t)).0 same) h in
            rw (after, acquire-IsHeldBy load env t op op' now locks here l) h
      ]
  step op name (load, release_call env t op') locks l h =
      elim (Bool-cases (name == lock_filename env t)) [
        | inr other ↦ IsHeldBy-same op name locks _ (release_elsewhere env t op' locks name other) h
        | inl same ↦
            let here =
              subst (λ x. IsHeldBy op locks x) ((eq_iff name (lock_filename env t)).0 same) h in
            rw (after, release_other env t op op' locks here (ground (arith, l, same))) h
      ]

  run_keeps :
      (op name : String) (cs : List (States × Call)) (locks : Locks)
      → all (leaves op name) cs ≡ true
      → IsHeldBy op locks name
      → IsHeldBy op (run cs locks) name
  unfolding run
  run_keeps op name [] locks l h = h
  run_keeps op name (c ∷ cs) locks l h =
      run_keeps op name cs (after c locks) (ground (arith, l))
        (step op name c locks (ground (arith, l)) h)

  -- Once an operation holds the lock of a target it keeps it through any calls by any operations,
  -- as long as it is active at each of them and does not itself release a lock with the same file
  -- name; and until then `acquire` says yes to that operation alone and writes nothing.
  pub exclusive :
      (op env t : String) (cs : List (States × Call)) (locks : Locks) (load : States) (op' : String)
      (now : ℕ)
      → Holds op env t locks
      → all (leaves op (lock_filename env t)) cs ≡ true
      → is_active load op ≡ true
      → Holds op env t (run cs locks)
        × (acquire load env t op' now (run cs locks) ≡ (ok (op == op'), run cs locks))
  exclusive op env t cs locks load op' now h l active =
      let kept = run_keeps op (lock_filename env t) cs locks l (Holds-IsHeldBy op env t locks h) in
      (
        IsHeldBy-Holds op env t (run cs locks) kept,
        acquire-IsHeldBy load env t op op' now (run cs locks) kept active,
      )

  take-Holds :
      (env t op : String) (now : ℕ) (locks : Locks)
      → (op == "") ≡ false
      → Holds op env t
          (with_file (lock_filename env t) (readable (obj (lock_record env t op now))) locks)
  unfolding holder_operation_id read
  take-Holds env t op now locks n = rw (==_refl (lock_filename env t), n)

  not_stale :
      (load : States) (d : Fields)
      → is_stale load d ≡ false
      → (text (get "operation_id" d) == "") ≡ false
  unfolding is_stale
  not_stale load d h = ground arith

  -- An operation with a name that `acquire` says yes to holds the lock.
  pub acquire-Holds :
      (load : States) (env t op : String) (now : ℕ) (locks : Locks)
      → (op == "") ≡ false
      → (acquire load env t op now locks).0 ≡ ok true
      → Holds op env t (acquire load env t op now locks).1
  unfolding acquire read
  acquire-Holds load env t op now locks n h = begin (read_file (locks (lock_filename env t))) refl
    where
      go :
          (found p : Option Fields)
          → read_file (locks (lock_filename env t)) ≡ ok found
          → present found ≡ p
          → Holds op env t (acquire load env t op now locks).1
      go found none r e = rw (r, e) (take-Holds env t op now locks n)
      go found (some d) r e = elim (Bool-cases (is_stale load d)) [
        | inl stale ↦ rw (r, e, stale) (take-Holds env t op now locks n)
        | inr fresh ↦
            let named = not_stale load d fresh in
            let mine : (to_text (get "operation_id" d) == op) ≡ true =
              ok-injective (rw (r, e, fresh) at h) in
            let same : text (get "operation_id" d) ≡ op =
              sym (text-to_text (get "operation_id" d) named) ∙ (eq_iff _ _).0 mine in
            rw (r, e, fresh) (IsHeldBy-Holds op env t locks (held_by found d r e same n))
      ]

      begin :
          (q : Result (Option Fields))
          → read_file (locks (lock_filename env t)) ≡ q
          → Holds op env t (acquire load env t op now locks).1
      begin (ok found) r = go found (present found) r refl
      begin (err x) r = absurd (err≢ok (rw r at h))

  -- Releasing a lock that one holds removes its file, and a lock that another operation holds is
  -- left as it is.
  pub release-Holds :
      (op op' env t : String) (locks : Locks)
      → Holds op env t locks
      → release env t op' locks
        ≡ (ok tt, if op == op' then with_file (lock_filename env t) missing locks else locks)
  unfolding release read
  release-Holds op op' env t locks h = go (Holds-IsHeldBy op env t locks h)
    where
      go :
          IsHeldBy op locks (lock_filename env t)
          → release env t op' locks
            ≡ (ok tt, if op == op' then with_file (lock_filename env t) missing locks else locks)
      go (held_by found d r p o n) = elim (Bool-cases (op == op')) [
        | inl same ↦ rw (r, p, o, n, same)
        | inr other ↦ rw (r, p, o, n, other)
      ]
