-- ===== src/Restart/Swept.antt =====
-- Which locks the release of stale locks takes away.
use rexec_op.Base.{
  arith, String, ◌≡◌, refl, sym, subst, ◌∙◌, true, false, Option, none, some, List, [], ◌∷◌, ◌==◌,
  eq_iff, Result, ok, err, Action, Bool-cases, inl, inr, ok-injective,
}
use rexec_op.Base.Actions.{go_on}
use rexec_op.Json.{Value, Fields, get, present}
use rexec_op.Json.Laws.{present-eq_some}
use rexec_op.Json.Python.{Python, text}
use rexec_op.TargetLock.{
  Locks, States, lock_filename, read, read_file, is_active, is_stale, release,
}
use rexec_op.TargetLock.Exclusion.{
  Holds, IsHeldBy, held_by, Holds-IsHeldBy, IsHeldBy-Holds, IsHeldBy-same, release_elsewhere,
}
use rexec_op.Restart.{lock_payload, stale_lock, released_lock, swept_file, release_stale_locks}

some-injective : {a b : Fields} → some a ≡ some b → a ≡ b
some-injective h = cc

-- What is kept by a call and by what follows it is kept by both.
go_on-keeps :
    {S A B : Type 0} (P : S → Type 0) (first : Result A × S) (next : A → Action S B)
    → P first.1
    → ((a : A) (s : S) → first ≡ (ok a, s) → P s → P (next a s).1)
    → P (go_on first next).1
go_on-keeps P (ok a, s) next h k = k a s refl h
go_on-keeps P (err e, s) next h k = h

module _ ⦃py : Python⦄ (loaded : States) (id name : String)
    (active : is_active loaded id ≡ true) where
  -- A stale lock is not the one that an active operation holds.
  stale_elsewhere :
      (env target : String) (locks : Locks) {lock : Fields}
      → IsHeldBy id locks name
      → read env target locks ≡ ok (some lock)
      → is_stale loaded lock ≡ true
      → (name == lock_filename env target) ≡ false
  unfolding read is_stale
  stale_elsewhere env target locks {lock} (held_by found d opens there names named) reads stale =
      elim (Bool-cases (name == lock_filename env target)) [
        | inr other ↦ other
        | inl same ↦
            let here =
              subst (λ n. read_file (locks n) ≡ ok found)
                ((eq_iff name (lock_filename env target)).0 same) opens in
            let is : some lock ≡ some d =
              ok-injective (sym reads ∙ here) ∙ present-eq_some found there in
            absurd (clash (subst (λ e. is_stale loaded e ≡ true) (some-injective is) stale))
      ]
    where
      clash : is_stale loaded d ≡ true → ⊥
      clash h = ground (arith, names, named, active, h)

  release_keeps :
      (env target op : String) (locks : Locks)
      → (name == lock_filename env target) ≡ false
      → IsHeldBy id locks name
      → IsHeldBy id (release env target op locks).1 name
  release_keeps env target op locks other h =
      IsHeldBy-same id name locks (release env target op locks).1
        (release_elsewhere env target op locks name other) h

  released_lock-keeps :
      (file : String) (payload : Fields) (found : Option Fields) (rest : Action Locks (List Value))
      (locks : Locks)
      → ((locks' : Locks) → IsHeldBy id locks' name → IsHeldBy id (rest locks').1 name)
      → read (text (get "environment" payload)) (text (get "target" payload)) locks ≡ ok found
      → IsHeldBy id locks name
      → IsHeldBy id (released_lock file payload (stale_lock loaded found) rest locks).1 name
  released_lock-keeps file payload none rest locks later reads h = later locks h
  released_lock-keeps file payload (some lock) rest locks later reads h =
      elim (Bool-cases (is_stale loaded lock)) [
        | inr fresh ↦ rw fresh (later locks h)
        | inl stale ↦
            let env = text (get "environment" payload) in
            let target = text (get "target" payload) in
            let op = text (get "operation_id" lock) in
            rw stale (
              go_on-keeps (λ s. IsHeldBy id s name) (release env target op locks) _
                (release_keeps env target op locks (stale_elsewhere env target locks h reads stale)
                  h)
                (λ _ s _ held.
                  go_on-keeps (λ s'. IsHeldBy id s' name) (rest s) _ (later s held)
                    (λ _ s' _ held'. held')))
      ]

  swept_file-keeps :
      (file : String) (payload : Option Fields) (rest : Action Locks (List Value)) (locks : Locks)
      → ((locks' : Locks) → IsHeldBy id locks' name → IsHeldBy id (rest locks').1 name)
      → IsHeldBy id locks name
      → IsHeldBy id (swept_file loaded file payload rest locks).1 name
  swept_file-keeps file none rest locks later h = later locks h
  swept_file-keeps file (some payload) rest locks later h =
      by_read (read (text (get "environment" payload)) (text (get "target" payload)) locks) refl
    where
      by_read :
          (r : Result (Option Fields))
          → read (text (get "environment" payload)) (text (get "target" payload)) locks ≡ r
          → IsHeldBy id
              (go_on
                (r, locks)
                (λ lock. released_lock file payload (stale_lock loaded lock) rest)).1
              name
      by_read (err e) reads = h
      by_read (ok found) reads = released_lock-keeps file payload found rest locks later reads h

  release_stale_locks-keeps :
      (files : List String) (locks : Locks)
      → IsHeldBy id locks name
      → IsHeldBy id (release_stale_locks loaded files locks).1 name
  unfolding release_stale_locks
  release_stale_locks-keeps [] locks h = h
  release_stale_locks-keeps (file ∷ files) locks h =
      by_payload (lock_payload (locks file))
        (λ locks' held. release_stale_locks-keeps files locks' held)
    where
      by_payload :
          (r : Result (Option Fields))
          → ((locks' : Locks)
              → IsHeldBy id locks' name
              → IsHeldBy id (release_stale_locks loaded files locks').1 name)
          → IsHeldBy id
              (go_on
                (r, locks)
                (λ payload.
                  swept_file loaded file (present payload) (release_stale_locks loaded files))).1
              name
      by_payload (err e) later = h
      by_payload (ok payload) later =
          swept_file-keeps file (present payload) (release_stale_locks loaded files) locks later h

module _ ⦃py : Python⦄ where
  -- The release of stale locks takes no lock from an operation that is active when it runs, whatever
  -- the lock files name, also where it raises on the way.
  pub active_locks_stay :
      (loaded : States) (id env target : String) (files : List String) (locks : Locks)
      → is_active loaded id ≡ true
      → Holds id env target locks
      → Holds id env target (release_stale_locks loaded files locks).1
  active_locks_stay loaded id env target files locks active h =
      IsHeldBy-Holds id env target (release_stale_locks loaded files locks).1 (
        release_stale_locks-keeps loaded id (lock_filename env target) active files locks
          (Holds-IsHeldBy id env target locks h))
