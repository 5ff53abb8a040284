-- ===== src/Attempts/Lifecycle.antt =====
-- An attempt is started once and finished once.
use Prim.Native.String.{count}
use mathlib.Core.Bool.{false≢true}
use rexec_op.Json.Laws.{get-put}
use rexec_op.Base.{
  eq_iff, ℕ, String, ◌≡◌, refl, true, false, not, ◌||◌, [], ◌∷◌, arith, ◌==◌, ==_refl, contains,
  if◌then◌else◌, Result, ok, err, validation_error, ok-injective, err≢ok, >>=-eq-ok, raise_if-eq_ok,
  Bool-cases, inl, inr, sym, ap, ◌∙◌, leb,
}
use rexec_op.Base.Int.{ℤ}
use rexec_op.Json.{str, obj, Fields, get, is_text, JsonFile, missing, readable}
use rexec_op.Json.Python.{Python, as_int}
use rexec_op.Lease.{or_raise}
use rexec_op.Attempts.{
  starts_with, Request, build_pending_attempt, pending_attempt, mark_attempt_started,
  finish_attempt_record, finished, terminal_statuses,
}
use rexec_op.Attempts.Journal.{
  update_plan, start_plan, Journal, file_at, write, exists, read, start, path, finish,
}

-- A file is read as it was written.
pub file_at-write :
    (o a : String) (d : Fields) (j : Journal) → file_at o a (write o a d j) ≡ readable (obj d)
unfolding file_at write
file_at-write o a d [] = rw (==_refl o, ==_refl a)
file_at-write o a d (e ∷ es) = ground (arith, ==_refl o, ==_refl a, file_at-write o a d es)

not_exists : (f : JsonFile) → exists f ≡ false → f ≡ missing
not_exists missing h = refl
not_exists JsonFile.unreadable h = cc
not_exists (readable v) h = cc

not_started : (s : String) → contains s terminal_statuses ≡ true → (s == "started") ≡ false
not_started s h = elim (Bool-cases (s == "started")) [
  | inl same ↦ absurd (false≢true (rw ((eq_iff s "started").0 same) at h))
  | inr other ↦ other
]

module _ ⦃py : Python⦄ where
  pending-eq_ok :
      (r : Request) (now : ℕ) {d : Fields}
      → build_pending_attempt r now ≡ ok d
      → (n : ℤ) × (d ≡ pending_attempt r n now)
  unfolding build_pending_attempt
  pending-eq_ok r now h =
      let (_, rest) =
        raise_if-eq_ok
          (not (starts_with r.attempt_id "attempt-") || not (leb (count r.attempt_id) 96))
          (validation_error "invalid execution attempt id") _ h in
      let (n, _, made) = >>=-eq-ok (or_raise (as_int (get "lease_epoch" r.lease))) _ rest in
      (n, sym (ok-injective made))

  -- What a start that returns has found, returned and written.
  start-eq_ok :
      (r : Request) (c s : ℕ) (j : Journal) {d : Fields}
      → (start r c s j).0 ≡ ok d
      → (n : ℤ) × (d ≡ mark_attempt_started (pending_attempt r n c) s)
        × (file_at r.operation_id r.attempt_id (start r c s j).1 ≡ readable (obj d))
        × (file_at r.operation_id r.attempt_id j ≡ missing)
  unfolding start
  start-eq_ok r c s j {d} h = go (start_plan r c j) refl
    where
      go :
          (p : Result Fields)
          → start_plan r c j ≡ p
          → (n : ℤ) × (d ≡ mark_attempt_started (pending_attempt r n c) s)
            × (file_at r.operation_id r.attempt_id (start r c s j).1 ≡ readable (obj d))
            × (file_at r.operation_id r.attempt_id j ≡ missing)
      go (err x) e = absurd (err≢ok (rw e at h))
      go (ok pending) e =
          let (fresh, built) =
            raise_if-eq_ok (exists (file_at r.operation_id r.attempt_id j))
              (validation_error "execution attempt already exists") _ e in
          let (n, same) = pending-eq_ok r c built in
          let started : d ≡ mark_attempt_started pending s = sym (ok-injective (rw e at h)) in
          (
            n,
            started ∙ ap (λ x. mark_attempt_started x s) same,
            rw (e, started)
                (file_at-write r.operation_id r.attempt_id (mark_attempt_started pending s)
                  (write r.operation_id r.attempt_id pending j)),
            not_exists (file_at r.operation_id r.attempt_id j) fresh,
          )

  -- The path of a started record.
  path_started :
      (r : Request) (n : ℤ) (c s : ℕ)
      → path (mark_attempt_started (pending_attempt r n c) s) ≡ ok (r.operation_id, r.attempt_id)
  unfolding path
  path_started r n c s = refl

  -- An attempt whose start returned can be finished with any terminal status: the call returns the
  -- started record with that status and writes it to the file of the attempt.
  pub finish-start :
      (r : Request) (c s now : ℕ) (status result_digest error_class : String) (j : Journal)
      {d : Fields}
      → (start r c s j).0 ≡ ok d
      → contains status terminal_statuses ≡ true
      → let d' = finished d status result_digest error_class now in
        finish d status result_digest error_class now (start r c s j).1
        ≡ (ok d', write r.operation_id r.attempt_id d' (start r c s j).1)
  unfolding finish finish_attempt_record read
  finish-start r c s now status result_digest error_class j h t =
      let (n, same, at, _) = start-eq_ok r c s j h in
      rw (same, path_started r n c s, rw same at at, t, ◌==◌)

  finished-eq_ok :
      (d : Fields) (status result_digest error_class : String) (now : ℕ) {d' : Fields}
      → finish_attempt_record d status result_digest error_class now ≡ ok d'
      → (get "status" d' ≡ str status) × (contains status terminal_statuses ≡ true)
  unfolding finish_attempt_record
  finished-eq_ok d status result_digest error_class now {d'} h =
      let (terminal, rest) =
        raise_if-eq_ok (not (contains status terminal_statuses))
          (validation_error "invalid attempt terminal status") _ h in
      let (_, made) =
        raise_if-eq_ok (not (is_text "started" (get "status" d)))
          (validation_error "execution attempt is not started") _ rest in
      let same : finished d status result_digest error_class now ≡ d' = ok-injective made in
      (rw (← same) (simp get-put), ground arith)

  -- What a finish that returns has returned and written: a record with a terminal status.
  finish-eq_ok :
      (d : Fields) (status result_digest error_class : String) (now : ℕ) (j : Journal) {d' : Fields}
      → (finish d status result_digest error_class now j).0 ≡ ok d'
      → (at : String × String) × (path d ≡ ok at)
        × (file_at at.0 at.1 (finish d status result_digest error_class now j).1
            ≡ readable (obj d'))
        × (get "status" d' ≡ str status)
        × (contains status terminal_statuses ≡ true)
  unfolding finish
  finish-eq_ok d status result_digest error_class now j {d'} h = go (plan j) refl
    where
      plan : Journal → Result ((String × String) × Fields)
      plan =
          update_plan d
            (λ current. finish_attempt_record current status result_digest error_class now)

      go :
          (p : Result ((String × String) × Fields))
          → plan j ≡ p
          → (at : String × String) × (path d ≡ ok at)
            × (file_at at.0 at.1 (finish d status result_digest error_class now j).1
                ≡ readable (obj d'))
            × (get "status" d' ≡ str status)
            × (contains status terminal_statuses ≡ true)
      go (err x) e = absurd (err≢ok (rw e at h))
      go (ok (at, next)) e =
          let (at', located, h₁) = >>=-eq-ok (path d) _ e in
          let (current, found, h₂) = >>=-eq-ok (read (file_at at'.0 at'.1 j)) _ h₁ in
          let (next', made, h₃) =
            >>=-eq-ok (finish_attempt_record current status result_digest error_class now) _ h₂ in
          let same : (at', next') ≡ (at, next) = ok-injective h₃ in
          let returned : d' ≡ next = sym (ok-injective (rw e at h)) in
          let (stated, terminal) =
            finished-eq_ok current status result_digest error_class now made in
          (
            at,
            located ∙ ap (λ x. ok x.0) same,
            rw (e, returned) (file_at-write at.0 at.1 next j),
            ap (get "status") (returned ∙ sym (ap (λ x. x.1) same)) ∙ stated,
            terminal,
          )

  -- A record that has ended is not finished again.
  finish_ended :
      (d ended : Fields) (status status' result_digest error_class : String) (now : ℕ) (j : Journal)
      (at : String × String)
      → path d ≡ ok at
      → file_at at.0 at.1 j ≡ readable (obj ended)
      → get "status" ended ≡ str status
      → contains status terminal_statuses ≡ true
      → finish d status' result_digest error_class now j ≡ (
        err (
            validation_error (
              if contains status' terminal_statuses
              then "execution attempt is not started"
              else "invalid attempt terminal status")),
        j,
      )
  unfolding finish finish_attempt_record read
  finish_ended d ended status status' result_digest error_class now j at located stored stated
        terminal =
      elim (Bool-cases (contains status' terminal_statuses)) [
        | inl known ↦ rw (located, stored, known, stated, not_started status terminal)
        | inr unknown ↦ rw (located, stored, unknown)
      ]

  -- An attempt is finished once: after a finish that returned, each further one raises, whatever
  -- status it asks for, and leaves the journal as it is.
  pub finish_once :
      (d : Fields) (status result_digest error_class : String) (now : ℕ) (j : Journal) {d' : Fields}
      (status' result_digest' error_class' : String) (now' : ℕ)
      → (finish d status result_digest error_class now j).0 ≡ ok d'
      → let after = (finish d status result_digest error_class now j).1 in
        finish d status' result_digest' error_class' now' after ≡ (
          err (
              validation_error (
                if contains status' terminal_statuses
                then "execution attempt is not started"
                else "invalid attempt terminal status")),
          after,
        )
  finish_once d status result_digest error_class now j status' rd' ec' now' h =
      let (at, located, stored, stated, terminal) =
        finish-eq_ok d status result_digest error_class now j h in
      finish_ended d _ status status' rd' ec' now' _ at located stored stated terminal

  -- An attempt is started once: after a start that returned, one for the same operation and attempt
  -- raises and leaves the journal as it is.
  pub start_once :
      (r r' : Request) (c s c' s' : ℕ) (j : Journal) {d : Fields}
      → (start r c s j).0 ≡ ok d
      → r'.operation_id ≡ r.operation_id
      → r'.attempt_id ≡ r.attempt_id
      → start r' c' s' (start r c s j).1
        ≡ (err (validation_error "execution attempt already exists"), (start r c s j).1)
  unfolding start
  start_once r r' c s c' s' j h same_operation same_attempt =
      let (_, _, at, _) = start-eq_ok r c s j h in rw (same_operation, same_attempt, at)
