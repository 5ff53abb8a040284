-- ===== src/Restart/Marked.antt =====
-- `_mark_interrupted` as a whole.
use rexec_op.Base.{
  arith, ℕ, String, ◌≡◌, refl, ap, ◌∙◌, Bool, true, false, ◌||◌, Option, none, some, ◌==◌, eq_iff,
  contains, ok, Bool-cases, inl, inr, ◌⊎◌,
}
use rexec_op.Base.Int.{suc_ℤ}
use rexec_op.Json.{missing, obj, put, Fields, get, present}
use rexec_op.Json.Python.{Python, text}
use rexec_op.Json.Coerce.{dict_or_empty}
use rexec_op.Operation.State.{
  OperationState, running, validating, paused, resuming, retrying, failed, value, of_text,
}
use rexec_op.Operation.Model.{Operation}
use rexec_op.Posture.{is_mutating_mode}
use rexec_op.TargetLock.{Locks, with_file, lock_filename, read, release, release_from}
use rexec_op.Storage.FileStore.{revised}
use rexec_op.Coordinator.Assessment.{target_lock_enabled}
use rexec_op.Coordinator.{Root, Moment, release_target_only}
use rexec_op.Restart.{
  interruptible_states, Stamps, state_or_raise, operation_state, interrupt_from, note_interruption,
  mark_interrupted, recovery_entry, with_recovery,
}
use rexec_op.Restart.Interrupted.{Stored, load-Stored, save-Stored, Answers, interrupt_from-Fails}

-- An interruptible state, as text.
record IsInterruptible (t : String) : Type 0 where
  state : OperationState
  spelled : t ≡ value state
  read_back : of_text (value state) ≡ some state
  listed : contains (value state) interruptible_states ≡ true

either : (b c : Bool) → (b || c) ≡ true → (b ≡ true) ⊎ (c ≡ true)
either true c h = inl refl
either false c h = inr h

contains-IsInterruptible : (t : String) → contains t interruptible_states ≡ true → IsInterruptible t
unfolding of_text
contains-IsInterruptible t h = elim (either (t == "running") _ h) [
  | inl a ↦ record {
    state = running;
    spelled = (eq_iff t "running").0 a;
    read_back = refl;
    listed = refl;
  }
  | inr h₁ ↦ elim (either (t == "paused") _ h₁) [
    | inl b ↦ record {
      state = paused;
      spelled = (eq_iff t "paused").0 b;
      read_back = refl;
      listed = refl;
    }
    | inr h₂ ↦ elim (either (t == "resuming") _ h₂) [
      | inl c ↦ record {
        state = resuming;
        spelled = (eq_iff t "resuming").0 c;
        read_back = refl;
        listed = refl;
      }
      | inr h₃ ↦ elim (either (t == "retrying") _ h₃) [
        | inl d ↦ record {
          state = retrying;
          spelled = (eq_iff t "retrying").0 d;
          read_back = refl;
          listed = refl;
        }
        | inr h₄ ↦ record {
          state = validating;
          spelled = (eq_iff t "validating").0 (ground (arith, h₄));
          read_back = refl;
          listed = refl;
        }
      ]
    ]
  ]
]

module _ ⦃py : Python⦄ where
  -- A release returns wherever the lock's file can be read.
  release_total :
      (env target id : String) (locks : Locks) {found : Option Fields}
      → read env target locks ≡ ok found
      → (locks' : Locks) × (release env target id locks ≡ (ok tt, locks'))
  unfolding release
  release_total env target id locks {found} h = rw h (from (present found))
    where
      from :
          (held : Option Fields)
          → (locks' : Locks) × (release_from env target id held locks ≡ (ok tt, locks'))
      from none = (locks, refl)
      from (some d) =
          elim (Bool-cases
            (text (get "operation_id" d) == "" || text (get "operation_id" d) == id)) [
              | inl ours ↦ (with_file (lock_filename env target) missing locks, rw ours refl)
              | inr other ↦ (locks, rw other refl)
            ]

  release_target_only_total :
      (m : Moment) (o : Operation) (root : Root) {found : Option Fields}
      → read o.environment o.target root.locks ≡ ok found
      → (locks : Locks) × (release_target_only m o root ≡ (ok tt, record root { locks = locks }))
  unfolding release_target_only
  release_target_only_total m o root h = elim (Bool-cases (is_mutating_mode o.mode)) [
    | inr reads ↦ (root.locks, rw reads refl)
    | inl mutates ↦ elim (Bool-cases (target_lock_enabled o)) [
      | inr off ↦ (root.locks, rw (mutates, off) refl)
      | inl on ↦
          let (locks, done) = release_total o.environment o.target o.id root.locks h in
          (locks, rw (mutates, on, done) refl)
    ]
  ]

  -- What is noted on an operation that failed.
  note_interruption_total :
      (m : Moment) (observed_at : ℕ) (o : Operation) (root : Root) {found : Option Fields}
      {recovery : Fields}
      → Stored o root.files
      → read o.environment o.target root.locks ≡ ok found
      → dict_or_empty (get "recovery" o.metadata) ≡ ok recovery
      → (root' : Root) × (note_interruption m observed_at o.id root ≡ (
        ok (revised (with_recovery observed_at recovery o) (suc_ℤ o.operation_revision)),
        root',
      ))
        × Stored
            (revised (with_recovery observed_at recovery o) (suc_ℤ o.operation_revision))
            root'.files
        × (root'.queue ≡ root.queue)
  unfolding note_interruption
  note_interruption_total m observed_at o root {found} {recovery} h unlocked noted =
      let (locks, freed) = release_target_only_total m o root unlocked in
      let (files, saved, stored) =
        save-Stored o root.files (with_recovery observed_at recovery o) h refl refl h.requested in
      (
        record root { locks = locks; files = files },
        rw (load-Stored o root.files h, freed, load-Stored o root.files h, noted, saved) refl,
        stored,
        refl,
      )

  operation_state_known :
      (o : Operation) (s : OperationState)
      → o.state ≡ value s
      → of_text (value s) ≡ some s
      → operation_state o ≡ ok s
  operation_state_known o s spelled read_back =
      ap (λ t. state_or_raise (of_text t)) spelled ∙ ap state_or_raise read_back

  marked_in_steps :
      (m : Moment) (stamps : Stamps) (observed_at : ℕ) (o : Operation) (root : Root)
      (s : OperationState) {ended o' : Operation} {middle root' : Root}
      → operation_state o ≡ ok s
      → interrupt_from stamps s o root ≡ (ok ended, middle)
      → note_interruption m observed_at ended.id middle ≡ (ok o', root')
      → mark_interrupted m stamps observed_at o root ≡ (ok o', root')
  unfolding mark_interrupted
  marked_in_steps m stamps observed_at o root s known ended noted = rw (known, ended) noted

  -- Whichever active state a restart finds a stored operation in, the interruption returns: each of
  -- its transitions is allowed and each save is accepted. The operation is then stored as failed,
  -- with a note that it may not be resumed, and the queue is untouched. The evidence manager must
  -- answer, the lock's file must be readable, and an earlier note must be a dict or empty.
  pub mark_interrupted_fails :
      (m : Moment) (stamps : Stamps) (observed_at : ℕ) (o : Operation) (root : Root)
      {found : Option Fields} {recovery : Fields}
      → Answers stamps
      → Stored o root.files
      → contains o.state interruptible_states ≡ true
      → read o.environment o.target root.locks ≡ ok found
      → dict_or_empty (get "recovery" o.metadata) ≡ ok recovery
      → (o' : Operation) × (root' : Root) × (mark_interrupted m stamps observed_at o root
          ≡ (ok o', root'))
        × (o'.id ≡ o.id)
        × (o'.state ≡ value failed)
        × (o'.metadata ≡ put "recovery" (obj (recovery_entry observed_at recovery)) o.metadata)
        × Stored o' root'.files
        × (root'.queue ≡ root.queue)
  mark_interrupted_fails m stamps observed_at o root {found} {recovery} answers h active unlocked
        noted =
      let is = contains-IsInterruptible o.state active in
      let f = interrupt_from-Fails stamps answers o root is.state h is.spelled is.listed in
      let middle = record root { files = f.files } in
      let (root', done, stored, same_queue) =
        note_interruption_total m observed_at f.ended middle {found = found} {recovery = recovery}
          f.stored (rw (f.kept.environment, f.kept.target) unlocked) (rw f.kept.metadata noted) in
      (
        revised (with_recovery observed_at recovery f.ended) (suc_ℤ f.ended.operation_revision),
        root',
        marked_in_steps m stamps observed_at o root is.state
            (operation_state_known o is.state is.spelled is.read_back) f.result done,
        f.kept.id,
        f.failed_at,
        ap (λ d. put "recovery" (obj (recovery_entry observed_at recovery)) d) f.kept.metadata,
        stored,
        same_queue,
      )
