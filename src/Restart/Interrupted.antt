-- ===== src/Restart/Interrupted.antt =====
-- An operation that a stopped process left active is brought to `failed`.
use rexec_op.Base.{
  String, ◌≡◌, refl, sym, subst, true, false, some, ◌==◌, ==_refl, contains, Result, ok,
}
use rexec_op.Base.Int.{suc_ℤ, eq_ℤ_refl}
use rexec_op.Json.{obj, readable}
use rexec_op.Json.Python.{Python}
use rexec_op.Operation.State.{
  OperationState, created, planned, blocked, waiting_for_approval, approved, completed, cancelled,
  escalated, running, validating, paused, resuming, retrying, failed, value, of_text, state,
  validate_transition,
}
use rexec_op.Operation.Model.{Operation, as_dict}
use rexec_op.Operation.Model.RoundTrip.{from_dict_round_trip}
use rexec_op.Storage.FileStore.{Files, save_operation, load_operation, revised, with_file}
use rexec_op.Coordinator.{Root}
use rexec_op.Restart.{
  interruptible_states, Stamps, moved, transition_operation, transition_and_get, move_if,
  fail_if_running, wound_up, interrupt_from,
}

-- The store has the operation as it is, in a file that it wrote.
pub record Stored ⦃py : Python⦄ (o : Operation) (files : Files) : Type 0 where
  pub file : files o.id ≡ readable (obj (as_dict o))
  pub requested : (o.requested_by == "") ≡ false

module _ ⦃py : Python⦄ (o : Operation) where
  pub load-Stored : (files : Files) → Stored o files → load_operation o.id files ≡ ok o
  unfolding load_operation
  load-Stored files h = rw h.file (from_dict_round_trip o h.requested)

  -- A changed operation is saved over the one that is stored.
  pub save-Stored :
      (files : Files) (o₁ : Operation)
      → Stored o files
      → o₁.id ≡ o.id
      → o₁.operation_revision ≡ o.operation_revision
      → (o₁.requested_by == "") ≡ false
      → (files' : Files) × (save_operation o₁ files
          ≡ (ok (revised o₁ (suc_ℤ o.operation_revision)), files'))
        × Stored (revised o₁ (suc_ℤ o.operation_revision)) files'
  unfolding save_operation as_dict
  save-Stored files o₁ h same_id same_revision requested = (
    with_file o₁.id (readable (obj (as_dict (revised o₁ (suc_ℤ o.operation_revision))))) files,
    rw (same_id, h.file, same_revision, eq_ℤ_refl o.operation_revision) refl,
    record { file = rw (==_refl o₁.id) refl; requested = requested },
  )

-- What an interruption leaves alone.
pub record Keeps (o o' : Operation) : Type 0 where
  pub id : o'.id ≡ o.id
  pub mode : o'.mode ≡ o.mode
  pub environment : o'.environment ≡ o.environment
  pub target : o'.target ≡ o.target
  pub metadata : o'.metadata ≡ o.metadata

-- A call that ends with the operation failed and stored.
pub record Fails ⦃py : Python⦄ (o : Operation) (root : Root) (left : Result Operation × Root)
    : Type 0 where
  pub ended : Operation
  pub files : Files
  pub result : left ≡ (ok ended, record root { files = files })
  pub stored : Stored ended files
  pub failed_at : ended.state ≡ value failed
  pub kept : Keeps o ended

-- The evidence manager answers each event.
abbrev pub Answers : Stamps → Type 0
Answers stamps = (s : OperationState) → (event : String) × ((stamps s).event ≡ ok event)

module _ ⦃py : Python⦄ (stamps : Stamps) (answers : Answers stamps) where
  abbrev after : OperationState → OperationState → String → Operation → Operation
  after current target reason o =
      revised (moved (stamps target) current target reason (answers target).0 o)
        (suc_ℤ o.operation_revision)

  transition_operation-Stored :
      (o : Operation) (root : Root) (current target : OperationState) (reason : String)
      → Stored o root.files
      → o.state ≡ value current
      → of_text (value current) ≡ some current
      → validate_transition (state current) (state target) ≡ ok target
      → (files : Files) × (transition_operation stamps target reason o root
          ≡ (ok (after current target reason o), record root { files = files }))
        × Stored (after current target reason o) files
  unfolding transition_operation
  transition_operation-Stored o root current target reason h at found allowed =
      let next = moved (stamps target) current target reason (answers target).0 o in
      let (files, saved, stored) = save-Stored o root.files next h refl refl h.requested in
      (files, rw (at, found, allowed, (answers target).1, saved) refl, stored)

  transition_and_get-Stored :
      (o : Operation) (root : Root) (current target : OperationState) (reason : String)
      → Stored o root.files
      → o.state ≡ value current
      → of_text (value current) ≡ some current
      → validate_transition (state current) (state target) ≡ ok target
      → (files : Files) × (transition_and_get stamps target reason o root
          ≡ (ok (after current target reason o), record root { files = files }))
        × Stored (after current target reason o) files
  unfolding transition_and_get
  transition_and_get-Stored o root current target reason h at found allowed =
      let (files, done, stored) =
        transition_operation-Stored o root current target reason h at found allowed in
      (files, rw (done, load-Stored (after current target reason o) files stored) refl, stored)

  -- The last transition.
  fails_from :
      (o : Operation) (root : Root) (current : OperationState)
      → Stored o root.files
      → o.state ≡ value current
      → of_text (value current) ≡ some current
      → validate_transition (state current) (state failed) ≡ ok failed
      → Fails o root (transition_operation stamps failed "interrupted_by_restart" o root)
  fails_from o root current h at found allowed =
      let (files, done, stored) =
        transition_operation-Stored o root current failed "interrupted_by_restart" h at found
          allowed in
      record {
        ended = after current failed "interrupted_by_restart" o;
        files = files;
        result = done;
        stored = stored;
        failed_at = refl;
        kept = record {
          id = refl;
          mode = refl;
          environment = refl;
          target = refl;
          metadata = refl;
        };
      }

  -- What fails after a transition fails as a whole.
  carried :
      (current target : OperationState) (reason : String) (o : Operation) (root : Root)
      (files : Files) {left : Result Operation × Root}
      → Fails (after current target reason o) (record root { files = files }) left
      → Fails o root left
  carried current target reason o root files h = record {
    ended = h.ended;
    files = h.files;
    result = h.result;
    stored = h.stored;
    failed_at = h.failed_at;
    kept = record {
      id = h.kept.id;
      mode = h.kept.mode;
      environment = h.kept.environment;
      target = h.kept.target;
      metadata = h.kept.metadata;
    };
  }

  is_in : (o : Operation) (s : OperationState) → o.state ≡ value s → (o.state == value s) ≡ true
  is_in o s at = subst (λ t. (t == value s) ≡ true) (sym at) (==_refl (value s))

  not_in :
      (o : Operation) (s t : OperationState)
      → o.state ≡ value s
      → (value s == value t) ≡ false
      → (o.state == value t) ≡ false
  not_in o s t at other = subst (λ u. (u == value t) ≡ false) (sym at) other

  fail_if_running-Fails :
      (o : Operation) (root : Root)
      → Stored o root.files
      → o.state ≡ value running
      → Fails o root (fail_if_running stamps o root)
  unfolding fail_if_running of_text validate_transition
  fail_if_running-Fails o root h at =
      rw (is_in o running at) (fails_from o root running h at refl refl)

  move_if_stays :
      (o : Operation) (root : Root) (s from target : OperationState) (reason : String)
      → o.state ≡ value s
      → (value s == value from) ≡ false
      → move_if stamps from target reason o root ≡ (ok o, root)
  unfolding move_if
  move_if_stays o root s from target reason at other = rw (not_in o s from at other) refl

  move_if_moves :
      (o : Operation) (root : Root) (from target : OperationState) (reason : String)
      → o.state ≡ value from
      → move_if stamps from target reason o root ≡ transition_and_get stamps target reason o root
  unfolding move_if
  move_if_moves o root from target reason at = rw (is_in o from at) refl

  retrying-Fails :
      (o : Operation) (root : Root)
      → Stored o root.files
      → o.state ≡ value retrying
      → Fails o root (wound_up stamps o root)
  unfolding wound_up of_text validate_transition
  retrying-Fails o root h at =
      let (files, done, stored) =
        transition_and_get-Stored o root retrying running "interrupted_retry" h at refl refl in
      rw
        (
          move_if_stays o root retrying resuming running "interrupted_resume" at refl,
          move_if_moves o root retrying running "interrupted_retry" at,
          done,
        )
        (carried retrying running "interrupted_retry" o root files (
          fail_if_running-Fails (after retrying running "interrupted_retry" o)
            (record root { files = files }) stored refl))

  resuming-Fails :
      (o : Operation) (root : Root)
      → Stored o root.files
      → o.state ≡ value resuming
      → Fails o root (wound_up stamps o root)
  unfolding wound_up of_text validate_transition
  resuming-Fails o root h at =
      let (files, done, stored) =
        transition_and_get-Stored o root resuming running "interrupted_resume" h at refl refl in
      let next = after resuming running "interrupted_resume" o in
      rw
        (
          move_if_moves o root resuming running "interrupted_resume" at,
          done,
          move_if_stays next (record root { files = files }) running retrying running
              "interrupted_retry" refl refl,
        )
        (carried resuming running "interrupted_resume" o root files
          (fail_if_running-Fails next (record root { files = files }) stored refl))

  paused-Fails :
      (o : Operation) (root : Root)
      → Stored o root.files
      → o.state ≡ value paused
      → Fails o root (interrupt_from stamps paused o root)
  unfolding interrupt_from of_text validate_transition
  paused-Fails o root h at =
      let (files, done, stored) =
        transition_and_get-Stored o root paused resuming "interrupted_resume" h at refl refl in
      rw done (
        carried paused resuming "interrupted_resume" o root files (
          resuming-Fails (after paused resuming "interrupted_resume" o)
            (record root { files = files }) stored refl))

  -- From each interruptible state.
  pub interrupt_from-Fails :
      (o : Operation) (root : Root) (s : OperationState)
      → Stored o root.files
      → o.state ≡ value s
      → contains (value s) interruptible_states ≡ true
      → Fails o root (interrupt_from stamps s o root)
  unfolding interrupt_from of_text validate_transition
  interrupt_from-Fails o root running h at there = fails_from o root running h at refl refl
  interrupt_from-Fails o root validating h at there = fails_from o root validating h at refl refl
  interrupt_from-Fails o root paused h at there = paused-Fails o root h at
  interrupt_from-Fails o root resuming h at there = resuming-Fails o root h at
  interrupt_from-Fails o root retrying h at there = retrying-Fails o root h at
  interrupt_from-Fails o root created h at there = cc
  interrupt_from-Fails o root planned h at there = cc
  interrupt_from-Fails o root blocked h at there = cc
  interrupt_from-Fails o root waiting_for_approval h at there = cc
  interrupt_from-Fails o root approved h at there = cc
  interrupt_from-Fails o root completed h at there = cc
  interrupt_from-Fails o root failed h at there = cc
  interrupt_from-Fails o root cancelled h at there = cc
  interrupt_from-Fails o root escalated h at there = cc
