-- ===== src/Storage/Permits/Kept.antt =====
-- The permit of an attempt is written once.
use rexec_op.Base.{
  String, ◌≡◌, refl, sym, ap, true, false, ◌&&◌, some, List, [], ◌∷◌, ◌==◌, ==_refl, Bool-cases,
  both_true, inl, inr, Result, ok, err, err≢ok, ok-injective, eq_iff, validation_error, ◌>>=◌,
  commit,
}
use rexec_op.Json.{Fields}
use rexec_op.Json.Python.{Python}
use rexec_op.Storage.Governance.{exists}
use rexec_op.Storage.Permits.{
  PermitFiles, write_permit, permit_path, unused, save_execution_permit,
  load_execution_permit_for_attempt,
}

module _ ⦃py : Python⦄ where
  -- The state after a save, by the path that the permit names.
  abbrev save_at :
      Fields
      → Result (String × String × String)
      → PermitFiles
      → Result (String × String) × PermitFiles
  save_at permit path files = commit (path >>= unused files) (write_permit permit) files

  kept_by :
      (other : Fields) (path : Result (String × String × String)) (files : PermitFiles)
      (permit : Fields) (operation_id attempt_id : String)
      → files.attempts operation_id attempt_id ≡ some permit
      → (save_at other path files).1.attempts operation_id attempt_id ≡ some permit
  kept_by other (err e) files permit operation_id attempt_id h = h
  kept_by other (ok (o, step_id, n)) files permit operation_id attempt_id h =
      elim (Bool-cases (exists (files.attempts o n))) [
        | inl used ↦ rw used h
        | inr new ↦ elim (Bool-cases (operation_id == o && attempt_id == n)) [
          | inl same ↦
              let (same_operation, same_attempt) =
                both_true (operation_id == o) (attempt_id == n) same in
              let there : files.attempts o n ≡ some permit =
                rw
                  (
                    ← (eq_iff operation_id o).0 same_operation,
                    ← (eq_iff attempt_id n).0 same_attempt,
                  )
                  h in
              absurd (true_and_false (rw there at new))
          | inr other_file ↦ rw (new, other_file) h
        ]
      ]
    where
      true_and_false : true ≡ false → ⊥
      true_and_false e = cc

  -- Saves in a row.
  abbrev pub after_permits : List Fields → PermitFiles → PermitFiles
  after_permits [] files = files
  after_permits (permit ∷ permits) files =
      after_permits permits (save_execution_permit permit files).1

  kept :
      (permits : List Fields) (files : PermitFiles) (permit : Fields)
      (operation_id attempt_id : String)
      → files.attempts operation_id attempt_id ≡ some permit
      → (after_permits permits files).attempts operation_id attempt_id ≡ some permit
  unfolding save_execution_permit
  kept [] files permit operation_id attempt_id h = h
  kept (other ∷ permits) files permit operation_id attempt_id h =
      kept permits _ permit operation_id attempt_id
        (kept_by other (permit_path other) files permit operation_id attempt_id h)

  saved_at :
      (permit : Fields) (path : Result (String × String × String)) (files : PermitFiles)
      (operation_id attempt_id : String)
      → (save_at permit path files).0 ≡ ok (operation_id, attempt_id)
      → (save_at permit path files).1.attempts operation_id attempt_id ≡ some permit
  saved_at permit (err e) files operation_id attempt_id h = cc
  saved_at permit (ok (o, step_id, n)) files operation_id attempt_id h =
      elim (Bool-cases (exists (files.attempts o n))) [
        | inl used ↦ absurd (err≢ok (rw used at h))
        | inr new ↦
            let names : ◌≡◌ {A = String × String} (o, n) (operation_id, attempt_id) =
              ok-injective (rw new at h) in
            let same_operation : operation_id ≡ o = sym (ap (λ p. p.0) names) in
            let same_attempt : attempt_id ≡ n = sym (ap (λ p. p.1) names) in
            rw (new, same_operation, same_attempt, ==_refl o, ==_refl n) refl
      ]

  -- After a permit was saved, whatever is saved in between, its attempt has this permit, and a
  -- permit of the same attempt is refused and changes nothing.
  pub permit_saved_once :
      (permit again : Fields) (files : PermitFiles) (between : List Fields)
      {operation_id step_id attempt_id : String}
      → (save_execution_permit permit files).0 ≡ ok (operation_id, attempt_id)
      → permit_path again ≡ ok (operation_id, step_id, attempt_id)
      → let later = after_permits between (save_execution_permit permit files).1 in
        (load_execution_permit_for_attempt operation_id attempt_id later ≡ ok permit)
        × (save_execution_permit again later
            ≡ (err (validation_error "runtime attempt permit already exists"), later))
  unfolding save_execution_permit load_execution_permit_for_attempt
  permit_saved_once permit again files between {operation_id} {step_id} {attempt_id} h again_path =
      let there =
        kept between (save_execution_permit permit files).1 permit operation_id attempt_id
          (saved_at permit (permit_path permit) files operation_id attempt_id h) in
      (rw there refl, rw (again_path, there) refl)
