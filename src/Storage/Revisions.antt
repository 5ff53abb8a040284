-- ===== src/Storage/Revisions.antt =====
-- Saves with a stale revision are refused: no update is lost.
use rexec_op.Base.{
  String, ◌≡◌, refl, sym, ap, ◌∙◌, subst, inl, inr, false, not, ◌==◌, ==_refl, eq_iff, Option, none,
  some, List, [], ◌∷◌, Result, ok, err, concurrency_conflict, arith, Bool-cases, >>=-eq-ok,
  raise_if-eq_ok, ok-injective, err≢ok,
}
use rexec_op.Base.Int.{ℤ, pos, eq_ℤ, eq_ℤ→eq, suc_ℤ, lt-suc_ℤ, ◌≤ℤ◌, ◌<ℤ◌}
use rexec_op.Json.{
  null, bool, int, str, arr, obj, get, put, Fields, JsonFile, missing, unreadable, readable,
}
use rexec_op.Json.Laws.{get-put_self}
use rexec_op.Json.Python.{Python, as_int}
use rexec_op.Json.Coerce.{int_or_raise}
use rexec_op.Operation.Model.{Operation, as_dict}
use rexec_op.Storage.FileStore.{Files, current_revision, save_operation}

above_suc : (n m : ℤ) → n ≤ℤ m → n <ℤ suc_ℤ m
above_suc n m h = let next = lt-suc_ℤ m in omega (arith, next)

le_of_lt : (n m : ℤ) → n <ℤ m → n ≤ℤ m
le_of_lt n m h = omega arith

le_refl : (n : ℤ) → n ≤ℤ n
le_refl n = omega arith

differ : (a n r : ℤ) → a ≤ℤ n → n <ℤ r → eq_ℤ r a ≡ false
differ a n r h l = ground arith

some-injective : {a b : ℤ} → some a ≡ some b → a ≡ b
some-injective e = cc

int_or_raise-eq_ok : (o : Option ℤ) {m : ℤ} → int_or_raise o ≡ ok m → o ≡ some m
int_or_raise-eq_ok none h = cc
int_or_raise-eq_ok (some n) h = ap some (ok-injective h)

module _ ⦃py : Python⦄ where
  -- The file of an operation has a revision above `n`.
  abbrev IsAbove : ℤ → JsonFile → Type 0
  IsAbove n file =
      (d : Fields) × (r : ℤ) × (file ≡ readable (obj d))
      × (as_int (get "operation_revision" d) ≡ some r)
      × (n <ℤ r)

  -- Saves in a row.
  abbrev pub after_saves : List Operation → Files → Files
  after_saves [] files = files
  after_saves (o ∷ os) files = after_saves os (save_operation o files).1

  -- What a file holds after a save.
  written-IsAbove :
      (o : Operation) (n m : ℤ)
      → n ≤ℤ m
      → IsAbove n (readable (obj (put "operation_revision" (int (suc_ℤ m)) (as_dict o))))
  written-IsAbove o n m h = (
    put "operation_revision" (int (suc_ℤ m)) (as_dict o),
    suc_ℤ m,
    refl,
    rw (get-put_self "operation_revision" (int (suc_ℤ m)) (as_dict o)) refl,
    above_suc n m h,
  )

  -- The revision that a save found is that of the operation that it saves.
  current_revision-eq_ok :
      (file : JsonFile) (o : Operation) {m : ℤ}
      → current_revision file o ≡ ok m
      → m ≡ o.operation_revision
  current_revision-eq_ok missing o h =
      let (same, made) = raise_if-eq_ok (not (eq_ℤ o.operation_revision (pos 0))) _ _ h in
      sym (ok-injective made) ∙ sym (eq_ℤ→eq o.operation_revision (pos 0) (ground (arith, same)))
  current_revision-eq_ok (readable (obj d)) o h =
      let (r, _, h₁) = >>=-eq-ok (int_or_raise (as_int (get "operation_revision" d))) _ h in
      let (same, made) = raise_if-eq_ok (not (eq_ℤ r o.operation_revision)) _ _ h₁ in
      sym (ok-injective made) ∙ eq_ℤ→eq r o.operation_revision (ground (arith, same))
  current_revision-eq_ok (readable null) o h = cc
  current_revision-eq_ok (readable (bool b)) o h = cc
  current_revision-eq_ok (readable (int n)) o h = cc
  current_revision-eq_ok (readable (str t)) o h = cc
  current_revision-eq_ok (readable (arr xs)) o h = cc
  current_revision-eq_ok unreadable o h = cc

  found-IsAbove :
      (file : JsonFile) (o : Operation) (n : ℤ) {m : ℤ}
      → IsAbove n file
      → current_revision file o ≡ ok m
      → n <ℤ m
  found-IsAbove file o n (d, r, is, has, above) h =
      let (r', read, h₁) =
        >>=-eq-ok (int_or_raise (as_int (get "operation_revision" d))) _ (rw is at h) in
      let (_, made) = raise_if-eq_ok (not (eq_ℤ r' o.operation_revision)) _ _ h₁ in
      let same = int_or_raise-eq_ok _ read in
      subst (λ x. n <ℤ x) (some-injective (sym has ∙ same) ∙ ok-injective made) above

  save-IsAbove :
      (o : Operation) (files : Files) (id : String) (n : ℤ)
      → IsAbove n (files id)
      → IsAbove n ((save_operation o files).1 id)
  unfolding save_operation
  save-IsAbove o files id n h = go (current_revision (files o.id) o) refl
    where
      go :
          (r : Result ℤ)
          → current_revision (files o.id) o ≡ r
          → IsAbove n ((save_operation o files).1 id)
      go (err e) same = rw same h
      go (ok m) same = elim (Bool-cases (id == o.id)) [
        | inr other ↦ rw (same, other) h
        | inl at ↦
            let here = subst (λ x. IsAbove n (files x)) ((eq_iff id o.id).0 at) h in
            rw (same, at)
              (written-IsAbove o n m (le_of_lt n m (found-IsAbove (files o.id) o n here same)))
      ]

  saves-IsAbove :
      (os : List Operation) (files : Files) (id : String) (n : ℤ)
      → IsAbove n (files id)
      → IsAbove n (after_saves os files id)
  saves-IsAbove [] files id n h = h
  saves-IsAbove (o ∷ os) files id n h =
      saves-IsAbove os (save_operation o files).1 id n (save-IsAbove o files id n h)

  -- A save that returned left a revision above that of the operation it was given.
  saved-IsAbove :
      (o : Operation) (files : Files) {o' : Operation}
      → (save_operation o files).0 ≡ ok o'
      → IsAbove o.operation_revision ((save_operation o files).1 o.id)
  unfolding save_operation
  saved-IsAbove o files {o'} h = go (current_revision (files o.id) o) refl
    where
      go :
          (r : Result ℤ)
          → current_revision (files o.id) o ≡ r
          → IsAbove o.operation_revision ((save_operation o files).1 o.id)
      go (err e) same = absurd (err≢ok (rw same at h))
      go (ok m) same =
          rw (same, ==_refl o.id)
            (written-IsAbove o o.operation_revision m
              (subst (λ x. x ≤ℤ m) (current_revision-eq_ok (files o.id) o same) (le_refl m)))

  -- A save that returned makes each later save of the same operation from the same or an older
  -- revision raise concurrency_conflict and write nothing, whatever was saved in between: no update
  -- is overwritten by one that did not see it.
  pub stale_refused :
      (o stale : Operation) (files : Files) (between : List Operation) {o' : Operation}
      → (save_operation o files).0 ≡ ok o'
      → stale.id ≡ o.id
      → stale.operation_revision ≤ℤ o.operation_revision
      → let later = after_saves between (save_operation o files).1 in
        save_operation stale later
        ≡ (err (concurrency_conflict "concurrency_conflict: operation "), later)
  unfolding save_operation
  stale_refused o stale files between h same old =
      let (d, r, is, has, above) =
        saves-IsAbove between (save_operation o files).1 o.id o.operation_revision
          (saved-IsAbove o files h) in
      rw (same, is, has, differ stale.operation_revision o.operation_revision r old above) refl
