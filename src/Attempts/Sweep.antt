-- ===== src/Attempts/Sweep.antt =====
-- What `mark_started_indeterminate` leaves behind: the sweep that a start-up makes over the
-- attempts that a crash cut off.
use mathlib.Core.Bool.{false≢true}
use rexec_op.Base.{
  Error, ℕ, String, ◌≡◌, refl, Bool, true, false, ◌&&◌, ◌||◌, List, [], ◌∷◌, arith, ◌==◌, any,
  if◌then◌else◌, Result, ok, err, ok-injective, err≢ok, >>=-eq-ok, Bool-cases, inl, inr, ap, sym,
  ◌∙◌,
}
use rexec_op.Json.{str, obj, Fields, get, is_text, is_true, readable}
use rexec_op.Json.Laws.{get-put}
use rexec_op.Json.Python.{Python}
use rexec_op.Attempts.Journal.{
  Entry, Journal, read, marked, mark_started_indeterminate, has_indeterminate_side_effect,
  is_indeterminate_effect, attempt_name,
}

-- A readable record whose status is the given one.
abbrev pub has_record_status : String → Entry → Bool
has_record_status s e = elim (read e.content) [ ok d ↦ is_text s (get "status" d) | err x ↦ false ]

-- An attempt of an operation that may have had an effect whose outcome is not known: it is started
-- or indeterminate.
abbrev pub is_cut_off : String → Entry → Bool
is_cut_off operation e = elim (read e.content) [
  | ok d ↦
      operation == e.operation
      && ((is_text "started" (get "status" d) || is_text "indeterminate" (get "status" d))
          && is_true (get "side_effectful" d))
  | err x ↦ false
]

module _ ⦃py : Python⦄ where
  -- What becomes of one file: a started attempt becomes indeterminate, another stays.
  abbrev pub swept_entry : ℕ → Entry → Entry
  swept_entry now e = elim (read e.content) [
    | ok d ↦
        if is_text "started" (get "status" d)
        then record e { content = readable (obj (marked d now)) }
        else e
    | err x ↦ e
  ]

  abbrev pub swept : ℕ → Journal → Journal
  swept now [] = []
  swept now (e ∷ es) = swept_entry now e ∷ swept now es

  -- The operation's names of the started attempts.
  abbrev pub started_names : Journal → List String
  started_names [] = []
  started_names (e ∷ es) = elim (read e.content) [
    | ok d ↦
        if is_text "started" (get "status" d)
        then attempt_name d e ∷ started_names es
        else started_names es
    | err x ↦ started_names es
  ]

  -- Whether every file can be read.
  abbrev pub all_readable : Journal → Bool
  all_readable [] = true
  all_readable (e ∷ es) = elim (read e.content) [ ok d ↦ all_readable es | err x ↦ false ]

  -- What a sweep that returns has done.
  abbrev pub HasSwept : ℕ → Journal → List String → Type 0
  HasSwept now j names =
      ((mark_started_indeterminate now j).1 ≡ swept now j)
      × (names ≡ started_names j)
      × (all_readable j ≡ true)

  -- A sweep that returns has read every file, made every started attempt indeterminate and left the
  -- others, and it names the attempts that it changed, in the order of their paths.
  pub mark_started_indeterminate-eq_ok :
      (now : ℕ) (j : Journal) {names : List String}
      → (mark_started_indeterminate now j).0 ≡ ok names
      → HasSwept now j names
  unfolding mark_started_indeterminate
  mark_started_indeterminate-eq_ok now [] h = (refl, sym (ok-injective h), refl)
  mark_started_indeterminate-eq_ok now (e ∷ es) {names} h =
      go (λ ns. mark_started_indeterminate-eq_ok now es {names = ns}) (read e.content) refl
    where
      go :
          ((ns : List String) → (mark_started_indeterminate now es).0 ≡ ok ns → HasSwept now es ns)
          → (p : Result Fields) → read e.content ≡ p
          → HasSwept now (e ∷ es) names
      go ih (err x) read_failed = absurd (err≢ok (rw read_failed at h))
      go ih (ok d) found = elim (Bool-cases (is_text "started" (get "status" d))) [
        | inl started ↦
            let (later, returned, last) =
              >>=-eq-ok (mark_started_indeterminate now es).0 _ (rw (found, started) at h) in
            let (files, changed, all_read) = ih later returned in
            (
              rw (swept, swept_entry, found, started)
                  (ap (λ x. record e { content = readable (obj (marked d now)) } ∷ x) files),
              rw (started_names, found, started)
                  (sym (ok-injective last) ∙ ap (λ x. attempt_name d e ∷ x) changed),
              rw (all_readable, found) all_read,
            )
        | inr other ↦
            let (files, changed, all_read) = ih names (rw (found, other) at h) in
            (
              rw (swept, swept_entry, found, other) (ap (λ x. e ∷ x) files),
              rw (started_names, found, other) changed,
              rw (all_readable, found) all_read,
            )
      ]

  marked-fields :
      (d : Fields) (now : ℕ)
      → (get "status" (marked d now) ≡ str "indeterminate")
        × (get "side_effectful" (marked d now) ≡ get "side_effectful" d)
  marked-fields d now = (simp get-put, simp get-put)

  swept_started :
      (now : ℕ) (e : Entry) {d : Fields}
      → read e.content ≡ ok d
      → is_text "started" (get "status" d) ≡ true
      → swept_entry now e ≡ record e { content = readable (obj (marked d now)) }
  swept_started now e found started = rw (swept_entry, found, started)

  swept_other :
      (now : ℕ) (e : Entry) {d : Fields}
      → read e.content ≡ ok d
      → is_text "started" (get "status" d) ≡ false
      → swept_entry now e ≡ e
  swept_other now e found other = rw (swept_entry, found, other)

  swept_failed : (now : ℕ) (e : Entry) {x : Error} → read e.content ≡ err x → swept_entry now e ≡ e
  swept_failed now e failed = rw (swept_entry, failed)

  entry_not_started :
      (now : ℕ) (e : Entry) (p : Result Fields)
      → read e.content ≡ p
      → has_record_status "started" (swept_entry now e) ≡ false
  unfolding read
  entry_not_started now e (err x) failed =
      rw (swept_failed now e failed) (rw (has_record_status, failed))
  entry_not_started now e (ok d) found = elim (Bool-cases (is_text "started" (get "status" d))) [
    | inl started ↦
        rw (swept_started now e found started) (rw (has_record_status, (marked-fields d now).0))
    | inr other ↦ rw (swept_other now e found other) (rw (has_record_status, found, other))
  ]

  none_started : (now : ℕ) (j : Journal) → any (has_record_status "started") (swept now j) ≡ false
  none_started now [] = refl
  none_started now (e ∷ es) =
      ground (arith, entry_not_started now e (read e.content) refl, none_started now es)

  -- What `has_indeterminate_side_effect` says of a directory whose first file can be read.
  effect_of :
      (operation : String) (e : Entry) (es : Journal) {d : Fields} {later : Bool}
      → read e.content ≡ ok d
      → has_indeterminate_side_effect operation es ≡ ok later
      → has_indeterminate_side_effect operation (e ∷ es)
        ≡ ok ((operation == e.operation && is_indeterminate_effect d) || later)
  unfolding has_indeterminate_side_effect
  effect_of operation e es {d} found rest = elim (Bool-cases (operation == e.operation)) [
    | inr elsewhere ↦ rw elsewhere rest
    | inl at ↦ elim (Bool-cases (is_indeterminate_effect d)) [
      | inl effect ↦ rw (at, found, effect)
      | inr none' ↦ rw (at, found, none') rest
    ]
  ]

  -- What the sweep makes of one file that can be read.
  swept_read :
      (now : ℕ) (e : Entry) (operation : String) {d : Fields}
      → read e.content ≡ ok d
      → (d' : Fields) × (read (swept_entry now e).content ≡ ok d')
        × ((operation == (swept_entry now e).operation && is_indeterminate_effect d')
            ≡ is_cut_off operation e)
  unfolding read
  swept_read now e operation {d} found = elim (Bool-cases (is_text "started" (get "status" d))) [
    | inl started ↦
        let (same, effect) = marked-fields d now in
        (
          marked d now,
          rw (swept_started now e found started),
          rw (swept_started now e found started, is_cut_off, found, started, same, effect) refl,
        )
    | inr other ↦ (
      d,
      rw (swept_other now e found other) found,
      rw (swept_other now e found other, is_cut_off, found, other) refl,
    )
  ]

  swept_effect :
      (now : ℕ) (j : Journal) (operation : String)
      → all_readable j ≡ true
      → has_indeterminate_side_effect operation (swept now j) ≡ ok (any (is_cut_off operation) j)
  unfolding has_indeterminate_side_effect
  swept_effect now [] operation r = refl
  swept_effect now (e ∷ es) operation r =
      go (λ later. swept_effect now es operation later) (read e.content) refl
    where
      go :
          (all_readable es ≡ true
            → has_indeterminate_side_effect operation (swept now es)
              ≡ ok (any (is_cut_off operation) es))
          → (p : Result Fields) → read e.content ≡ p
          → has_indeterminate_side_effect operation (swept now (e ∷ es))
            ≡ ok (any (is_cut_off operation) (e ∷ es))
      go ih (err x) failed = absurd (false≢true (rw (all_readable, failed) at r))
      go ih (ok d) found =
          let (d', still, same) = swept_read now e operation found in
          effect_of operation (swept_entry now e) (swept now es) still
            (ih (rw (all_readable, found) at r))
          ∙ ap (λ b. ok (b || any (is_cut_off operation) es)) same

  -- After a sweep that returned, no attempt in the directory is started, and
  -- `has_indeterminate_side_effect` of an operation says whether before the sweep the operation had an
  -- attempt with a side effect that was started or indeterminate.
  pub sweep_reports :
      (now : ℕ) (j : Journal) (operation : String) {names : List String}
      → (mark_started_indeterminate now j).0 ≡ ok names
      → (any (has_record_status "started") (mark_started_indeterminate now j).1 ≡ false)
        × (has_indeterminate_side_effect operation (mark_started_indeterminate now j).1
            ≡ ok (any (is_cut_off operation) j))
  sweep_reports now j operation h =
      let (files, _, all_read) = mark_started_indeterminate-eq_ok now j h in
      (rw files (none_started now j), rw files (swept_effect now j operation all_read))
