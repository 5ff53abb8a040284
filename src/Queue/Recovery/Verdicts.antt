-- ===== src/Queue/Recovery/Verdicts.antt =====
-- What the recovery of expired claims does to a claim, and when.
use mathlib.Core.Bool.{false≢true}
use rexec_op.Base.{
  ℕ, ◌≤◌, String, ◌≡◌, refl, ◌≢◌, Bool, true, false, ◌||◌, ◌&&◌, Option, none, some, arith, eq_iff,
  ◌==◌, leb, any, contains, ok, ok-injective, >>=-eq-ok, inl, inr, ◌⊎◌, Bool-cases, if◌then◌else◌,
  sym, Option-cases,
}
use rexec_op.Base.Int.{ℤ, ◌<ℤ◌, leb_ℤ}
use rexec_op.Json.{Fields, get}
use rexec_op.Json.Python.{Python, text, as_int, parse_time}
use rexec_op.Lease.{or_raise}
use rexec_op.Queue.Facts.{
  has_load_reason, active_states, Loader, RecoveryFacts, load_recovery_facts, no_attempts,
  is_unfinished, terminal_recovery_states,
}
use rexec_op.Queue.Recovery.{
  Verdict, skip, block, requeue, complete, judge, judge_facts, judge_epoch, unavailable,
}

or_raise-eq_ok : (o : Option ℤ) {n : ℤ} → or_raise o ≡ ok n → o ≡ some n
or_raise-eq_ok none h = cc
or_raise-eq_ok (some m) h = cc

-- The facts under which a claim goes back to the queue or is closed.
abbrev pub IsRequeueable : RecoveryFacts → Type 0
IsRequeueable f = (f.load_reason ≡ "") × (f.state ≡ "approved") × (no_attempts f.attempts ≡ true)

abbrev pub IsClosable : RecoveryFacts → Type 0
IsClosable f =
    (f.load_reason ≡ "")
    × (contains f.state terminal_recovery_states ≡ true)
    × (any is_unfinished f.attempts ≡ false)

and_left : (a b : Bool) → (a && b) ≡ true → a ≡ true
and_left true b h = refl
and_left false b h = h

and_right : (a b : Bool) → (a && b) ≡ true → b ≡ true
and_right true b h = h
and_right false b h = absurd (false≢true h)

-- A test whose first branch does not lead to the verdict, and one whose second branch does not.
else_of : (c : Bool) {x y v : Verdict} → (if c then x else y) ≡ v → x ≢ v → (c ≡ false) × (y ≡ v)
else_of true h n = absurd (n h)
else_of false h n = (refl, h)

then_of : (c : Bool) {x y v : Verdict} → (if c then x else y) ≡ v → y ≢ v → (c ≡ true) × (x ≡ v)
then_of true h n = (refl, h)
then_of false h n = absurd (n h)

block≢requeue : {r : String} {f g : RecoveryFacts} → block r f ≢ requeue g
block≢requeue h = cc

block≢complete : {r : String} {f g : RecoveryFacts} → block r f ≢ complete g
block≢complete h = cc

complete≢requeue : {f g : RecoveryFacts} → complete f ≢ requeue g
complete≢requeue h = cc

requeue-injective : {f g : RecoveryFacts} → requeue f ≡ requeue g → f ≡ g
requeue-injective h = cc

complete-injective : {f g : RecoveryFacts} → complete f ≡ complete g → f ≡ g
complete-injective h = cc

no_reason : (f : RecoveryFacts) → has_load_reason f ≡ false → f.load_reason ≡ ""
no_reason f h = (eq_iff f.load_reason "").0 (ground (arith, h))

-- The tests after the one for a fresh approved operation never lead to a requeue.
late_tests :
    (legacy : Bool) (f g : RecoveryFacts)
    → (if f.state == "approved"
        then block "approved_operation_has_attempts" f
        else if legacy
        then block "operation_state_not_recoverable" f
        else if contains f.state active_states
        then block "active_operation_requires_startup_recovery" f
        else if contains f.state terminal_recovery_states
        then if any is_unfinished f.attempts
          then block "unfinished_attempt_requires_recovery" f
          else complete f
        else block "operation_state_not_recoverable" f)
      ≢ requeue g
late_tests legacy f g h =
    let (_, h₁) = else_of (f.state == "approved") h block≢requeue in
    let (_, h₂) = else_of legacy h₁ block≢requeue in
    let (_, h₃) = else_of (contains f.state active_states) h₂ block≢requeue in
    let (_, h₄) = then_of (contains f.state terminal_recovery_states) h₃ block≢requeue in
    complete≢requeue (else_of (any is_unfinished f.attempts) h₄ block≢requeue).1

judge_facts-requeue :
    (legacy : Bool) (f g : RecoveryFacts)
    → judge_facts legacy f ≡ requeue g
    → (f ≡ g) × IsRequeueable f
unfolding judge_facts
judge_facts-requeue legacy f g h =
    let (loaded, h₁) = else_of (has_load_reason f) h block≢requeue in
    let (fresh, same) =
      then_of (f.state == "approved" && no_attempts f.attempts) h₁ (late_tests legacy f g) in
    (
      requeue-injective same,
      (no_reason f loaded, (eq_iff f.state "approved").0 (and_left _ _ fresh), and_right _ _ fresh),
    )

judge_facts-complete :
    (legacy : Bool) (f g : RecoveryFacts)
    → judge_facts legacy f ≡ complete g
    → (f ≡ g) × IsClosable f × (legacy ≡ false)
unfolding judge_facts
judge_facts-complete legacy f g h =
    let (loaded, h₁) = else_of (has_load_reason f) h block≢complete in
    let (_, h₂) =
      else_of (f.state == "approved" && no_attempts f.attempts) h₁
        (λ e. complete≢requeue (sym e)) in
    let (_, h₃) = else_of (f.state == "approved") h₂ block≢complete in
    let (settled, h₄) = else_of legacy h₃ block≢complete in
    let (_, h₅) = else_of (contains f.state active_states) h₄ block≢complete in
    let (ended, h₆) = then_of (contains f.state terminal_recovery_states) h₅ block≢complete in
    let (finished, same) = else_of (any is_unfinished f.attempts) h₆ block≢complete in
    (complete-injective same, (no_reason f loaded, ended, finished), settled)

-- A verdict that changes the claim, as opposed to one that skips or blocks it.
abbrev pub Changes : Verdict → RecoveryFacts → Type 0
Changes v f = (v ≡ requeue f) ⊎ (v ≡ complete f)

changes≢skip : (f : RecoveryFacts) {v : Verdict} → Changes v f → v ≢ skip
changes≢skip f c h = ground arith

changes≢block : (f g : RecoveryFacts) (r : String) {v : Verdict} → Changes v f → v ≢ block r g
changes≢block f g r c h = ground arith

not_early :
    (legacy : Bool) (f : RecoveryFacts) {v : Verdict}
    → Changes v f
    → v ≢ (if legacy then block "legacy_claim_not_expired" unavailable else skip)
not_early true f c = changes≢block f unavailable "legacy_claim_not_expired" c
not_early false f c = changes≢skip f c

module _ ⦃py : Python⦄ (loader : Loader) (lease : Fields) (now : ℕ) (id : String)
    (claim : Fields) where
  -- The claim has expired, and the lease's epoch is above the epoch of the claim.
  pub record IsOverdue : Type 0 where
    pub expiry : ℕ
    pub prior : ℤ
    pub current : ℤ
    pub expires_at : parse_time (text (get "expires_at" claim)) ≡ some expiry
    pub expired : expiry ≤ now
    pub prior_epoch : as_int (get "lease_epoch" claim) ≡ some prior
    pub current_epoch : as_int (get "lease_epoch" lease) ≡ some current
    pub advanced : prior <ℤ current

  after_epochs :
      (legacy : Bool) (v : Verdict) (f : RecoveryFacts)
      → judge_epoch loader lease id claim legacy ≡ ok v
      → Changes v f
      → (prior : ℤ) × (current : ℤ) × (as_int (get "lease_epoch" claim) ≡ some prior)
        × (as_int (get "lease_epoch" lease) ≡ some current)
        × (prior <ℤ current)
        × (g : RecoveryFacts) × (load_recovery_facts loader id ≡ ok g)
        × (judge_facts legacy g ≡ v)
  after_epochs legacy v f h c =
      let (prior, ep, h₁) = >>=-eq-ok (or_raise (as_int (get "lease_epoch" claim))) _ h in
      let (current, ec, h₂) = >>=-eq-ok (or_raise (as_int (get "lease_epoch" lease))) _ h₁ in
      elim (Bool-cases (leb_ℤ current prior)) [
        | inl behind ↦ absurd (
            changes≢block f unavailable "lease_epoch_not_advanced" c
              (sym (ok-injective (rw behind at h₂))))
        | inr advanced ↦
            let (g, eg, h₃) = >>=-eq-ok (load_recovery_facts loader id) _ (rw advanced at h₂) in
            (
              prior,
              current,
              or_raise-eq_ok _ ep,
              or_raise-eq_ok _ ec,
              ground arith,
              g,
              eg,
              ok-injective h₃,
            )
      ]

  judge-eq_ok :
      (legacy : Bool) (v : Verdict) (f : RecoveryFacts)
      → judge loader lease now id claim legacy ≡ ok v
      → Changes v f
      → IsOverdue
        × (g : RecoveryFacts) × (load_recovery_facts loader id ≡ ok g)
        × (judge_facts legacy g ≡ v)
  unfolding judge
  judge-eq_ok legacy v f h c =
      elim (Bool-cases
        (text (get "status" claim) == "completed" || text (get "status" claim) == "requeued")) [
          | inl done ↦ absurd (changes≢skip f c (sym (ok-injective (rw done at h))))
          | inr held ↦ elim (Option-cases (parse_time (text (get "expires_at" claim)))) [
            | inl unset ↦ absurd (
                changes≢block f unavailable "invalid_claim_expiry" c
                  (sym (ok-injective (rw (held, unset) at h))))
            | inr (expiry, e) ↦ elim (Bool-cases (leb expiry now)) [
              | inr early ↦
                  absurd (not_early legacy f c (sym (ok-injective (rw (held, e, early) at h))))
              | inl late ↦
                  let (prior, current, ep, ec, adv, g, eg, judged) =
                    after_epochs legacy v f (rw (held, e, late) at h) c in
                  (
                    record {
                      expiry = expiry;
                      prior = prior;
                      current = current;
                      expires_at = e;
                      expired = ground arith;
                      prior_epoch = ep;
                      current_epoch = ec;
                      advanced = adv;
                    },
                    g,
                    eg,
                    judged,
                  )
            ]
          ]
        ]

  -- A claim is judged to be put back into the queue only if it has expired, the lease's epoch is above
  -- the claim's, and the store says that its operation is approved and was never attempted.
  pub requeues_only_unstarted :
      (legacy : Bool) (f : RecoveryFacts)
      → judge loader lease now id claim legacy ≡ ok (requeue f)
      → IsOverdue × (load_recovery_facts loader id ≡ ok f) × IsRequeueable f
  requeues_only_unstarted legacy f h =
      let (late, g, eg, judged) = judge-eq_ok legacy (requeue f) f h (inl refl) in
      let (same, facts) = judge_facts-requeue legacy g f judged in
      (late, rw (← same) eg, rw (← same) facts)

  -- A claim is judged to be closed only if it has expired, the lease's epoch is above the claim's, and
  -- the store says that its operation has ended and that no attempt of it is unfinished.
  pub closes_only_finished :
      (legacy : Bool) (f : RecoveryFacts)
      → judge loader lease now id claim legacy ≡ ok (complete f)
      → IsOverdue × (load_recovery_facts loader id ≡ ok f) × IsClosable f × (legacy ≡ false)
  closes_only_finished legacy f h =
      let (late, g, eg, judged) = judge-eq_ok legacy (complete f) f h (inr refl) in
      let (same, facts, settled) = judge_facts-complete legacy g f judged in
      (late, rw (← same) eg, rw (← same) facts, settled)
