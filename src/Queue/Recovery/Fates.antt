-- ===== src/Queue/Recovery/Fates.antt =====
-- What the recovery of expired claims writes, operation by operation.
use rexec_op.Base.{
  ℕ, String, ◌≡◌, refl, ap, subst, ◌∙◌, Bool, true, false, Option, none, some, List, [], ◌∷◌, ◌==◌,
  eq_iff, Bool-cases, inl, inr, ◌⊎◌, Result, ok, err, Error, err≢ok, ok-injective, >>=-eq-ok,
  >>-eq-ok, ◌>>=◌, commit, sorted,
}
use rexec_op.Json.{Value, null, bool, int, str, arr, obj, Fields, get, put, keys, JsonFile}
use rexec_op.Json.Python.{Python}
use rexec_op.Lease.{LeaseDir, validate}
use rexec_op.Queue.Transition.{transition_record}
use rexec_op.Queue.Store.{QueueData, load, saved, recovery_blocked}
use rexec_op.Queue.Topology.{validate_topology, valid_claim_identity}
use rexec_op.Queue.Facts.{Loader}
use rexec_op.Queue.Claims.{Change, run_change, enter_lease_guard, replace_error}
use rexec_op.Queue.Recovery.{
  Progress, going, stopped, recover_claim, continue, recover_loop, persist_blocker,
  blocked_topology, recover_topology, recover_expired_unlocked, recovered, recover_plan,
  recover_expired_claims_from_lease,
}
use rexec_op.Queue.Recovery.Fate.{
  Fate, untouched, noted, data_of, raises, elsewhere, claim_put, compose,
}
use rexec_op.Queue.Recovery.Rounds.{recover_claim-Fate}

module _ ⦃py : Python⦄ (loader : Loader) (lease : Fields) (now : ℕ) where
  recover_loop-Fate :
      (id : String) (ids : List String) (q : QueueData) (changed : Bool) {progress : Progress}
      → recover_loop loader lease now ids q changed ≡ ok progress
      → Fate loader lease now id (raises progress) q (data_of progress)
  unfolding recover_loop
  recover_loop-Fate id [] q changed h =
      subst (λ p. Fate loader lease now id (raises p) q (data_of p)) (ok-injective h)
        (untouched refl refl)
  recover_loop-Fate id (other ∷ ids) q changed h =
      let (first, found, h₁) =
        >>=-eq-ok (recover_claim loader lease now other (get other q.claims) q changed) _ h in
      after_round first
        (recover_claim-Fate loader lease now id other (get other q.claims) q changed refl found)
        (λ q₁ changed₁ p e. recover_loop-Fate id ids q₁ changed₁ {progress = p} e) h₁
    where
      after_round :
          (first : Progress)
          → Fate loader lease now id (raises first) q (data_of first)
          → ((q₁ : QueueData) (changed₁ : Bool) (p : Progress)
              → recover_loop loader lease now ids q₁ changed₁ ≡ ok p
              → Fate loader lease now id (raises p) q₁ (data_of p))
          → {p : Progress} → continue first (recover_loop loader lease now ids) ≡ ok p
          → Fate loader lease now id (raises p) q (data_of p)
      after_round (going q₁ changed₁) fate later e =
          compose loader lease now fate (later q₁ changed₁ _ e)
      after_round (stopped q₁) fate later e =
          subst (λ p. Fate loader lease now id (raises p) q (data_of p)) (ok-injective e) fate

  blocked_note :
      (id other : String) (claim : Fields) (q : QueueData) {saved' : Option QueueData}
      {progress : Progress}
      → get other q.claims ≡ obj claim
      → valid_claim_identity claim ≡ true
      → persist_blocker lease now other (obj claim) q ≡ ok saved'
      → blocked_topology saved' ≡ ok progress
      → Fate loader lease now id (raises progress) q (data_of progress)
  unfolding persist_blocker
  blocked_note id other claim q {saved'} {progress} there known h ended =
      let (t, _, h₁) =
        >>=-eq-ok
          (transition_record claim lease now "blocked" "invalid_queue_topology" "unavailable" []) _
          (rw known at h) in
      subst (λ p. Fate loader lease now id (raises p) q (data_of p))
        (ok-injective (ap blocked_topology (ok-injective h₁) ∙ ended))
        (elim (Bool-cases (id == other)) [
          | inr ne ↦
              elsewhere loader lease now id other q (obj (put "last_transition" (obj t) claim))
                q.pending ne refl
          | inl same ↦
              rw ((eq_iff id other).0 same)
                (noted t there (claim_put other (obj (put "last_transition" (obj t) claim)) q) refl)
        ])

  -- The topology check that failed saves a note on one claim, or nothing.
  persist_blocker-Fate :
      (id other : String) (value : Value) (q : QueueData) {progress : Progress}
      → get other q.claims ≡ value
      → (persist_blocker lease now other value q >>= blocked_topology) ≡ ok progress
      → Fate loader lease now id (raises progress) q (data_of progress)
  unfolding persist_blocker
  persist_blocker-Fate id other (obj claim) q there h =
      elim (Bool-cases (valid_claim_identity claim)) [
        | inr unknown ↦ absurd (err≢ok (rw unknown at h))
        | inl known ↦
            let (kept', noting, h₁) =
              >>=-eq-ok (persist_blocker lease now other (obj claim) q) blocked_topology h in
            blocked_note id other claim q there known noting h₁
      ]
  persist_blocker-Fate id other null q there h = absurd (err≢ok h)
  persist_blocker-Fate id other (bool b) q there h = absurd (err≢ok h)
  persist_blocker-Fate id other (int n) q there h = absurd (err≢ok h)
  persist_blocker-Fate id other (str s) q there h = absurd (err≢ok h)
  persist_blocker-Fate id other (arr xs) q there h = absurd (err≢ok h)

  recover_topology-Fate :
      (id : String) (unsound : Option String) (q : QueueData) {progress : Progress}
      → recover_topology loader lease now q unsound ≡ ok progress
      → Fate loader lease now id (raises progress) q (data_of progress)
  recover_topology-Fate id none q h = recover_loop-Fate id (sorted (keys q.claims)) q false h
  recover_topology-Fate id (some other) q h =
      persist_blocker-Fate id other (get other q.claims) q refl h

  recover_expired_unlocked-Fate :
      (id : String) (q : QueueData) {progress : Progress}
      → recover_expired_unlocked loader lease now q ≡ ok progress
      → Fate loader lease now id (raises progress) q (data_of progress)
  unfolding recover_expired_unlocked
  recover_expired_unlocked-Fate id q h =
      let (unsound, _, h₁) = >>=-eq-ok (validate_topology q) _ h in
      recover_topology-Fate id unsound q h₁

  entered : (e : Error) (r : Result (Unit {0})) → replace_error e r ≡ ok tt → r ≡ ok tt
  entered e (ok tt) h = refl
  entered e (err x) h = absurd (err≢ok h)

  -- How the recovery ends where it has saved.
  abbrev pub outcome : Bool → Result Bool
  outcome true = err recovery_blocked
  outcome false = ok true

  -- What a recovery did that has written the file.
  abbrev pub IsRecovery : String → LeaseDir → ℕ → ℕ → JsonFile → Result Bool × JsonFile → Type 0
  IsRecovery id dir guard_now saved_at file r =
      (q : QueueData) × (q' : QueueData) × (end : Bool) × (validate lease guard_now dir ≡ ok tt)
      × (load file ≡ ok q)
      × (r ≡ (outcome end, saved q' saved_at))
      × Fate loader lease now id end q q'

  run_recovered :
      (id : String) (dir : LeaseDir) (guard_now saved_at : ℕ) (file : JsonFile) (q : QueueData)
      (progress : Progress)
      → validate lease guard_now dir ≡ ok tt
      → load file ≡ ok q
      → Fate loader lease now id (raises progress) q (data_of progress)
      → ((run_change saved_at (recovered progress) file).1 ≡ file)
        ⊎ IsRecovery id dir guard_now saved_at file (run_change saved_at (recovered progress) file)
  run_recovered id dir guard_now saved_at file q (going q' false) valid loads fate = inl refl
  run_recovered id dir guard_now saved_at file q (going q' true) valid loads fate =
      inr (q, q', false, valid, loads, refl, fate)
  run_recovered id dir guard_now saved_at file q (stopped q') valid loads fate =
      inr (q, q', true, valid, loads, refl, fate)

  commit_recovered :
      (id : String) (dir : LeaseDir) (guard_now saved_at : ℕ) (file : JsonFile)
      (plan : Result (Change Bool))
      → recover_plan loader dir guard_now lease now file ≡ plan
      → ((commit plan (run_change saved_at) file).1 ≡ file)
        ⊎ IsRecovery id dir guard_now saved_at file (commit plan (run_change saved_at) file)
  unfolding recover_plan enter_lease_guard
  commit_recovered id dir guard_now saved_at file (err e) h = inl refl
  commit_recovered id dir guard_now saved_at file (ok change) h =
      let (guarded, h₁) =
        >>-eq-ok (replace_error recovery_blocked (validate lease guard_now dir)) _ h in
      let (q, loads, h₂) = >>=-eq-ok (load file) _ h₁ in
      let (progress, ran, h₃) = >>=-eq-ok (recover_expired_unlocked loader lease now q) _ h₂ in
      let settled =
        run_recovered id dir guard_now saved_at file q progress
          (entered recovery_blocked (validate lease guard_now dir) guarded) loads
          (recover_expired_unlocked-Fate id q ran) in
      subst
        (λ c.
          ((run_change saved_at c file).1 ≡ file)
          ⊎ IsRecovery id dir guard_now saved_at file (run_change saved_at c file))
        (ok-injective h₃) settled

  -- For every operation, a recovery of expired claims leaves the file as it was, or it held a valid lease,
  -- loaded the data, and saved data in which the operation met one of four fates. Its claim and place are
  -- as before; or, where the call raises, its claim has a new transition record and nothing else changed;
  -- or it is pending with a requeued claim, where its claim was overdue and its facts show an approved
  -- operation without attempts; or it is not pending and its claim is completed, where its claim was
  -- overdue, it was not pending before, and its facts show a terminal operation without an unfinished
  -- attempt. The call raises a blocked recovery after a save that ends it, and returns true after any
  -- other.
  pub recover_expired_claims_from_lease-IsRecovery :
      (id : String) (dir : LeaseDir) (guard_now saved_at : ℕ) (file : JsonFile)
      → let r = recover_expired_claims_from_lease loader dir guard_now lease now saved_at file in
        (r.1 ≡ file) ⊎ IsRecovery id dir guard_now saved_at file r
  unfolding recover_expired_claims_from_lease
  recover_expired_claims_from_lease-IsRecovery id dir guard_now saved_at file =
      commit_recovered id dir guard_now saved_at file
        (recover_plan loader dir guard_now lease now file) refl
