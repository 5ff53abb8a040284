-- ===== src/Queue/Recovery/Rounds.antt =====
-- What one round of the recovery's loop makes of one operation.
use rexec_op.Base.{
  ℕ, String, ◌≡◌, refl, subst, ◌∙◌, Bool, false, ◌==◌, eq_iff, Bool-cases, inl, inr, ok, err≢ok,
  ok-injective, >>=-eq-ok,
}
use rexec_op.Json.{Value, null, bool, int, str, arr, obj, Fields, get, put}
use rexec_op.Json.Laws.{get-put}
use rexec_op.Json.Python.{Python}
use rexec_op.Queue.Transition.{transition_record}
use rexec_op.Queue.Store.{QueueData, in_pending}
use rexec_op.Queue.Facts.{Loader}
use rexec_op.Queue.Recovery.{
  Progress, Verdict, skip, block, requeue, complete, judge, requeue_pending, apply_verdict,
  recover_claim,
}
use rexec_op.Queue.Recovery.Verdicts.{requeues_only_unstarted, closes_only_finished}
use rexec_op.Queue.Recovery.Fate.{
  Fate, untouched, noted, requeued, closed, data_of, raises, elsewhere, claim_put, place_kept,
  place_taken,
}

module _ ⦃py : Python⦄ (loader : Loader) (lease : Fields) (now : ℕ) where
  -- What one round of the loop makes of the claim that it looks at.
  apply_verdict-Fate :
      (id : String) (claim : Fields) (legacy : Bool) (q : QueueData) (changed : Bool)
      (verdict : Verdict) {progress : Progress}
      → get id q.claims ≡ obj claim
      → in_pending id q.pending ≡ legacy
      → judge loader lease now id claim legacy ≡ ok verdict
      → apply_verdict lease now id claim legacy verdict q changed ≡ ok progress
      → Fate loader lease now id (raises progress) q (data_of progress)
  unfolding apply_verdict
  apply_verdict-Fate id claim legacy q changed skip there place judged h =
      subst (λ p. Fate loader lease now id (raises p) q (data_of p)) (ok-injective h)
        (untouched refl refl)
  apply_verdict-Fate id claim legacy q changed (block reason f) there place judged h =
      let (t, _, h₁) =
        >>=-eq-ok (transition_record claim lease now "blocked" reason f.state f.attempts) _ h in
      subst (λ p. Fate loader lease now id (raises p) q (data_of p)) (ok-injective h₁)
        (noted t there (claim_put id (obj (put "last_transition" (obj t) claim)) q) refl)
  apply_verdict-Fate id claim legacy q changed (requeue f) there place judged h =
      let (late, loaded, facts) =
        requeues_only_unstarted loader lease now id claim legacy f judged in
      let claim' : Fields = put "status" (str "requeued") claim in
      let (t, _, h₁) =
        >>=-eq-ok
          (transition_record claim' lease now "requeued" "expired_pre_execution_claim" f.state
            f.attempts)
          _ h in
      subst (λ p. Fate loader lease now id (raises p) q (data_of p)) (ok-injective h₁)
        (requeued f there late loaded facts
          (claim_put id (obj (put "last_transition" (obj t) claim')) q) (simp get-put)
          (place_taken id legacy q.pending place))
  apply_verdict-Fate id claim legacy q changed (complete f) there place judged h =
      let (late, loaded, facts, settled) =
        closes_only_finished loader lease now id claim legacy f judged in
      let claim' : Fields =
        put "completed_at" (str (py.iso now)) (put "status" (str "completed") claim) in
      let (t, _, h₁) =
        >>=-eq-ok
          (transition_record claim' lease now "completed" "terminal_operation" f.state f.attempts) _
          h in
      subst (λ p. Fate loader lease now id (raises p) q (data_of p)) (ok-injective h₁)
        (closed f there late loaded facts (place ∙ settled)
          (claim_put id (obj (put "last_transition" (obj t) claim')) q) (simp get-put)
          (place ∙ settled))

  -- The round leaves the other operations alone.
  other-Fate :
      (id other : String) (claim : Fields) (legacy : Bool) (q : QueueData) (changed : Bool)
      (verdict : Verdict) {progress : Progress}
      → (id == other) ≡ false
      → apply_verdict lease now other claim legacy verdict q changed ≡ ok progress
      → Fate loader lease now id (raises progress) q (data_of progress)
  unfolding apply_verdict
  other-Fate id other claim legacy q changed skip ne h =
      subst (λ p. Fate loader lease now id (raises p) q (data_of p)) (ok-injective h)
        (untouched refl refl)
  other-Fate id other claim legacy q changed (block reason f) ne h =
      let (t, _, h₁) =
        >>=-eq-ok (transition_record claim lease now "blocked" reason f.state f.attempts) _ h in
      subst (λ p. Fate loader lease now id (raises p) q (data_of p)) (ok-injective h₁)
        (elsewhere loader lease now id other q (obj (put "last_transition" (obj t) claim)) q.pending
          ne refl)
  other-Fate id other claim legacy q changed (requeue f) ne h =
      let claim' : Fields = put "status" (str "requeued") claim in
      let (t, _, h₁) =
        >>=-eq-ok
          (transition_record claim' lease now "requeued" "expired_pre_execution_claim" f.state
            f.attempts)
          _ h in
      subst (λ p. Fate loader lease now id (raises p) q (data_of p)) (ok-injective h₁)
        (elsewhere loader lease now id other q (obj (put "last_transition" (obj t) claim'))
          (requeue_pending legacy other q.pending) ne (place_kept id other legacy q.pending ne))
  other-Fate id other claim legacy q changed (complete f) ne h =
      let claim' : Fields =
        put "completed_at" (str (py.iso now)) (put "status" (str "completed") claim) in
      let (t, _, h₁) =
        >>=-eq-ok
          (transition_record claim' lease now "completed" "terminal_operation" f.state f.attempts) _
          h in
      subst (λ p. Fate loader lease now id (raises p) q (data_of p)) (ok-injective h₁)
        (elsewhere loader lease now id other q (obj (put "last_transition" (obj t) claim'))
          q.pending ne refl)

  pub recover_claim-Fate :
      (id other : String) (value : Value) (q : QueueData) (changed : Bool) {progress : Progress}
      → get other q.claims ≡ value
      → recover_claim loader lease now other value q changed ≡ ok progress
      → Fate loader lease now id (raises progress) q (data_of progress)
  recover_claim-Fate id other (obj claim) q changed there h =
      let (verdict, judged, h₁) =
        >>=-eq-ok (judge loader lease now other claim (in_pending other q.pending)) _ h in
      elim (Bool-cases (id == other)) [
        | inr ne ↦ other-Fate id other claim (in_pending other q.pending) q changed verdict ne h₁
        | inl same ↦ rw ((eq_iff id other).0 same) (
            apply_verdict-Fate other claim (in_pending other q.pending) q changed verdict there refl
              judged h₁)
      ]
  recover_claim-Fate id other null q changed there h = absurd (err≢ok h)
  recover_claim-Fate id other (bool b) q changed there h = absurd (err≢ok h)
  recover_claim-Fate id other (int n) q changed there h = absurd (err≢ok h)
  recover_claim-Fate id other (str s) q changed there h = absurd (err≢ok h)
  recover_claim-Fate id other (arr xs) q changed there h = absurd (err≢ok h)
