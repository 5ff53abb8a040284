-- ===== src/Queue/Recovery/Fate.antt =====
-- What a recovery of expired claims may make of one operation's claim and of its place in the queue.
use rexec_op.Base.{
  ℕ, String, ◌≡◌, refl, sym, ap, ◌∙◌, Bool, true, false, ◌||◌, List, [], ◌∷◌, ◌++◌, ◌==◌, ==_refl,
  eq_iff, arith, ok,
}
use rexec_op.Json.{Value, str, obj, Fields, get, put}
use rexec_op.Json.Laws.{get-put}
use rexec_op.Json.Python.{Python}
use rexec_op.Queue.Store.{QueueData, in_pending}
use rexec_op.Queue.Facts.{Loader, RecoveryFacts, load_recovery_facts}
use rexec_op.Queue.Recovery.{Progress, going, stopped, requeue_pending}
use rexec_op.Queue.Recovery.Verdicts.{IsOverdue, IsRequeueable, IsClosable}

in_pending-append :
    (id other : String) (pending : List Value)
    → in_pending id (pending ++ str other ∷ []) ≡ (in_pending id pending || other == id)
in_pending-append id other [] = ground arith
in_pending-append id other (v ∷ pending) = ground (arith, in_pending-append id other pending)

abbrev pub data_of : Progress → QueueData
data_of (going q changed) = q
data_of (stopped q) = q

abbrev pub raises : Progress → Bool
raises (going q changed) = false
raises (stopped q) = true

pub claim_put : (id : String) (c : Value) (q : QueueData) → get id (put id c q.claims) ≡ c
claim_put id c q = rw (get-put id id c q.claims, ==_refl id) refl

status_noted :
    (transition claim : Fields)
    → get "status" (put "last_transition" (obj transition) claim) ≡ get "status" claim
status_noted transition claim = simp get-put

same_claim : {v : Value} {c c' : Fields} → v ≡ obj c → v ≡ obj c' → c' ≡ c
same_claim h h' = cc

true_and_false : {b : Bool} → b ≡ true → b ≡ false → ⊥
true_and_false h h' = cc

module _ ⦃py : Python⦄ where
  pub place_kept :
      (id other : String) (legacy : Bool) (pending : List Value)
      → (id == other) ≡ false
      → in_pending id (requeue_pending legacy other pending) ≡ in_pending id pending
  place_kept id other true pending ne = refl
  place_kept id other false pending ne =
      ground (arith, in_pending-append id other pending, eq_iff id other, eq_iff other id, ne)

  pub place_taken :
      (id : String) (legacy : Bool) (pending : List Value)
      → in_pending id pending ≡ legacy
      → in_pending id (requeue_pending legacy id pending) ≡ true
  place_taken id true pending h = h
  place_taken id false pending h = ground (arith, in_pending-append id id pending, ==_refl id)

module _ ⦃py : Python⦄ (loader : Loader) (lease : Fields) (now : ℕ) where
  -- What became of one operation's claim and of its place, where the recovery went on (`false`) or
  -- ended with a raise after its save (`true`).
  pub data Fate (id : String) : Bool → QueueData → QueueData → Type 0 where
    -- the claim and the place are as before
    untouched :
        {end : Bool} {q q' : QueueData}
        → get id q'.claims ≡ get id q.claims
        → in_pending id q'.pending ≡ in_pending id q.pending
        → Fate id end q q'
    -- the claim has a new transition record and no other change
    noted :
        {q q' : QueueData} {claim : Fields} (transition : Fields)
        → get id q.claims ≡ obj claim
        → get id q'.claims ≡ obj (put "last_transition" (obj transition) claim)
        → in_pending id q'.pending ≡ in_pending id q.pending
        → Fate id true q q'
    -- the operation is pending again
    requeued :
        {end : Bool} {q q' : QueueData} {claim claim' : Fields} (facts : RecoveryFacts)
        → get id q.claims ≡ obj claim
        → IsOverdue loader lease now id claim
        → load_recovery_facts loader id ≡ ok facts
        → IsRequeueable facts
        → get id q'.claims ≡ obj claim'
        → get "status" claim' ≡ str "requeued"
        → in_pending id q'.pending ≡ true
        → Fate id end q q'
    -- the claim is closed
    closed :
        {end : Bool} {q q' : QueueData} {claim claim' : Fields} (facts : RecoveryFacts)
        → get id q.claims ≡ obj claim
        → IsOverdue loader lease now id claim
        → load_recovery_facts loader id ≡ ok facts
        → IsClosable facts
        → in_pending id q.pending ≡ false
        → get id q'.claims ≡ obj claim'
        → get "status" claim' ≡ str "completed"
        → in_pending id q'.pending ≡ false
        → Fate id end q q'

  -- A change of another operation's claim.
  pub elsewhere :
      (id other : String) (q : QueueData) (c : Value) (pending : List Value) {end : Bool}
      → (id == other) ≡ false
      → in_pending id pending ≡ in_pending id q.pending
      → Fate id end q (record { pending = pending; claims = put other c q.claims })
  elsewhere id other q c pending ne same =
      untouched (rw (get-put other id c q.claims, ne) refl) same

  -- One round after the other.
  pub compose :
      {id : String} {end : Bool} {q q₁ q' : QueueData}
      → Fate id false q q₁
      → Fate id end q₁ q'
      → Fate id end q q'
  compose (untouched s p) (untouched s' p') = untouched (s' ∙ s) (p' ∙ p)
  compose (untouched s p) (noted t there at place) = noted t (sym s ∙ there) at (place ∙ p)
  compose (untouched s p) (requeued f there late loaded facts at status place) =
      requeued f (sym s ∙ there) late loaded facts at status place
  compose (untouched s p) (closed f there late loaded facts before at status place) =
      closed f (sym s ∙ there) late loaded facts (sym p ∙ before) at status place
  compose (requeued f there late loaded facts at status place) (untouched s' p') =
      requeued f there late loaded facts (s' ∙ at) status (p' ∙ place)
  compose (requeued f there late loaded facts at status place)
        (noted {claim = c} t there' at' place') =
      requeued f there late loaded facts at'
        (status_noted t c ∙ ap (λ c. get "status" c) (same_claim at there') ∙ status)
        (place' ∙ place)
  compose (requeued f there late loaded facts at status place)
        (requeued f' _ _ _ _ at' status' place') =
      requeued f there late loaded facts at' status' place'
  compose (requeued f there late loaded facts at status place)
        (closed f' _ _ _ _ before' at' status' place') =
      absurd (true_and_false place before')
  compose (closed f there late loaded facts before at status place) (untouched s' p') =
      closed f there late loaded facts before (s' ∙ at) status (p' ∙ place)
  compose (closed f there late loaded facts before at status place)
        (noted {claim = c} t there' at' place') =
      closed f there late loaded facts before at'
        (status_noted t c ∙ ap (λ c. get "status" c) (same_claim at there') ∙ status)
        (place' ∙ place)
  compose (closed f there late loaded facts before at status place)
        (requeued f' _ _ loaded' facts' at' status' place') =
      requeued f' there late loaded' facts' at' status' place'
  compose (closed f there late loaded facts before at status place)
        (closed f' _ _ _ _ _ at' status' place') =
      closed f there late loaded facts before at' status' place'
