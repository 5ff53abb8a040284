-- ===== src/Operation/State/Graph.antt =====
-- The transition table as a relation, and what its paths pass through.
use rexec_op.Base.{
  sym, ap, subst, ◌∙◌, List, [], ◌∷◌, ◌++◌, ◌>>=◌, raise_if-eq_ok, ok-injective, not, any,
  state_error, ◌≡◌, refl, ◌≢◌, ◌↔◌, ◌⊎◌, inl, inr, Bool, some, arith, ok, Result, >>=-eq-ok,
}
use rexec_op.Operation.State.{
  OperationState, created, planned, blocked, waiting_for_approval, approved, running, paused,
  resuming, retrying, validating, completed, failed, cancelled, escalated, value, of_text, StateArg,
  state_eq, as_state, state, validate_transition, allowed_transitions,
}

infix 40 ◌⟶◌ ◌⟶*◌
pub data ◌⟶◌ : OperationState → OperationState → Type 0 where
  plan : created ⟶ planned
  block : planned ⟶ blocked
  ask : planned ⟶ waiting_for_approval
  admit : planned ⟶ approved
  approve : waiting_for_approval ⟶ approved
  withdraw : waiting_for_approval ⟶ cancelled
  start : approved ⟶ running
  revoke : approved ⟶ cancelled
  pause : running ⟶ paused
  retry : running ⟶ retrying
  validate : running ⟶ validating
  fail : running ⟶ failed
  cancel : running ⟶ cancelled
  resume : paused ⟶ resuming
  drop : paused ⟶ cancelled
  resumed : resuming ⟶ running
  retried : retrying ⟶ running
  pass : validating ⟶ completed
  reject : validating ⟶ failed
  escalate : failed ⟶ escalated
  recover : failed ⟶ retrying
  escalate_blocked : blocked ⟶ escalated

pub data ◌⟶*◌ (s : OperationState) : OperationState → Type 0 where
  here : s ⟶* s
  then : {t u : OperationState} → s ⟶* t → t ⟶ u → s ⟶* u

pub of_text-value : (s : OperationState) → of_text (value s) ≡ some s
unfolding of_text
of_text-value created = refl
of_text-value _ = refl

-- An accepted pair is an edge.
accepted-⟶ : (s t : OperationState) → validate_transition (state s) (state t) ≡ ok t → s ⟶ t
unfolding validate_transition
accepted-⟶ created planned h = plan
accepted-⟶ planned blocked h = block
accepted-⟶ planned waiting_for_approval h = ask
accepted-⟶ planned approved h = admit
accepted-⟶ waiting_for_approval approved h = approve
accepted-⟶ waiting_for_approval cancelled h = withdraw
accepted-⟶ approved running h = start
accepted-⟶ approved cancelled h = revoke
accepted-⟶ running paused h = pause
accepted-⟶ running retrying h = retry
accepted-⟶ running validating h = validate
accepted-⟶ running failed h = fail
accepted-⟶ running cancelled h = cancel
accepted-⟶ paused resuming h = resume
accepted-⟶ paused cancelled h = drop
accepted-⟶ resuming running h = resumed
accepted-⟶ retrying running h = retried
accepted-⟶ validating completed h = pass
accepted-⟶ validating failed h = reject
accepted-⟶ failed escalated h = escalate
accepted-⟶ failed retrying h = recover
accepted-⟶ blocked escalated h = escalate_blocked
accepted-⟶ completed created h = cc
accepted-⟶ cancelled created h = cc
accepted-⟶ escalated created h = cc
accepted-⟶ _ _ h = cc

⟶-accepted : {s t : OperationState} → s ⟶ t → validate_transition (state s) (state t) ≡ ok t
unfolding validate_transition
⟶-accepted plan = refl
⟶-accepted _ = refl

abbrev refused : OperationState → OperationState → Bool
refused s u = not (any (state_eq u) (allowed_transitions s))

edge_of_ok :
    (s u : OperationState) {t : OperationState}
    → validate_transition (state s) (state u) ≡ ok t
    → (u ≡ t) × (s ⟶ u)
unfolding validate_transition
edge_of_ok s u h =
    let (passed, same) = raise_if-eq_ok (refused s u) (state_error "invalid transition") (ok u) h in
    (ok-injective same, accepted-⟶ s u (rw passed))

-- A call on any two arguments comes down to a call on the states that they stand for.
validate_transition-eq_ok :
    (a b : StateArg) {t : OperationState}
    → validate_transition a b ≡ ok t
    → (s : OperationState) × (as_state a ≡ ok s) × (as_state b ≡ ok t) × (s ⟶ t)
unfolding validate_transition
validate_transition-eq_ok a b h =
    let (s, ea, h₁) = >>=-eq-ok (as_state a) _ h in
    let (u, eb, h₂) = >>=-eq-ok (as_state b) _ h₁ in
    let (same, edge) = edge_of_ok s u h₂ in (s, ea, eb ∙ ap ok same, subst (λ x. s ⟶ x) same edge)

called :
    (a b : StateArg) {s t : OperationState}
    → as_state a ≡ ok s
    → as_state b ≡ ok t
    → validate_transition (state s) (state t) ≡ ok t
    → validate_transition a b ≡ ok t
unfolding validate_transition
called a b ea eb h = rw (ea, eb) h

-- `validate_transition` accepts a pair of states or of their texts exactly when the texts name
-- states and an edge of the lifecycle graph leads from the first to the second, and it returns the
-- second.
pub validate_transition_iff :
    (a b : StateArg) (t : OperationState)
    → (validate_transition a b ≡ ok t)
      ↔ ((s : OperationState) × (as_state a ≡ ok s) × (as_state b ≡ ok t) × (s ⟶ t))
validate_transition_iff a b t =
    (validate_transition-eq_ok a b, λ (s, ea, eb, edge). called a b ea eb (⟶-accepted edge))

-- The states in which an operation has begun to execute.
pub data HasStarted : OperationState → Type 0 where
  running_started : HasStarted running
  paused_started : HasStarted paused
  resuming_started : HasStarted resuming
  retrying_started : HasStarted retrying
  validating_started : HasStarted validating
  completed_started : HasStarted completed
  failed_started : HasStarted failed

-- What leads into a started state: another one, or `approved`.
before_started : {s t : OperationState} → s ⟶ t → HasStarted t → (s ≡ approved) ⊎ HasStarted s
before_started start h = inl refl
before_started pause h = inr running_started
before_started retry h = inr running_started
before_started validate h = inr running_started
before_started fail h = inr running_started
before_started resume h = inr paused_started
before_started resumed h = inr resuming_started
before_started retried h = inr retrying_started
before_started pass h = inr validating_started
before_started reject h = inr validating_started
before_started recover h = inr failed_started
before_started plan h = elim h [ ]
before_started block h = elim h [ ]
before_started ask h = elim h [ ]
before_started admit h = elim h [ ]
before_started approve h = elim h [ ]
before_started withdraw h = elim h [ ]
before_started revoke h = elim h [ ]
before_started cancel h = elim h [ ]
before_started drop h = elim h [ ]
before_started escalate h = elim h [ ]
before_started escalate_blocked h = elim h [ ]

-- The states that no transition leaves.
abbrev pub IsFinal : OperationState → Type 0
IsFinal s = (s ≡ completed) ⊎ ((s ≡ cancelled) ⊎ (s ≡ escalated))

-- A state with no entry in the table is final, and conversely.
pub allowed_transitions-eq-nil : (s : OperationState) → (allowed_transitions s ≡ []) ↔ IsFinal s
unfolding allowed_transitions
allowed_transitions-eq-nil s = (λ h. ground arith, λ h. ground arith)

no_edge_from_final : {s t : OperationState} → IsFinal s → s ⟶ t → ⊥
no_edge_from_final h plan = ground arith
no_edge_from_final h _ = ground arith

-- A state reached from a final one is that state.
final_absorbs : {s t : OperationState} → IsFinal s → s ⟶* t → t ≡ s
final_absorbs h here = refl
final_absorbs h (then p e) =
    absurd (no_edge_from_final (subst IsFinal (sym (final_absorbs h p)) h) e)

-- The record of a lifecycle: `validate_transition` applied to each recorded change in turn.
unfoldable pub run_transitions : OperationState → List StateArg → Result OperationState
run_transitions s [] = ok s
run_transitions s (a ∷ rest) = do t ← validate_transition (state s) a; run_transitions t rest

-- The accepted calls, from a first one that led to `approved`, or with none before them.
record IsApproved (s : OperationState) (calls : List StateArg) (t : OperationState) : Type 0 where
  before : List StateArg
  after : List StateArg
  split : calls ≡ before ++ after
  approves : run_transitions s before ≡ ok approved
  leads_on : run_transitions approved after ≡ ok t

-- Accepted calls that end in a started state began in one, or passed `approved`.
started-IsApproved :
    (s : OperationState) (calls : List StateArg) {t : OperationState}
    → run_transitions s calls ≡ ok t
    → HasStarted t
    → HasStarted s ⊎ IsApproved s calls t
unfolding run_transitions
started-IsApproved s [] h started = inl (subst HasStarted (sym (ok-injective h)) started)
started-IsApproved s (a ∷ calls) {t} h started =
    let (u, accepted, h₁) = >>=-eq-ok (validate_transition (state s) a) _ h in
    let (s', same, _, edge) = validate_transition-eq_ok (state s) a accepted in
    elim (started-IsApproved u calls h₁ started) [
      | inr p ↦ inr (record {
        before = a ∷ p.before;
        after = p.after;
        split = ap (λ l. a ∷ l) p.split;
        approves = rw accepted p.approves;
        leads_on = p.leads_on;
      })
      | inl begun ↦
          elim (before_started (subst (λ x. x ⟶ u) (sym (ok-injective same)) edge) begun) [
            | inr earlier ↦ inl earlier
            | inl at_approved ↦ inr (record {
              before = [];
              after = a ∷ calls;
              split = refl;
              approves = ap (λ x. ok x) at_approved;
              leads_on = subst (λ x. run_transitions x (a ∷ calls) ≡ ok t) at_approved h;
            })
          ]
    ]

-- When calls of `validate_transition`, each from the state that the one before it returned, are
-- accepted from CREATED on and end in a state of execution, then some of these calls, taken from the
-- first on, end in APPROVED, and the others lead on from there.
pub lifecycle :
    (calls : List StateArg) {t : OperationState}
    → run_transitions created calls ≡ ok t
    → HasStarted t
    → (before : List StateArg) × (after : List StateArg) × (calls ≡ before ++ after)
      × (run_transitions created before ≡ ok approved)
      × (run_transitions approved after ≡ ok t)
lifecycle calls h started = elim (started-IsApproved created calls h started) [
  | inl none_yet ↦ elim none_yet [ ]
  | inr p ↦ (p.before, p.after, p.split, p.approves, p.leads_on)
]

-- No call of `validate_transition` from COMPLETED, CANCELLED or ESCALATED is accepted, whatever its
-- target.
pub final_refuses :
    (s : OperationState) (a : StateArg) {t : OperationState}
    → IsFinal s
    → validate_transition (state s) a ≢ ok t
final_refuses s a h accepted =
    let (s', same, _, edge) = validate_transition-eq_ok (state s) a accepted in
    no_edge_from_final (subst IsFinal (ok-injective same) h) edge
