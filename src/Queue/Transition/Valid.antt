-- ===== src/Queue/Transition/Valid.antt =====
-- Every transition record that the queue writes passes the check that its loader makes.
use Prim.Native.Nat.{min}
use Prim.Native.String.{count}
use rexec_op.Base.{
  ℕ, ◌-◌, ◌≤◌, String, ◌≡◌, refl, Bool, true, false, ◌||◌, List, [], ◌∷◌, arith, ◌==◌, Bool-cases,
  inl, inr, ltb,
}
use rexec_op.Json.{Value}
use rexec_op.Json.Python.{Python}
use rexec_op.Queue.Checks.{valid_identity_text, has_line_break, max_transition_identity_length}
use rexec_op.Queue.Transition.{bounded_identity, status_counts, total_counts, count_status}

-- No more attempts are counted than may be.
pub total-status_counts :
    (ss : List String) (r : ℕ) (vs : List Value) → total_counts (status_counts ss r vs) ≤ r
unfolding status_counts
total-status_counts [] r vs = omega arith
total-status_counts (s ∷ ss) r vs =
    omega (arith, total-status_counts ss (r - min (count_status s vs) r) vs)

abbrev unbounded : String → Bool
unfolding has_line_break
unbounded s = s == "" || (ltb max_transition_identity_length (count s) || has_line_break s)

unbounded_no : (s : String) → unbounded s ≡ false → valid_identity_text s ≡ true
unfolding valid_identity_text
unbounded_no s h = ground arith

-- What `_bounded_identity` returns is a valid identity.
pub bounded_identity_valid : (s : String) → valid_identity_text (bounded_identity s) ≡ true
unfolding bounded_identity
bounded_identity_valid s = elim (Bool-cases (unbounded s)) [
  | inl yes' ↦ rw yes' placeholder
  | inr fits ↦ rw fits (unbounded_no s fits)
]
  where
    placeholder : valid_identity_text "invalid" ≡ true
    placeholder = unfold valid_identity_text in refl
