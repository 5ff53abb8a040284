-- ===== src/Queue/Claims/Places.antt =====
-- Where a queued operation stands, and that a discarded one is gone.
use rexec_op.Base.{
  ℕ, String, ◌≡◌, refl, true, false, some, none, List, [], ◌∷◌, ◌++◌, arith, ==_refl, ok, >>=-eq-ok,
  >>-eq-ok, raise_if-eq_ok, ok-injective, Bool-cases, inl, inr, subst, sym, commit-eq_ok,
}
use rexec_op.Base.Actions.{returned}
use rexec_op.Json.{Value, str, get, JsonFile}
use rexec_op.Json.Python.{Python}
use rexec_op.Queue.Store.{
  QueueData, in_pending, index_of, drop_all, load, saved, position, list_pending,
}
use rexec_op.Queue.Store.RoundTrip.{load-saved, load_checks}
use rexec_op.Queue.Topology.{require_topology, has_claim_status, validate_public_mutation}
use rexec_op.Queue.Claims.{
  kept, stored, run_change, enqueue, enqueue_change, discard_pending, discard_pending_change,
}

in_pending-append_self :
    (id : String) (pending : List Value) → in_pending id (pending ++ str id ∷ []) ≡ true
in_pending-append_self id [] = ground (arith, ==_refl id)
in_pending-append_self id (v ∷ vs) = ground (arith, in_pending-append_self id vs)

in_pending-drop_all :
    (id : String) (pending : List Value) → in_pending id (drop_all id pending) ≡ false
in_pending-drop_all id [] = refl
in_pending-drop_all id (v ∷ vs) = ground (arith, in_pending-drop_all id vs)

module _ ⦃py : Python⦄ where
  position_in :
      (id : String) (file : JsonFile) {q : QueueData}
      → load file ≡ ok q
      → in_pending id q.pending ≡ true
      → position id file ≡ ok (some (index_of id q.pending))
  unfolding position list_pending
  position_in id file loads there = rw (loads, there)

  -- An operation that was queued stands at the place that the call returned.
  pub position-enqueue :
      (id : String) (now : ℕ) (file : JsonFile) {place : ℕ} {file' : JsonFile}
      → enqueue id now file ≡ (ok place, file')
      → position id file' ≡ ok (some place)
  unfolding enqueue enqueue_change
  position-enqueue id now file {place} {file'} h =
      let (change, found, left) = commit-eq_ok (enqueue_change id file) (run_change now) file h in
      let (q, loads, found₁) = >>=-eq-ok (load file) _ found in
      let (_, found₂) = >>-eq-ok (require_topology q) _ found₁ in
      let (_, found₃) = raise_if-eq_ok (has_claim_status "claimed" (get id q.claims)) _ _ found₂ in
      elim (Bool-cases (in_pending id q.pending)) [
        | inl there ↦
            let made : kept (index_of id q.pending) ≡ change = ok-injective (rw there at found₃) in
            let (same, end) =
              returned (subst (λ c. run_change now c file ≡ (ok place, file')) (sym made) left) in
            rw (same, end) (position_in id file loads there)
        | inr new ↦
            let longer = record q { pending = q.pending ++ str id ∷ [] } in
            let made : stored longer (index_of id longer.pending) ≡ change =
              ok-injective (rw new at found₃) in
            let (same, end) =
              returned (subst (λ c. run_change now c file ≡ (ok place, file')) (sym made) left) in
            rw (same, end)
              (position_in id (saved longer now) (load-saved longer now (load_checks file loads))
                (in_pending-append_self id q.pending))
      ]

  -- An operation that was discarded is not queued.
  pub position-discard_pending :
      (id : String) (now : ℕ) (file : JsonFile) {file' : JsonFile}
      → discard_pending id now file ≡ (ok tt, file')
      → position id file' ≡ ok none
  unfolding discard_pending discard_pending_change position list_pending
  position-discard_pending id now file {file'} h =
      let (change, found, left) =
        commit-eq_ok (discard_pending_change id file) (run_change now) file h in
      let (q, loads, found₁) = >>=-eq-ok (load file) _ found in
      let (_, found₂) = >>-eq-ok (validate_public_mutation q) _ found₁ in
      elim (Bool-cases (in_pending id q.pending)) [
        | inl there ↦
            let shorter = record q { pending = drop_all id q.pending } in
            let made : stored shorter tt ≡ change = ok-injective (rw there at found₂) in
            let (_, end) =
              returned (subst (λ c. run_change now c file ≡ (ok tt, file')) (sym made) left) in
            rw (
              end,
              load-saved shorter now (load_checks file loads),
              in_pending-drop_all id q.pending,
            )
        | inr absent ↦
            let made : kept tt ≡ change = ok-injective (rw absent at found₂) in
            let (_, end) =
              returned (subst (λ c. run_change now c file ≡ (ok tt, file')) (sym made) left) in
            rw (end, loads, absent)
      ]
