-- ===== src/Queue/Store/RoundTrip.antt =====
-- What is saved is loaded again.
use rexec_op.Base.{
  ℕ, String, ◌≡◌, refl, ◌==◌, ok, Bool-cases, inl, inr, >>=-eq-ok, >>-eq-ok, subst, ok-injective,
}
use rexec_op.Json.{
  Value, obj, Fields, end, field, get, put, pop, JsonFile, missing, unreadable, readable,
}
use rexec_op.Json.Laws.{to_list-of_list}
use rexec_op.Json.Python.{Python}
use rexec_op.Queue.Store.{QueueData, load, saved, check_claim, check_claims, claims_of, pending_of}

module _ ⦃py : Python⦄ where
  -- Data whose claims pass the check of their transition records is read back as it was saved.
  pub load-saved :
      (q : QueueData) (now : ℕ) → check_claims q.claims ≡ ok tt → load (saved q now) ≡ ok q
  unfolding load
  load-saved q now h = rw (h, to_list-of_list q.pending)

  pub load_checks :
      (file : JsonFile) {q : QueueData} → load file ≡ ok q → check_claims q.claims ≡ ok tt
  unfolding load check_claims
  load_checks missing h = subst (λ q. check_claims q.claims ≡ ok tt) (ok-injective h) refl
  load_checks unreadable h = cc
  load_checks (readable (obj d)) h =
      let (w, ew, h₁) = >>=-eq-ok (pending_of (get "pending" d)) _ h in
      let (c, ec, h₂) = >>=-eq-ok (claims_of (get "claims" d)) _ h₁ in
      let (checked, same) =
        >>-eq-ok (check_claims c) (ok (record { pending = w; claims = c })) h₂ in
      subst (λ q. check_claims q.claims ≡ ok tt) (ok-injective same) checked
  load_checks (readable _) h = cc

  pub check_claims-put :
      (k : String) (v : Value) (d : Fields)
      → check_claim v ≡ ok tt
      → check_claims d ≡ ok tt
      → check_claims (put k v d) ≡ ok tt
  unfolding check_claims
  check_claims-put k v end hv hd = rw hv
  check_claims-put k v (field j w d) hv hd =
      let (hw, rest) = >>-eq-ok (check_claim w) (check_claims d) hd in
      elim (Bool-cases (k == j)) [
        | inl same ↦ rw (same, hv) rest
        | inr other ↦ rw (other, hw) (check_claims-put k v d hv rest)
      ]

  pub check_claims-pop :
      (k : String) (d : Fields) → check_claims d ≡ ok tt → check_claims (pop k d) ≡ ok tt
  unfolding check_claims
  check_claims-pop k end h = refl
  check_claims-pop k (field j w d) h =
      let (hw, rest) = >>-eq-ok (check_claim w) (check_claims d) h in
      elim (Bool-cases (k == j)) [
        | inl same ↦ rw same rest
        | inr other ↦ rw (other, hw) (check_claims-pop k d rest)
      ]
