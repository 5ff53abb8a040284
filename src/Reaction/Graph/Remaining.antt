-- ===== src/Reaction/Graph/Remaining.antt =====
-- `remaining` in the search counts the edges from the nodes that were not visited.
use rexec_op.Base.{
  ℕ, zero, suc, ◌+◌, ◌<◌, String, ◌≡◌, refl, sym, ap, subst, ◌∙◌, inl, inr, Bool, true, false, ◌&&◌,
  ◌||◌, List, [], ◌∷◌, ◌++◌, arith, ◌==◌, ==_refl, eq_iff, nat_eq, contains, contains-append,
  distinct, if◌then◌else◌, Bool-cases,
}
use rexec_op.Base.Int.{pos, eq_ℤ}
use rexec_op.Reaction.Traversal.{
  Nodes, has_node, Scan, roots, Search, pred_ℤ, release_one, release_all, add_to, visit, start,
}
use rexec_op.Reaction.Graph.Counting.{node_ids, contains-node_ids}
use rexec_op.Reaction.Graph.Edges.{count, open_edges, open_edges_visit, Counts}
use rexec_op.Reaction.Graph.Termination.{seen, IsOrderly, release_all-visited}
use rexec_op.Reaction.Graph.Walks.{contains-roots}

-- In the middle of a visit: the edges in `targets` are still to be taken off `remaining`, and
-- `left` counts the others.
pub record IsCounted (nodes : Nodes) (left : String → ℕ) (targets : List String) (s : Search)
    : Type 0 where
  pub counted : (v : String) → s.remaining v ≡ pos (left v + count v targets)
  pub waiting :
      (v : String) → seen s v ≡ false → has_node v nodes ≡ true → 0 < left v + count v targets

same_suc : (v : String) (n m : ℕ) → n + ((if v == v then 1 else 0) + m) ≡ suc (n + m)
same_suc v n m = rw (==_refl v) (omega arith)

other_plus : (n m : ℕ) → n + (0 + m) ≡ n + m
other_plus n m = omega arith

positive : (n : ℕ) → eq_ℤ (pos n) (pos 0) ≡ false → 0 < n
positive n h = ground arith

unseen_before :
    (s : Search) (target v : String) → seen (release_one s target) v ≡ false → seen s v ≡ false
unfolding release_one
unseen_before s target v h = elim (Bool-cases (eq_ℤ (pred_ℤ (s.remaining target)) (pos 0))) [
  | inl last ↦
      let after : (contains v (s.queue ++ target ∷ []) || contains v s.visited) ≡ false =
        rw last at h in
      ground (arith, after, contains-append v s.queue (target ∷ []))
  | inr more ↦ rw more at h
]

unseen_more :
    (s : Search) (target : String)
    → seen (release_one s target) target ≡ false
    → eq_ℤ (pred_ℤ (s.remaining target)) (pos 0) ≡ false
unfolding release_one
unseen_more s target h = elim (Bool-cases (eq_ℤ (pred_ℤ (s.remaining target)) (pos 0))) [
  | inl last ↦
      let after : (contains target (s.queue ++ target ∷ []) || contains target s.visited) ≡ false =
        rw last at h in
      absurd (
        clash (contains target s.queue)
          (ground (arith, after, contains-append target s.queue (target ∷ []), ==_refl target)))
  | inr more ↦ more
]
  where
    clash : (b : Bool) → (b || true) ≡ false → ⊥
    clash true h = cc
    clash false h = cc

release_one-IsCounted :
    (nodes : Nodes) (left : String → ℕ) (target : String) (targets : List String) (s : Search)
    → IsCounted nodes left (target ∷ targets) s
    → IsCounted nodes left targets (release_one s target)
unfolding release_one
release_one-IsCounted nodes left target targets s h = record {
  counted = counted;
  waiting = waiting;
}
  where
    lowered : pred_ℤ (s.remaining target) ≡ pos (left target + count target targets)
    lowered =
        ap pred_ℤ (h.counted target)
        ∙ ap (λ n. pred_ℤ (pos n)) (same_suc target (left target) (count target targets))

    counted : (v : String) → (release_one s target).remaining v ≡ pos (left v + count v targets)
    counted v = elim (Bool-cases (v == target)) [
      | inl same ↦ rw same (
          subst (λ x. pred_ℤ (s.remaining target) ≡ pos (left x + count x targets))
            (sym ((eq_iff v target).0 same)) lowered)
      | inr other ↦
          rw other ((rw other at (h.counted v)) ∙ ap pos (other_plus (left v) (count v targets)))
    ]

    waiting :
        (v : String)
        → seen (release_one s target) v ≡ false
        → has_node v nodes ≡ true
        → 0 < left v + count v targets
    waiting v unseen there = elim (Bool-cases (v == target)) [
      | inl same ↦
          let at = (eq_iff v target).0 same in
          let more =
            unseen_more s target (subst (λ x. seen (release_one s target) x ≡ false) at unseen) in
          subst (λ x. 0 < left x + count x targets) (sym at)
            (positive (left target + count target targets) (rw lowered at more))
      | inr other ↦
          let before : 0 < left v + (0 + count v targets) =
            rw other at (h.waiting v (unseen_before s target v unseen) there) in
          omega (arith, before)
    ]

release_all-IsCounted :
    (nodes : Nodes) (left : String → ℕ) (targets : List String) (s : Search)
    → IsCounted nodes left targets s
    → IsCounted nodes left [] (release_all s targets)
unfolding release_all
release_all-IsCounted nodes left [] s h = h
release_all-IsCounted nodes left (target ∷ targets) s h =
    release_all-IsCounted nodes left targets (release_one s target)
      (release_one-IsCounted nodes left target targets s h)

-- The edges from the nodes that a search has not visited.
abbrev pub open_to : Nodes → Scan → List String → String → ℕ
open_to nodes g gone v = open_edges g v gone (node_ids nodes)

plus_zero : (n : ℕ) → n + 0 ≡ n
plus_zero n = omega arith

module _ (nodes : Nodes) (g : Scan) (once : distinct (node_ids nodes) ≡ true) where
  pub visit-IsCounted :
      (s : Search) (current : String) (rest : List String)
      → IsOrderly nodes s
      → s.queue ≡ current ∷ rest
      → IsCounted nodes (open_to nodes g s.visited) [] s
      → IsCounted nodes
          (open_to nodes g (visit g s current rest).visited)
          []
          (visit g s current rest)
  visit-IsCounted s current rest o e h =
      let popped = record s { queue = rest; visited = add_to current s.visited } in
      subst (λ gone. IsCounted nodes (open_to nodes g gone) [] (visit g s current rest))
        (sym (release_all-visited popped (g.adjacency current) ∙ added))
        (release_all-IsCounted nodes (open_to nodes g (current ∷ s.visited)) (g.adjacency current)
          popped (record { counted = counted; waiting = waiting }))
    where
      at_head : seen s current ≡ true
      at_head = rw e (ground (arith, ==_refl current))

      new : contains current s.visited ≡ false
      new = o.apart current (rw e (ground (arith, ==_refl current)))

      added : add_to current s.visited ≡ current ∷ s.visited
      added = rw new refl

      opened :
          (v : String)
          → open_to nodes g s.visited v + 0
            ≡ open_to nodes g (current ∷ s.visited) v + count v (g.adjacency current)
      opened v =
          let split =
            open_edges_visit g v current s.visited (node_ids nodes) once
              (contains-node_ids current nodes ∙ o.within current at_head) new in
          omega (arith, split)

      counted :
          (v : String)
          → s.remaining v
            ≡ pos (open_to nodes g (current ∷ s.visited) v + count v (g.adjacency current))
      counted v = h.counted v ∙ ap pos (opened v)

      waiting :
          (v : String)
          → (contains v rest || contains v (add_to current s.visited)) ≡ false
          → has_node v nodes ≡ true
          → 0 < open_to nodes g (current ∷ s.visited) v + count v (g.adjacency current)
      waiting v unseen there =
          let apart : (contains v rest || contains v (current ∷ s.visited)) ≡ false =
            rw added at unseen in
          let before : seen s v ≡ false = rw e (ground (arith, apart)) in
          omega (arith, h.waiting v before there, opened v)

module _ (nodes : Nodes) (g : Scan) (root : String) where
  pub start-IsCounted :
      Counts nodes g
      → roots g nodes ≡ root ∷ []
      → IsCounted nodes (open_to nodes g []) [] (start g root)
  start-IsCounted counts one = record { counted = counted; waiting = waiting }
    where
      counted : (v : String) → pos (g.indegree v) ≡ pos (open_to nodes g [] v + 0)
      counted v = ap pos (counts v ∙ sym (plus_zero (open_to nodes g [] v)))

      waiting :
          (v : String)
          → seen (start g root) v ≡ false
          → has_node v nodes ≡ true
          → 0 < open_to nodes g [] v + 0
      waiting v unseen there =
          let none_in : (has_node v nodes && nat_eq (g.indegree v) 0) ≡ false =
            sym (contains-roots g nodes v) ∙ ap (contains v) one ∙ ground (arith, unseen) in
          positive_in v (not_zero (g.indegree v) (ground (arith, none_in, there)))
        where
          not_zero : (n : ℕ) → nat_eq n 0 ≡ false → 0 < n
          not_zero zero h = cc
          not_zero (suc n) h = omega arith

          positive_in : (v : String) → 0 < g.indegree v → 0 < open_to nodes g [] v + 0
          positive_in v h = omega (arith, h, counts v)
