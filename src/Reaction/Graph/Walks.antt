-- ===== src/Reaction/Graph/Walks.antt =====
-- What an accepted automation graph looks like: it has no cycle, and each node is reached from the
-- root.
use rexec_op.Base.{
  ℕ, zero, suc, ◌≤◌, String, ◌≡◌, refl, sym, subst, inl, inr, true, ◌&&◌, [], ◌∷◌, arith, eq_iff,
  nat_eq, contains, ok, Bool-cases, >>=-eq-ok,
}
use rexec_op.Json.{Fields}
use rexec_op.Json.Python.{Python}
use rexec_op.Reaction.Graph.{Graph, read_graph, verify}
use rexec_op.Reaction.Traversal.{Nodes, has_node, Scan, roots}
use rexec_op.Reaction.Graph.Soundness.{rank, Joins, IsSound, read_graph-IsRead, IsRead-IsSound}

-- The walks along the edges.
pub data Walk (s : Scan) (u : String) : String → Type 0 where
  here : Walk s u u
  step : {v w : String} → Walk s u v → Joins s v w → Walk s u w

walk_climbs :
    (nodes : Nodes) (s : Scan) {u v : String}
    → IsSound nodes s
    → Walk s u v
    → rank nodes u ≤ rank nodes v
walk_climbs nodes s h here = omega arith
walk_climbs nodes s {u} h (step {v} {w} p j) =
    let edge = h.checked v w j in omega (arith, walk_climbs nodes s h p, edge.climbs)

pub contains-roots :
    (s : Scan) (nodes : Nodes) (v : String)
    → contains v (roots s nodes) ≡ (has_node v nodes && nat_eq (s.indegree v) 0)
contains-roots s [] v = refl
contains-roots s ((id, d) ∷ rest) v = ground (arith, eq_iff v id, contains-roots s rest v, has_here)
  where
    has_here : v ≡ id → nat_eq (s.indegree v) 0 ≡ nat_eq (s.indegree id) 0
    has_here e = rw e

only_root :
    (s : Scan) (nodes : Nodes) (root v : String)
    → roots s nodes ≡ root ∷ []
    → has_node v nodes ≡ true
    → nat_eq (s.indegree v) 0 ≡ true
    → v ≡ root
only_root s nodes root v one there free =
    let found = rw one at (contains-roots s nodes v) in (eq_iff v root).0 (ground (arith, found))

-- With one root, each node is reached from it: going back along edges the types go down.
reached :
    (nodes : Nodes) (s : Scan) (root : String) (n : ℕ) (v : String)
    → IsSound nodes s
    → roots s nodes ≡ root ∷ []
    → rank nodes v ≡ n
    → has_node v nodes ≡ true
    → Walk s root v
reached nodes s root zero v h one r there = elim (Bool-cases (nat_eq (s.indegree v) 0)) [
  | inl free ↦ subst (λ x. Walk s root x) (sym (only_root s nodes root v one there free)) here
  | inr more ↦
      let (u, j) = h.entered v more in
      let edge = h.checked u v j in absurd (omega (arith, edge.climbs))
]
reached nodes s root (suc n) v h one r there = elim (Bool-cases (nat_eq (s.indegree v) 0)) [
  | inl free ↦ subst (λ x. Walk s root x) (sym (only_root s nodes root v one there free)) here
  | inr more ↦
      let (u, j) = h.entered v more in
      let edge = h.checked u v j in
      step (reached nodes s root n u h one (omega (arith, edge.climbs)) edge.source_in) j
]

module _ ⦃py : Python⦄ where
  -- A chain that is accepted is read as a graph with no cycle, in which a walk leads from the root
  -- to each node.
  pub verify_acyclic :
      (chain : Fields) {report' : Fields}
      → verify chain ≡ ok report'
      → (g : Graph) × (read_graph chain ≡ ok g)
        × ((u v : String) → Walk g.scan u v → ¬ Joins g.scan v u)
        × ((v : String) → has_node v g.nodes ≡ true → Walk g.scan g.root v)
  unfolding verify
  verify_acyclic chain h =
      let (g, read, _) = >>=-eq-ok (read_graph chain) _ h in
      let (sound, one) = IsRead-IsSound (read_graph-IsRead chain read) in
      (
        g,
        read,
        λ u v walk back.
            let edge = sound.checked v u back in
            omega (arith, walk_climbs g.nodes g.scan sound walk, edge.climbs),
        λ v there. reached g.nodes g.scan g.root (rank g.nodes v) v sound one refl there,
      )
