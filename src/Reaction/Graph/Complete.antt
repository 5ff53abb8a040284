-- ===== src/Reaction/Graph/Complete.antt =====
-- The search reaches each node of a graph that passed the earlier checks.
use rexec_op.Base.{
  ℕ, zero, suc, ◌+◌, ◌≤◌, ◌<◌, String, ◌≡◌, refl, sym, ◌∙◌, inl, inr, Bool, true, false, some, List,
  [], ◌∷◌, arith, nat_eq_refl, contains, distinct, length, ok, Bool-cases,
}
use rexec_op.Json.{Fields}
use rexec_op.Json.Python.{Python}
use rexec_op.Reaction.Traversal.{Nodes, has_node, Scan, Search, visit, search, start}
use rexec_op.Reaction.Graph.{Graph, read_graph, verify, report}
use rexec_op.Reaction.Graph.Soundness.{rank, IsSound, IsRead, read_graph-IsRead, IsRead-IsSound}
use rexec_op.Reaction.Graph.Counting.{node_ids, contains-node_ids, length-node_ids, length_within}
use rexec_op.Reaction.Graph.Edges.{open_edges_pos, IsRead-Counts}
use rexec_op.Reaction.Graph.Termination.{
  IsOrderly, visit-IsOrderly, start-IsOrderly, visited_within,
}
use rexec_op.Reaction.Graph.Remaining.{IsCounted, open_to, visit-IsCounted, start-IsCounted}

both : {b : Bool} → b ≡ true → b ≡ false → ⊥
both p q = cc

module _ (nodes : Nodes) (g : Scan) (once : distinct (node_ids nodes) ≡ true) where
  reaches :
      (fuel : ℕ) (s : Search) (queue : List String)
      → IsSound nodes g
      → IsOrderly nodes s
      → IsCounted nodes (open_to nodes g s.visited) [] s
      → s.queue ≡ queue
      → length nodes ≤ fuel + length s.visited
      → (s' : Search) × (search fuel g s ≡ some s')
        × (s'.queue ≡ [])
        × IsOrderly nodes s'
        × IsCounted nodes (open_to nodes g s'.visited) [] s'
  unfolding search
  reaches zero s [] sound o h e enough = (s, rw e refl, e, o, h)
  reaches (suc fuel) s [] sound o h e enough = (s, rw e refl, e, o, h)
  reaches zero s (current ∷ rest) sound o h e enough =
      let (next, more) = visit-IsOrderly nodes g s current rest sound e o in
      absurd (omega (arith, visited_within nodes _ next, more))
  reaches (suc fuel) s (current ∷ rest) sound o h e enough =
      let (next, more) = visit-IsOrderly nodes g s current rest sound e o in
      rw e (
        reaches fuel (visit g s current rest) (visit g s current rest).queue sound next
          (visit-IsCounted nodes g once s current rest o e h) refl (omega (arith, more)))

  unvisited_before :
      (v : String) (s : Search)
      → IsSound nodes g
      → s.queue ≡ []
      → IsCounted nodes (open_to nodes g s.visited) [] s
      → has_node v nodes ≡ true
      → contains v s.visited ≡ false
      → (u : String) × (contains u s.visited ≡ false)
        × (suc (rank nodes u) ≡ rank nodes v)
        × (has_node u nodes ≡ true)
  unvisited_before v s sound empty h there not_yet =
      let open' : 0 < open_to nodes g s.visited v + 0 = h.waiting v (rw empty not_yet) there in
      let (u, _, missed, joins) =
        open_edges_pos g v s.visited (node_ids nodes) (omega (arith, open')) in
      let edge = sound.checked u v joins in (u, missed, sym edge.climbs, edge.source_in)

  -- A node that was not visited has an edge from one that was not either, and types go down.
  all_visited :
      (n : ℕ) (v : String) (s : Search)
      → IsSound nodes g
      → s.queue ≡ []
      → IsCounted nodes (open_to nodes g s.visited) [] s
      → rank nodes v ≡ n
      → has_node v nodes ≡ true
      → contains v s.visited ≡ true
  all_visited zero v s sound empty h r there = elim (Bool-cases (contains v s.visited)) [
    | inl visited ↦ visited
    | inr not_yet ↦
        let (u, _, climbs, _) = unvisited_before v s sound empty h there not_yet in
        absurd (omega (arith, climbs, r))
  ]
  all_visited (suc n) v s sound empty h r there = elim (Bool-cases (contains v s.visited)) [
    | inl visited ↦ visited
    | inr not_yet ↦
        let (u, missed, climbs, in') = unvisited_before v s sound empty h there not_yet in
        absurd (both (all_visited n u s sound empty h (omega (arith, climbs, r)) in') missed)
  ]

module _ ⦃py : Python⦄ where
  all_reached :
      {g : Graph}
      → IsRead g
      → (s : Search) × (search (length g.nodes) g.scan (start g.scan g.root) ≡ some s)
        × (length s.visited ≡ length g.nodes)
  all_reached {g} h =
      let (sound, one) = IsRead-IsSound h in
      let (counts, once) = IsRead-Counts h in
      let (s, found, empty, orderly, counted) =
        reaches g.nodes g.scan once (length g.nodes) (start g.scan g.root) (g.root ∷ []) sound
          (start-IsOrderly g.nodes g.scan g.root one)
          (start-IsCounted g.nodes g.scan g.root counts one) refl (omega arith) in
      let most = length_within (node_ids g.nodes) s.visited once (λ v p.
        all_visited g.nodes g.scan once (rank g.nodes v) v s sound empty counted refl
          (sym (contains-node_ids v g.nodes) ∙ p)) in
      (s, found, omega (arith, most, length-node_ids g.nodes, visited_within g.nodes s orderly))

  -- A graph that passes the checks on its nodes, edges and roots is accepted: the search ends
  -- within as many rounds as there are nodes, it visits every node, and the report counts them.
  pub verify_total :
      (chain : Fields) {g : Graph}
      → read_graph chain ≡ ok g
      → verify chain ≡ ok (report (length g.nodes) (length g.scan.edge_ids) g.root)
  unfolding verify
  verify_total chain {g} h =
      let (s, found, every) = all_reached (read_graph-IsRead chain h) in
      rw (h, found, every, nat_eq_refl (length g.nodes)) refl
