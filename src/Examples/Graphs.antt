-- ===== src/Examples/Graphs.antt =====
-- An automation graph of an operation and its observation.
use rexec_op.Base.{String, ◌≡◌, refl, [], ◌∷◌, ok, true, length}
use rexec_op.Base.Int.{pos}
use rexec_op.Json.{str, int, obj, arr, of_list, Fields, end, field}
use rexec_op.Reaction.Graph.{Graph, transition_of, depth_of, verify, read_graph, report}
use rexec_op.Reaction.Traversal.{no_edges, link, has_node}
use rexec_op.Reaction.Graph.Walks.{Walk, verify_acyclic}
use rexec_op.Reaction.Graph.Soundness.{Joins}
use rexec_op.Reaction.Graph.Complete.{verify_total}
use rexec_op.Examples.Toy.{toy}

abbrev first_node : Fields
first_node = field "node_id" (str "a") (
    field "node_type" (str "operation")
      (field "depth" (int (pos 0)) (field "operation_id" (str "op1") end)))

abbrev second_node : Fields
second_node =
    field "node_id" (str "b")
      (field "node_type" (str "observation") (field "depth" (int (pos 0)) end))

abbrev edge : Fields
edge = field "edge_id" (str "e") (
    field "edge_type" (str "observed")
      (field "from_node" (str "a") (field "to_node" (str "b") (field "depth" (int (pos 0)) end))))

abbrev chain : Fields
chain = field "source_operation_id" (str "op1") (
    field "nodes" (arr (of_list (obj first_node ∷ obj second_node ∷ [])))
      (field "edges" (arr (of_list (obj edge ∷ []))) end))

abbrev graph : Graph
graph = record {
  nodes = ("a", first_node) ∷ ("b", second_node) ∷ [];
  scan = link "a" "b" "e" [] no_edges;
  root = "a";
}

chain_read : read_graph chain ≡ ok graph
unfolding read_graph transition_of depth_of
chain_read = refl

chain_accepted : verify chain ≡ ok (report 2 1 "a")
unfolding verify transition_of depth_of
chain_accepted = refl

verify_acyclic_example :
    (g : Graph) × (read_graph chain ≡ ok g)
    × ((u v : String) → Walk g.scan u v → ¬ Joins g.scan v u)
    × ((v : String) → has_node v g.nodes ≡ true → Walk g.scan g.root v)
verify_acyclic_example = verify_acyclic chain chain_accepted

verify_total_example :
    verify chain ≡ ok (report (length graph.nodes) (length graph.scan.edge_ids) graph.root)
verify_total_example = verify_total chain chain_read
