-- ===== src/Reaction/Graph.antt =====
-- reaction/automation_graph.py: `verify_runtime_automation_graph`.
-- A chain is the JSON object that the function is given. Its graph and the search of it are in
-- Reaction/Traversal.
pub mod Soundness
pub mod Walks
pub mod Counting
pub mod Termination
pub mod Edges
pub mod Remaining
pub mod Complete
use rexec_op.Base.{
  ℕ, zero, suc, ◌+◌, String, Bool, true, false, not, ◌&&◌, ◌||◌, Option, none, some, List, [], ◌∷◌,
  ◌++◌, ◌==◌, nat_eq, contains, length, if◌then◌else◌, Result, ok, err, builtin_error,
  validation_error, ◌>>=◌, ◌>>◌, raise_if,
}
use rexec_op.Base.Int.{ℤ, pos, negsuc, eq_ℤ}
use rexec_op.Json.{
  Value, int, str, arr, obj, Items, Fields, end, field, get, is_text, to_list, of_list,
}
use rexec_op.Json.Python.{Python, text}
use rexec_op.Reaction.Traversal.{
  Nodes, has_node, node, Scan, no_edges, link, roots, Search, pred_ℤ, release_one, release_all,
  add_to, visit, search, start,
}

-- One row of _TRANSITIONS.
pub record Transition : Type 0 where
  pub source_type : String
  pub target_type : String
  pub depth_delta : ℕ

abbrev transition : String → String → ℕ → Option Transition
transition s t n = some (record { source_type = s; target_type = t; depth_delta = n })

-- `_TRANSITIONS.get(edge_type)`
unfoldable pub transition_of : String → Option Transition
transition_of edge_type =
    if edge_type == "observed"
    then transition "operation" "observation" 0
    else if edge_type == "detected"
    then transition "observation" "finding" 0
    else if edge_type == "planned_reaction"
    then transition "finding" "reaction_plan" 0
    else if edge_type == "admitted_child"
    then transition "reaction_plan" "child_operation" 1
    else if edge_type == "spawned_child"
    then transition "reaction_plan" "child_operation" 1
    else if edge_type == "emitted_receipt"
    then transition "child_operation" "execution_receipt" 0
    else none

-- `_depth`; a bool is no int here.
unfoldable pub depth_of : Fields → Result ℕ
depth_of d = elim (get "depth" d) [
  | int (pos n) ↦ ok n
  | _ ↦ err (validation_error "automation graph depth must be non-negative")
]

-- `isinstance(value, list)`
abbrev pub items_of : Value → Result (List Value)
items_of (arr xs) = ok (to_list xs)
items_of _ = err (validation_error "automation graph requires node and edge lists")

abbrev supported : Option Transition → Result Transition
supported none = err (validation_error "unsupported automation transition")
supported (some t) = ok t

-- `if target_depth != source_depth + depth_delta or _depth(edge, "edge") != target_depth: raise`
abbrev pub check_depths : ℕ → ℕ → Fields → Transition → Result (Unit {0})
check_depths source_depth target_depth edge t =
    if nat_eq target_depth (source_depth + t.depth_delta)
    then (do
      edge_depth ← depth_of edge
      raise_if (not (nat_eq edge_depth target_depth))
          (validation_error "invalid depth for transition"))
    else err (validation_error "invalid depth for transition")

abbrev checked_properties : List Value
checked_properties =
    str "graph_acyclicity"
    ∷ str "graph_roots"
    ∷ str "graph_connectivity"
    ∷ str "computed_depth"
    ∷ str "transition_semantics"
    ∷ str "global_child_idempotency"
    ∷ []

abbrev unchecked_properties : List Value
unchecked_properties =
    str "recovery_execution"
    ∷ str "checkpoint_execution"
    ∷ str "admission_authenticity"
    ∷ str "admission_decision_binding"
    ∷ []

-- The report of a graph that passed.
abbrev pub report : ℕ → ℕ → String → Fields
report node_count edge_count root = field "status" (str "passed") (
    field "verification_posture" (str "rexecop_runtime_graph_v0.1") (
      field "checked" (arr (of_list checked_properties)) (
        field "not_checked" (arr (of_list unchecked_properties)) (
          field "requires_external_verification"
            (obj (
              field "admission_authenticity" (str "govengine") (
                field "admission_decision_binding" (str "govengine")
                  (field "profile_transition_semantics" (str "profile") end))))
            (field "node_count" (int (pos node_count))
              (field "edge_count" (int (pos edge_count)) (field "root_node_id" (str root) end)))))))

-- The search visited each node; `none` is the fuel at its end.
abbrev pub check_visited : Nodes → Option Search → Result (Unit {0})
check_visited nodes none = err builtin_error
check_visited nodes (some s) =
    raise_if (not (nat_eq (length s.visited) (length nodes)))
      (validation_error "automation graph contains a cycle or unreachable node")

-- What was read of a chain that passed all checks before the last loop.
pub record Graph : Type 0 where
  pub nodes : Nodes
  pub scan : Scan
  pub root : String

module _ ⦃py : Python⦄ where
  unfoldable pub add_node : Nodes → Value → Result Nodes
  add_node nodes (obj d) = do
    let id = text (get "node_id" d)
    raise_if (id == "" || has_node id nodes)
        (validation_error "automation graph node ids must be unique")
    ok (nodes ++ (id, d) ∷ [])
  add_node nodes _ = err (validation_error "automation graph node must be an object")

  unfoldable pub add_nodes : Nodes → List Value → Result Nodes
  unfolding add_node
  add_nodes nodes [] = ok nodes
  add_nodes nodes (v ∷ vs) = do more ← add_node nodes v; add_nodes more vs

  -- The child keys after an edge of a type.
  abbrev pub child_keys_after : String → Fields → List String → Result (List String)
  child_keys_after edge_type edge keys =
      let key = text (get "idempotency_key" edge) in
      if edge_type == "admitted_child" || edge_type == "spawned_child"
      then (do
        raise_if (key == "" || contains key keys)
            (validation_error "child transition idempotency keys must be unique")
        ok (key ∷ keys))
      else ok keys

  -- The checks of one edge between two nodes, from its type on.
  unfoldable pub check_transition : Nodes → String → String → Fields → Result (Unit {0})
  check_transition nodes source target edge = do
    t ← supported (transition_of (text (get "edge_type" edge)))
    raise_if
        (not (is_text t.source_type (get "node_type" (node source nodes)))
          || not (is_text t.target_type (get "node_type" (node target nodes))))
        (validation_error "invalid node types for transition")
    source_depth ← depth_of (node source nodes)
    target_depth ← depth_of (node target nodes)
    check_depths source_depth target_depth edge t

  -- One round of the loop over the edges.
  unfoldable pub add_edge : Nodes → Scan → Value → Result Scan
  unfolding check_transition
  add_edge nodes s (obj edge) = do
    let edge_id = text (get "edge_id" edge)
    raise_if (edge_id == "" || contains edge_id s.edge_ids)
        (validation_error "automation graph edge ids must be unique")
    let source = text (get "from_node" edge)
    let target = text (get "to_node" edge)
    raise_if (not (has_node source nodes) || not (has_node target nodes))
        (validation_error "automation graph edge endpoint is missing")
    raise_if (source == target) (validation_error "automation graph self-loop is forbidden")
    check_transition nodes source target edge
    keys ← child_keys_after (text (get "edge_type" edge)) edge s.child_keys
    ok (link source target edge_id keys s)
  add_edge nodes s _ = err (validation_error "automation graph edge must be an object")

  unfoldable pub add_edges : Nodes → Scan → List Value → Result Scan
  unfolding add_edge
  add_edges nodes s [] = ok s
  add_edges nodes s (v ∷ vs) = do next ← add_edge nodes s v; add_edges nodes next vs

  abbrev is_source : Fields → String → Nodes → Bool
  is_source chain id nodes =
      is_text "operation" (get "node_type" (node id nodes))
      && text (get "operation_id" (node id nodes)) == text (get "source_operation_id" chain)

  -- `len(roots) == 1 and len(source_roots) == 1`
  abbrev pub the_root : Fields → Nodes → List String → Result String
  the_root chain nodes (root ∷ []) =
      if is_source chain root nodes
      then ok root
      else err (validation_error "automation graph requires one source-operation root")
  the_root chain nodes _ =
      err (validation_error "automation graph requires one source-operation root")

  unfoldable pub read_graph : Fields → Result Graph
  unfolding add_nodes add_edges
  read_graph chain = do
    raw_nodes ← items_of (get "nodes" chain)
    raw_edges ← items_of (get "edges" chain)
    nodes ← add_nodes [] raw_nodes
    scan ← add_edges nodes no_edges raw_edges
    root ← the_root chain nodes (roots scan nodes)
    ok (record { nodes = nodes; scan = scan; root = root })

  -- `verify_runtime_automation_graph`. Each round of the loop visits another node.
  unfoldable pub verify : Fields → Result Fields
  unfolding read_graph search
  verify chain = do
    g ← read_graph chain
    check_visited g.nodes (search (length g.nodes) g.scan (start g.scan g.root))
    ok (report (length g.nodes) (length g.scan.edge_ids) g.root)
