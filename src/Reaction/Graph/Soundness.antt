-- ===== src/Reaction/Graph/Soundness.antt =====
-- What the checks of the nodes and of the edges establish of an automation graph.
use rexec_op.Base.{
  ℕ, suc, String, ◌≡◌, refl, sym, ap, subst, ◌∙◌, ◌≢◌, ◌⊎◌, inl, inr, Bool, true, false, not, ◌||◌,
  Option, none, some, List, [], ◌∷◌, arith, ◌==◌, ==_refl, eq_iff, nat_eq, contains,
  contains-append, if◌then◌else◌, ok, validation_error, Bool-cases, >>=-eq-ok, >>-eq-ok,
  raise_if-eq_ok, ok-injective,
}
use rexec_op.Json.{Value, null, bool, int, str, arr, obj, Fields, get, is_text}
use rexec_op.Json.Python.{Python, text}
use rexec_op.Reaction.Graph.{
  Transition, transition_of, add_nodes, child_keys_after, check_transition, add_edge, add_edges,
  the_root, Graph, read_graph, items_of, supported,
}
use rexec_op.Reaction.Traversal.{Nodes, has_node, node, Scan, no_edges, link, roots}

-- The place of a node type in the chain from an operation to a receipt.
abbrev type_rank : String → ℕ
type_rank s =
    if s == "operation"
    then 0
    else if s == "observation"
    then 1
    else if s == "finding"
    then 2
    else if s == "reaction_plan"
    then 3
    else if s == "child_operation"
    then 4
    else 5

abbrev value_rank : Value → ℕ
value_rank (str s) = type_rank s
value_rank _ = 0

abbrev pub rank : Nodes → String → ℕ
rank nodes u = value_rank (get "node_type" (node u nodes))

abbrev Climbs : Transition → Type 0
Climbs t = type_rank t.target_type ≡ suc (type_rank t.source_type)

row : {r t : Transition} → Climbs r → some r ≡ some t → Climbs t
row {r} {t} h e = subst Climbs (some-inj e) h
  where
    some-inj : some r ≡ some t → r ≡ t
    some-inj e = cc

by_row :
    (c : Bool) {x y : Option Transition} {t : Transition}
    → (x ≡ some t → Climbs t)
    → (y ≡ some t → Climbs t)
    → (if c then x else y) ≡ some t
    → Climbs t
by_row true f g h = f h
by_row false f g h = g h

-- Each kind of edge leads from a type to the next one.
transition_of-Climbs : (e : String) {t : Transition} → transition_of e ≡ some t → Climbs t
unfolding transition_of
transition_of-Climbs e = by_row (e == "observed") (row refl) (
    by_row (e == "detected") (row refl) (
      by_row (e == "planned_reaction") (row refl) (
        by_row (e == "admitted_child") (row refl) (
          by_row (e == "spawned_child") (row refl)
            (by_row (e == "emitted_receipt") (row refl) (λ h. absurd (none≢some h)))))))
  where
    none≢some : {t : Transition} → none ≢ some t
    none≢some h = cc

text_rank : (s : String) (v : Value) → is_text s v ≡ true → value_rank v ≡ type_rank s
text_rank s (str t) h = ap type_rank ((eq_iff t s).0 h)
text_rank s null h = cc
text_rank s (bool b) h = cc
text_rank s (int n) h = cc
text_rank s (arr xs) h = cc
text_rank s (obj d) h = cc

supported-eq_ok : (o : Option Transition) {t : Transition} → supported o ≡ ok t → o ≡ some t
supported-eq_ok none h = cc
supported-eq_ok (some t) h = ap some (ok-injective h)

-- An edge of the graph: between two of its nodes, and one step up the types.
pub record IsEdge (nodes : Nodes) (u v : String) : Type 0 where
  pub source_in : has_node u nodes ≡ true
  pub target_in : has_node v nodes ≡ true
  pub climbs : rank nodes v ≡ suc (rank nodes u)

module _ ⦃py : Python⦄ where
  check_transition-climbs :
      (nodes : Nodes) (u v : String) (edge : Fields)
      → check_transition nodes u v edge ≡ ok tt
      → rank nodes v ≡ suc (rank nodes u)
  unfolding check_transition
  check_transition-climbs nodes u v edge h =
      let (t, found, h₁) =
        >>=-eq-ok (supported (transition_of (text (get "edge_type" edge)))) _ h in
      let (typed, _) =
        raise_if-eq_ok
          (not (is_text t.source_type (get "node_type" (node u nodes)))
            || not (is_text t.target_type (get "node_type" (node v nodes))))
          (validation_error "invalid node types for transition") _ h₁ in
      let climbs = transition_of-Climbs (text (get "edge_type" edge)) (supported-eq_ok _ found) in
      let from = text_rank t.source_type (get "node_type" (node u nodes)) (ground (arith, typed)) in
      let to = text_rank t.target_type (get "node_type" (node v nodes)) (ground (arith, typed)) in
      to ∙ climbs ∙ ap suc (sym from)

  -- What an accepted edge adds.
  pub add_edge-eq_ok :
      (nodes : Nodes) (s : Scan) (v : Value) {s' : Scan}
      → add_edge nodes s v ≡ ok s'
      → (source : String) × (target : String) × (edge_id : String) × (keys : List String) × (s'
          ≡ link source target edge_id keys s)
        × IsEdge nodes source target
  unfolding add_edge
  add_edge-eq_ok nodes s (obj edge) h =
      let edge_id = text (get "edge_id" edge) in
      let source = text (get "from_node" edge) in
      let target = text (get "to_node" edge) in
      let (_, h₁) =
        raise_if-eq_ok (edge_id == "" || contains edge_id s.edge_ids)
          (validation_error "automation graph edge ids must be unique") _ h in
      let (ends, h₂) =
        raise_if-eq_ok (not (has_node source nodes) || not (has_node target nodes))
          (validation_error "automation graph edge endpoint is missing") _ h₁ in
      let (_, h₃) =
        raise_if-eq_ok (source == target)
          (validation_error "automation graph self-loop is forbidden") _ h₂ in
      let (checked, h₄) = >>-eq-ok (check_transition nodes source target edge) _ h₃ in
      let (keys, _, made) =
        >>=-eq-ok (child_keys_after (text (get "edge_type" edge)) edge s.child_keys) _ h₄ in
      (
        source,
        target,
        edge_id,
        keys,
        sym (ok-injective made),
        record {
          source_in = ground (arith, ends);
          target_in = ground (arith, ends);
          climbs = check_transition-climbs nodes source target edge checked;
        },
      )
  add_edge-eq_ok nodes s null h = cc
  add_edge-eq_ok nodes s (bool b) h = cc
  add_edge-eq_ok nodes s (int n) h = cc
  add_edge-eq_ok nodes s (str t) h = cc
  add_edge-eq_ok nodes s (arr xs) h = cc

-- An edge leads from `u` to `v`.
abbrev pub Joins : Scan → String → String → Type 0
Joins s u v = contains v (s.adjacency u) ≡ true

-- What the loop over the edges keeps: each entry of `adjacency` was checked, and a node whose
-- `indegree` is not 0 has an edge to it.
pub record IsSound (nodes : Nodes) (s : Scan) : Type 0 where
  pub checked : (u v : String) → Joins s u v → IsEdge nodes u v
  pub entered : (v : String) → nat_eq (s.indegree v) 0 ≡ false → (u : String) × Joins s u v

no_edges-IsSound : (nodes : Nodes) → IsSound nodes no_edges
no_edges-IsSound nodes = record { checked = λ u v h. cc; entered = λ v h. cc }

Joins-link :
    (source target id : String) (keys : List String) (s : Scan) (u v : String)
    → Joins (link source target id keys s) u v
    → ((u ≡ source) × (v ≡ target)) ⊎ Joins s u v
Joins-link source target id keys s u v h = elim (Bool-cases (u == source)) [
  | inr other ↦ inr (rw other at h)
  | inl same ↦ elim (Bool-cases (contains v (s.adjacency u))) [
    | inl old ↦ inr old
    | inr new ↦
        let last = rw (same, contains-append v (s.adjacency u) (target ∷ []), new) at h in
        inl ((eq_iff u source).0 same, (eq_iff v target).0 (ground (arith, last)))
  ]
]

link_keeps :
    (source target id : String) (keys : List String) (s : Scan) (u v : String)
    → Joins s u v
    → Joins (link source target id keys s) u v
link_keeps source target id keys s u v h = elim (Bool-cases (u == source)) [
  | inr other ↦ rw other h
  | inl same ↦ rw (same, contains-append v (s.adjacency u) (target ∷ []), h)
]

link-Joins :
    (source target id : String) (keys : List String) (s : Scan)
    → Joins (link source target id keys s) source target
link-Joins source target id keys s =
    rw (==_refl source, contains-append target (s.adjacency source) (target ∷ []))
      (ground (arith, ==_refl target))

link-IsSound :
    (nodes : Nodes) (source target id : String) (keys : List String) (s : Scan)
    → IsEdge nodes source target
    → IsSound nodes s
    → IsSound nodes (link source target id keys s)
link-IsSound nodes source target id keys s edge h = record {
  checked = λ u v j. elim (Joins-link source target id keys s u v j) [
    | inl (a, b) ↦ rw (a, b) edge
    | inr old ↦ h.checked u v old
  ];
  entered = λ v n. elim (Bool-cases (v == target)) [
    | inl same ↦ (source, rw ((eq_iff v target).0 same) (link-Joins source target id keys s))
    | inr other ↦
        let (u, j) = h.entered v (rw other at n) in (u, link_keeps source target id keys s u v j)
  ];
}

the_root-eq_ok :
    ⦃py : Python⦄ (chain : Fields) (nodes : Nodes) (rs : List String) {root : String}
    → the_root chain nodes rs ≡ ok root
    → rs ≡ root ∷ []
the_root-eq_ok chain nodes [] h = cc
the_root-eq_ok chain nodes (r ∷ []) h = ground arith
the_root-eq_ok chain nodes (r ∷ q ∷ rs) h = cc

module _ ⦃py : Python⦄ where
  add_edges-IsSound :
      (nodes : Nodes) (s : Scan) (vs : List Value) {s' : Scan}
      → IsSound nodes s
      → add_edges nodes s vs ≡ ok s'
      → IsSound nodes s'
  unfolding add_edges
  add_edges-IsSound nodes s [] h e = subst (IsSound nodes) (ok-injective e) h
  add_edges-IsSound nodes s (v ∷ vs) h e =
      let (next, added, later) = >>=-eq-ok (add_edge nodes s v) _ e in
      let (source, target, id, keys, same, edge) = add_edge-eq_ok nodes s v added in
      add_edges-IsSound nodes next vs
        (subst (IsSound nodes) (sym same) (link-IsSound nodes source target id keys s edge h)) later

  -- The parts of a graph that was read.
  pub data IsRead (g : Graph) : Type 0 where
    read_from :
        (raw_nodes raw_edges : List Value)
        → add_nodes [] raw_nodes ≡ ok g.nodes
        → add_edges g.nodes no_edges raw_edges ≡ ok g.scan
        → roots g.scan g.nodes ≡ g.root ∷ []
        → IsRead g

  pub read_graph-IsRead : (chain : Fields) {g : Graph} → read_graph chain ≡ ok g → IsRead g
  unfolding read_graph
  read_graph-IsRead chain h =
      let (raw_nodes, _, h₁) = >>=-eq-ok (items_of (get "nodes" chain)) _ h in
      let (raw_edges, _, h₂) = >>=-eq-ok (items_of (get "edges" chain)) _ h₁ in
      let (nodes, listed, h₃) = >>=-eq-ok (add_nodes [] raw_nodes) _ h₂ in
      let (scan, linked, h₄) = >>=-eq-ok (add_edges nodes no_edges raw_edges) _ h₃ in
      let (root, one, made) = >>=-eq-ok (the_root chain nodes (roots scan nodes)) _ h₄ in
      subst IsRead (ok-injective made) (
        read_from raw_nodes raw_edges listed linked
          (the_root-eq_ok chain nodes (roots scan nodes) one))

  -- What the checks before the search establish.
  pub IsRead-IsSound :
      {g : Graph} → IsRead g → IsSound g.nodes g.scan × (roots g.scan g.nodes ≡ g.root ∷ [])
  IsRead-IsSound {g} (read_from raw_nodes raw_edges listed linked one) =
      (add_edges-IsSound g.nodes no_edges raw_edges (no_edges-IsSound g.nodes) linked, one)
