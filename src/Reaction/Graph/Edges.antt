-- ===== src/Reaction/Graph/Edges.antt =====
-- Counting the edges that lead to a node from the nodes that were not visited.
use rexec_op.Base.{
  ℕ, zero, suc, ◌+◌, ◌≤◌, ◌<◌, String, ◌≡◌, refl, sym, ap, subst, ◌∙◌, ◌⊎◌, inl, inr, true, false,
  ◌||◌, List, [], ◌∷◌, ◌++◌, arith, ◌==◌, ==_refl, eq_iff, contains, distinct, distinct-append_new,
  if◌then◌else◌, ok, Bool-cases, >>=-eq-ok, ok-injective, raise_if-eq_ok,
}
use rexec_op.Json.{Value, null, bool, int, str, arr, obj, Fields, get}
use rexec_op.Json.Python.{Python, text}
use rexec_op.Reaction.Traversal.{Nodes, has_node, Scan, no_edges, link}
use rexec_op.Reaction.Graph.{add_node, add_nodes, add_edge, add_edges, Graph}
use rexec_op.Reaction.Graph.Soundness.{Joins, add_edge-eq_ok, IsRead, read_from}
use rexec_op.Reaction.Graph.Counting.{node_ids, contains-node_ids}

-- How often a text occurs.
abbrev pub count : String → List String → ℕ
count v [] = 0
count v (x ∷ xs) = (if v == x then 1 else 0) + count v xs

count-append_one :
    (v a : String) (xs : List String)
    → count v (xs ++ a ∷ []) ≡ count v xs + (if v == a then 1 else 0)
count-append_one v a [] = omega arith
count-append_one v a (x ∷ xs) = omega (arith, count-append_one v a xs)

count_pos : (v : String) (xs : List String) → 0 < count v xs → contains v xs ≡ true
count_pos v [] h = absurd (omega arith)
count_pos v (x ∷ xs) h = ground (arith, count_pos v xs)

-- The edges to `v` from the nodes of a list that are not among `gone`.
abbrev pub open_edges : Scan → String → List String → List String → ℕ
open_edges s v gone [] = 0
open_edges s v gone (u ∷ us) =
    (if contains u gone then 0 else count v (s.adjacency u)) + open_edges s v gone us

head_out : (u : String) (us : List String) → distinct (u ∷ us) ≡ true → contains u us ≡ false
head_out u us d = ground (arith, d)

one_positive : (n m : ℕ) → 0 < n + m → (0 < n) ⊎ (0 < m)
one_positive zero m h = inr (omega arith)
one_positive (suc n) m h = inl (omega arith)

-- One more edge.
open_edges-link_out :
    (s : Scan) (source target id : String) (keys us : List String) (v : String)
    → contains source us ≡ false
    → open_edges (link source target id keys s) v [] us ≡ open_edges s v [] us
open_edges-link_out s source target id keys [] v h = refl
open_edges-link_out s source target id keys (u ∷ us) v h =
    ground
      (arith, eq_iff source u, eq_iff u source, open_edges-link_out s source target id keys us v)

open_edges-link :
    (s : Scan) (source target id : String) (keys us : List String) (v : String)
    → distinct us ≡ true
    → contains source us ≡ true
    → open_edges (link source target id keys s) v [] us
      ≡ open_edges s v [] us + (if v == target then 1 else 0)
open_edges-link s source target id keys [] v d h = cc
open_edges-link s source target id keys (u ∷ us) v d h = elim (Bool-cases (u == source)) [
  | inl same ↦
      let out =
        open_edges-link_out s source target id keys us v
          (rw ((eq_iff u source).0 same) at (head_out u us d)) in
      rw (same, count-append_one v target (s.adjacency u)) (omega (arith, out))
  | inr other ↦
      let later =
        open_edges-link s source target id keys us v (ground (arith, d))
          (ground (arith, h, other, eq_iff source u, eq_iff u source)) in
      rw other (omega (arith, later))
]

-- Visiting a node closes its edges.
open_edges_gone :
    (s : Scan) (v a : String) (gone us : List String)
    → contains a us ≡ false
    → open_edges s v (a ∷ gone) us ≡ open_edges s v gone us
open_edges_gone s v a gone [] h = refl
open_edges_gone s v a gone (u ∷ us) h =
    ground (arith, eq_iff a u, eq_iff u a, open_edges_gone s v a gone us)

pub open_edges_visit :
    (s : Scan) (v a : String) (gone us : List String)
    → distinct us ≡ true
    → contains a us ≡ true
    → contains a gone ≡ false
    → open_edges s v gone us ≡ count v (s.adjacency a) + open_edges s v (a ∷ gone) us
open_edges_visit s v a gone [] d h g = cc
open_edges_visit s v a gone (u ∷ us) d h g = elim (Bool-cases (u == a)) [
  | inl same ↦
      let out = open_edges_gone s v a gone us (rw ((eq_iff u a).0 same) at (head_out u us d)) in
      rw ((eq_iff u a).0 same, ==_refl a, g) (omega (arith, out))
  | inr other ↦
      let later =
        open_edges_visit s v a gone us (ground (arith, d))
          (ground (arith, h, other, eq_iff a u, eq_iff u a)) g in
      rw other (omega (arith, later))
]

-- An open edge comes from a node that is not gone.
pub open_edges_pos :
    (s : Scan) (v : String) (gone us : List String)
    → 0 < open_edges s v gone us
    → (u : String) × (contains u us ≡ true) × (contains u gone ≡ false) × Joins s u v
open_edges_pos s v gone [] h = absurd (omega arith)
open_edges_pos s v gone (u ∷ us) h = elim (Bool-cases (contains u gone)) [
  | inl closed ↦
      let rest : 1 ≤ 0 + open_edges s v gone us = rw closed at h in
      further (open_edges_pos s v gone us (omega (arith, rest)))
  | inr open' ↦
      elim (one_positive (count v (s.adjacency u)) (open_edges s v gone us) (rw open' at h)) [
        | inl here ↦ (u, ground (arith, ==_refl u), open', count_pos v (s.adjacency u) here)
        | inr there ↦ further (open_edges_pos s v gone us there)
      ]
]
  where
    further :
        ((w : String) × (contains w us ≡ true) × (contains w gone ≡ false) × Joins s w v)
        → (w : String) × (contains w (u ∷ us) ≡ true) × (contains w gone ≡ false) × Joins s w v
    further (w, there, fresh, joins) = (w, ground (arith, there), fresh, joins)

node_ids-append :
    (nodes : Nodes) (id : String) (d : Fields)
    → node_ids (nodes ++ (id, d) ∷ []) ≡ node_ids nodes ++ id ∷ []
node_ids-append [] id d = refl
node_ids-append ((k, e) ∷ rest) id d = ap (λ x. k ∷ x) (node_ids-append rest id d)

abbrev pub Counts : Nodes → Scan → Type 0
Counts nodes s = (v : String) → s.indegree v ≡ open_edges s v [] (node_ids nodes)

open_edges_none : (v : String) (us : List String) → open_edges no_edges v [] us ≡ 0
open_edges_none v [] = refl
open_edges_none v (u ∷ us) = omega (arith, open_edges_none v us)

link-Counts :
    (nodes : Nodes) (s : Scan) (source target id : String) (keys : List String)
    → distinct (node_ids nodes) ≡ true
    → has_node source nodes ≡ true
    → Counts nodes s
    → Counts nodes (link source target id keys s)
link-Counts nodes s source target id keys d there h v =
    let more =
      open_edges-link s source target id keys (node_ids nodes) v d
        (contains-node_ids source nodes ∙ there) in
    elim (Bool-cases (v == target)) [
      | inl same ↦ rw same (omega (arith, h v, rw same at more))
      | inr other ↦ rw other (omega (arith, h v, rw other at more))
    ]

module _ ⦃py : Python⦄ where
  add_node-distinct :
      (nodes : Nodes) (v : Value) {nodes' : Nodes}
      → distinct (node_ids nodes) ≡ true
      → add_node nodes v ≡ ok nodes'
      → distinct (node_ids nodes') ≡ true
  unfolding add_node
  add_node-distinct nodes (obj d) h e =
      let id = text (get "node_id" d) in
      let (new, made) = raise_if-eq_ok (id == "" || has_node id nodes) _ _ e in
      let fresh : contains id (node_ids nodes) ≡ false =
        contains-node_ids id nodes ∙ ground (arith, new) in
      subst (λ n. distinct (node_ids n) ≡ true) (ok-injective made)
        (ap distinct (node_ids-append nodes id d) ∙ distinct-append_new id (node_ids nodes) fresh h)
  add_node-distinct nodes null h e = cc
  add_node-distinct nodes (bool b) h e = cc
  add_node-distinct nodes (int n) h e = cc
  add_node-distinct nodes (str t) h e = cc
  add_node-distinct nodes (arr xs) h e = cc

  add_nodes-distinct :
      (nodes : Nodes) (vs : List Value) {nodes' : Nodes}
      → distinct (node_ids nodes) ≡ true
      → add_nodes nodes vs ≡ ok nodes'
      → distinct (node_ids nodes') ≡ true
  unfolding add_nodes
  add_nodes-distinct nodes [] h e = subst (λ n. distinct (node_ids n) ≡ true) (ok-injective e) h
  add_nodes-distinct nodes (v ∷ vs) h e =
      let (more, one, rest) = >>=-eq-ok (add_node nodes v) _ e in
      add_nodes-distinct more vs (add_node-distinct nodes v h one) rest

  add_edges-Counts :
      (nodes : Nodes) (s : Scan) (vs : List Value) {s' : Scan}
      → distinct (node_ids nodes) ≡ true
      → Counts nodes s
      → add_edges nodes s vs ≡ ok s'
      → Counts nodes s'
  unfolding add_edges
  add_edges-Counts nodes s [] d h e = subst (Counts nodes) (ok-injective e) h
  add_edges-Counts nodes s (v ∷ vs) d h e =
      let (next, one, rest) = >>=-eq-ok (add_edge nodes s v) _ e in
      let (source, target, id, keys, same, edge) = add_edge-eq_ok nodes s v one in
      add_edges-Counts nodes next vs d
        (subst (Counts nodes) (sym same)
          (link-Counts nodes s source target id keys d edge.source_in h))
        rest

  pub IsRead-Counts :
      {g : Graph} → IsRead g → Counts g.nodes g.scan × (distinct (node_ids g.nodes) ≡ true)
  IsRead-Counts {g} (read_from raw_nodes raw_edges listed' linked one) =
      let d = add_nodes-distinct [] raw_nodes refl listed' in
      (
        add_edges-Counts g.nodes no_edges raw_edges d
            (λ v. sym (open_edges_none v (node_ids g.nodes))) linked,
        d,
      )
