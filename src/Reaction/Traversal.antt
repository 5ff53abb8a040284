-- ===== src/Reaction/Traversal.antt =====
-- reaction/automation_graph.py: the graph that is read of a chain, and the last loop, which searches
-- it. The dicts `adjacency`, `indegree` and `remaining` are functions on node ids, the sets are
-- lists. The loop runs on fuel.
use rexec_op.Base.{
  ℕ, zero, suc, String, Bool, false, ◌||◌, Option, none, some, List, [], ◌∷◌, ◌++◌, ◌==◌, nat_eq,
  contains, if◌then◌else◌,
}
use rexec_op.Base.Int.{ℤ, pos, negsuc, eq_ℤ}
use rexec_op.Json.{Fields, end}

-- `nodes`: the entries in the order in which they were put in, each key once.
abbrev pub Nodes : Type 0
Nodes = List (String × Fields)

abbrev pub has_node : String → Nodes → Bool
has_node id [] = false
has_node id ((k, d) ∷ rest) = id == k || has_node id rest

-- `nodes[id]`, for a key that is there
abbrev pub node : String → Nodes → Fields
node id [] = end
node id ((k, d) ∷ rest) = if id == k then d else node id rest

-- The state of the loop over the edges.
pub record Scan : Type 0 where
  pub adjacency : String → List String
  pub indegree : String → ℕ
  pub edge_ids : List String
  pub child_keys : List String

abbrev pub no_edges : Scan
no_edges = record { adjacency = λ id. []; indegree = λ id. 0; edge_ids = []; child_keys = [] }

-- `adjacency[source].append(target)`, `indegree[target] += 1` and the two sets
abbrev pub link : String → String → String → List String → Scan → Scan
link source target edge_id keys s = record {
  adjacency = λ u. if u == source then s.adjacency u ++ target ∷ [] else s.adjacency u;
  indegree = λ v. if v == target then suc (s.indegree v) else s.indegree v;
  edge_ids = edge_id ∷ s.edge_ids;
  child_keys = keys;
}

-- The ids of the nodes that no edge leads to, in the order of the nodes.
abbrev pub roots : Scan → Nodes → List String
roots s [] = []
roots s ((id, d) ∷ rest) = if nat_eq (s.indegree id) 0 then id ∷ roots s rest else roots s rest

-- The state of the last loop: `queue`, `visited` and `remaining`.
pub record Search : Type 0 where
  pub queue : List String
  pub visited : List String
  pub remaining : String → ℤ

abbrev pub pred_ℤ : ℤ → ℤ
pred_ℤ (pos zero) = negsuc 0
pred_ℤ (pos (suc n)) = pos n
pred_ℤ (negsuc n) = negsuc (suc n)

-- `remaining[target] -= 1`, and the append that may follow
unfoldable pub release_one : Search → String → Search
release_one s target =
    let left = pred_ℤ (s.remaining target) in
    record {
      queue = if eq_ℤ left (pos 0) then s.queue ++ target ∷ [] else s.queue;
      visited = s.visited;
      remaining = λ v. if v == target then left else s.remaining v;
    }

unfoldable pub release_all : Search → List String → Search
unfolding release_one
release_all s [] = s
release_all s (target ∷ targets) = release_all (release_one s target) targets

-- `visited.add(current)`
abbrev pub add_to : String → List String → List String
add_to a xs = if contains a xs then xs else a ∷ xs

-- The body of the loop, for a queue that starts with `current`.
abbrev pub visit : Scan → Search → String → List String → Search
visit g s current rest =
    release_all (record s { queue = rest; visited = add_to current s.visited })
      (g.adjacency current)

-- `while queue`; `none` is the fuel at its end.
unfoldable pub search : ℕ → Scan → Search → Option Search
unfolding release_all
search zero g s = elim s.queue [ [] ↦ some s | current ∷ rest ↦ none ]
search (suc fuel) g s = elim s.queue [
  | [] ↦ some s
  | current ∷ rest ↦ search fuel g (visit g s current rest)
]

abbrev pub start : Scan → String → Search
start g root = record { queue = root ∷ []; visited = []; remaining = λ v. pos (g.indegree v) }
