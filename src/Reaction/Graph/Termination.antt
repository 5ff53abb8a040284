-- ===== src/Reaction/Graph/Termination.antt =====
-- Each node is queued once in the search, since `remaining` only falls.
use rexec_op.Base.{
  zero, suc, ◌≤◌, String, ◌≡◌, refl, ap, subst, ◌∙◌, ◌⊎◌, inl, inr, Bool, true, false, ◌&&◌, ◌||◌,
  List, [], ◌∷◌, ◌++◌, arith, ◌==◌, ==_refl, eq_iff, contains, contains-append, nat_eq, distinct,
  distinct-append_new, length, if◌then◌else◌, Bool-cases,
}
use rexec_op.Base.Int.{ℤ, pos, negsuc, eq_ℤ, leb_ℤ, eq_ℤ→eq}
use rexec_op.Reaction.Traversal.{
  Nodes, has_node, Scan, Search, pred_ℤ, release_one, release_all, visit, start, add_to, roots,
}
use rexec_op.Reaction.Graph.Walks.{contains-roots}
use rexec_op.Reaction.Graph.Soundness.{IsSound}
use rexec_op.Reaction.Graph.Counting.{
  node_ids, contains-node_ids, length-node_ids, length_within, ne_of_contains,
}

abbrev pub seen : Search → String → Bool
seen s v = contains v s.queue || contains v s.visited

-- What holds at each point of the search.
pub record IsOrderly (nodes : Nodes) (s : Search) : Type 0 where
  pub queued_once : distinct s.queue ≡ true
  pub visited_once : distinct s.visited ≡ true
  pub apart : (v : String) → contains v s.queue ≡ true → contains v s.visited ≡ false
  pub within : (v : String) → seen s v ≡ true → has_node v nodes ≡ true
  pub spent : (v : String) → seen s v ≡ true → leb_ℤ (s.remaining v) (pos 0) ≡ true

pred_le : (a : ℤ) → leb_ℤ a (pos 0) ≡ true → leb_ℤ (pred_ℤ a) (pos 0) ≡ true
pred_le (pos zero) h = refl
pred_le (pos (suc n)) h = ground arith
pred_le (negsuc n) h = ground arith

last_edge : (a : ℤ) → eq_ℤ (pred_ℤ a) (pos 0) ≡ true → leb_ℤ a (pos 0) ≡ false
last_edge (pos zero) h = ground arith
last_edge (pos (suc n)) h = ground arith
last_edge (negsuc n) h = ground arith

not_seen : (b c : Bool) → (b ≡ true → c ≡ true) → c ≡ false → b ≡ false
not_seen true c f h = absurd (clash (f refl) h)
  where
    clash : c ≡ true → c ≡ false → ⊥
    clash p q = cc
not_seen false c f h = refl

lowered :
    (remaining : String → ℤ) (target v : String)
    → leb_ℤ (remaining v) (pos 0) ≡ true
    → leb_ℤ (if v == target then pred_ℤ (remaining target) else remaining v) (pos 0) ≡ true
lowered remaining target v h = elim (Bool-cases (v == target)) [
  | inl same ↦ rw same (
      pred_le (remaining target)
        (subst (λ x. leb_ℤ (remaining x) (pos 0) ≡ true) ((eq_iff v target).0 same) h))
  | inr other ↦ rw other h
]

released :
    (remaining : String → ℤ) (target : String)
    → eq_ℤ (pred_ℤ (remaining target)) (pos 0) ≡ true
    → leb_ℤ (if target == target then pred_ℤ (remaining target) else remaining target) (pos 0)
      ≡ true
released remaining target h =
    rw (==_refl target, eq_ℤ→eq (pred_ℤ (remaining target)) (pos 0) h) refl

newly :
    (v target : String) (queue visited : List String)
    → (contains v (queue ++ target ∷ []) || contains v visited) ≡ true
    → (v ≡ target) ⊎ ((contains v queue || contains v visited) ≡ true)
newly v target queue visited h = elim (Bool-cases (v == target)) [
  | inl same ↦ inl ((eq_iff v target).0 same)
  | inr other ↦ inr (ground (arith, contains-append v queue (target ∷ []), h, other))
]

release_one-IsOrderly :
    (nodes : Nodes) (s : Search) (target : String)
    → has_node target nodes ≡ true
    → IsOrderly nodes s
    → IsOrderly nodes (release_one s target)
unfolding release_one
release_one-IsOrderly nodes s target there h =
    elim (Bool-cases (eq_ℤ (pred_ℤ (s.remaining target)) (pos 0))) [
      | inr more ↦ rw more (record {
        queued_once = h.queued_once;
        visited_once = h.visited_once;
        apart = h.apart;
        within = h.within;
        spent = λ v p. lowered s.remaining target v (h.spent v p);
      })
      | inl last ↦
          let fresh : seen s target ≡ false =
            not_seen (seen s target) (leb_ℤ (s.remaining target) (pos 0)) (h.spent target)
              (last_edge (s.remaining target) last) in
          rw last (record {
            queued_once = distinct-append_new target s.queue (ground (arith, fresh)) h.queued_once;
            visited_once = h.visited_once;
            apart = λ v p. elim (newly v target s.queue [] (ground (arith, p))) [
              | inl same ↦ rw same (ground (arith, fresh))
              | inr old ↦ h.apart v (ground (arith, old))
            ];
            within = λ v p. elim (newly v target s.queue s.visited p) [
              | inl same ↦ rw same there
              | inr old ↦ h.within v old
            ];
            spent = λ v p. elim (newly v target s.queue s.visited p) [
              | inl same ↦ rw same (released s.remaining target last)
              | inr old ↦ lowered s.remaining target v (h.spent v old)
            ];
          })
    ]

release_all-IsOrderly :
    (nodes : Nodes) (s : Search) (targets : List String)
    → ((v : String) → contains v targets ≡ true → has_node v nodes ≡ true)
    → IsOrderly nodes s
    → IsOrderly nodes (release_all s targets)
unfolding release_all
release_all-IsOrderly nodes s [] there h = h
release_all-IsOrderly nodes s (target ∷ targets) there h =
    release_all-IsOrderly nodes (release_one s target) targets (λ v p. there v (ground (arith, p)))
      (release_one-IsOrderly nodes s target (there target (ground (arith, ==_refl target))) h)

pub release_all-visited :
    (s : Search) (targets : List String) → (release_all s targets).visited ≡ s.visited
unfolding release_all release_one
release_all-visited s [] = refl
release_all-visited s (target ∷ targets) = release_all-visited (release_one s target) targets

-- Taking the first of the queue.
popped :
    (nodes : Nodes) (s : Search) (current : String) (rest : List String)
    → s.queue ≡ current ∷ rest
    → IsOrderly nodes s
    → IsOrderly nodes (record s { queue = rest; visited = current ∷ s.visited })
popped nodes s current rest e h =
    let once = rw e at h.queued_once in
    let before : (v : String)
        → (contains v rest || (v == current || contains v s.visited)) ≡ true
        → seen s v ≡ true =
      λ v p. rw e (ground (arith, p)) in
    let at_head : contains current s.visited ≡ false =
      h.apart current (rw e (ground (arith, ==_refl current))) in
    record {
      queued_once = ground (arith, once);
      visited_once = ground (arith, at_head, h.visited_once);
      apart = λ v p. ground (
        arith,
        h.apart v (rw e (ground (arith, p))),
        ne_of_contains current v rest (ground (arith, once)) p,
      );
      within = λ v p. h.within v (before v p);
      spent = λ v p. h.spent v (before v p);
    }

pub visit-IsOrderly :
    (nodes : Nodes) (g : Scan) (s : Search) (current : String) (rest : List String)
    → IsSound nodes g
    → s.queue ≡ current ∷ rest
    → IsOrderly nodes s
    → IsOrderly nodes (visit g s current rest)
      × (length (visit g s current rest).visited ≡ suc (length s.visited))
visit-IsOrderly nodes g s current rest sound e h =
    let new : contains current s.visited ≡ false =
      h.apart current (rw e (ground (arith, ==_refl current))) in
    let popped' = record s { queue = rest; visited = add_to current s.visited } in
    let added : add_to current s.visited ≡ current ∷ s.visited = rw new refl in
    (
      release_all-IsOrderly nodes popped' (g.adjacency current)
          (λ v p. (sound.checked current v p).target_in)
          (rw added (popped nodes s current rest e h)),
      ap length (release_all-visited popped' (g.adjacency current)) ∙ ap length added,
    )

pub visited_within :
    (nodes : Nodes) (s : Search) → IsOrderly nodes s → length s.visited ≤ length nodes
visited_within nodes s h =
    let bound =
      length_within s.visited (node_ids nodes) h.visited_once
        (λ v p. contains-node_ids v nodes ∙ h.within v (ground (arith, p))) in
    omega (arith, bound, length-node_ids nodes)

pub start-IsOrderly :
    (nodes : Nodes) (g : Scan) (root : String)
    → roots g nodes ≡ root ∷ []
    → IsOrderly nodes (start g root)
start-IsOrderly nodes g root one =
    let found = rw one at (contains-roots g nodes root) in
    let entry : (has_node root nodes && nat_eq (g.indegree root) 0) ≡ true =
      ground (arith, found, ==_refl root) in
    record {
      queued_once = refl;
      visited_once = refl;
      apart = λ v p. refl;
      within = λ v p. rw ((eq_iff v root).0 (ground (arith, p))) (ground (arith, entry));
      spent = λ v p. rw ((eq_iff v root).0 (ground (arith, p))) (ground (arith, entry));
    }
