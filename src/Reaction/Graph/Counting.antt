-- ===== src/Reaction/Graph/Counting.antt =====
-- Counting nodes: a list of different nodes is no longer than the list of all nodes.
use rexec_op.Base.{
  suc, ◌≤◌, String, ◌≡◌, refl, ap, ◌∙◌, inl, inr, Bool, true, false, List, [], ◌∷◌, arith, ◌==◌,
  ==_refl, eq_iff, contains, distinct, length, if◌then◌else◌, Bool-cases,
}
use rexec_op.Reaction.Traversal.{Nodes, has_node}

abbrev pub node_ids : Nodes → List String
node_ids [] = []
node_ids ((id, d) ∷ rest) = id ∷ node_ids rest

pub contains-node_ids :
    (v : String) (nodes : Nodes) → contains v (node_ids nodes) ≡ has_node v nodes
contains-node_ids v [] = refl
contains-node_ids v ((id, d) ∷ rest) = ground (arith, contains-node_ids v rest)

pub length-node_ids : (nodes : Nodes) → length (node_ids nodes) ≡ length nodes
length-node_ids [] = refl
length-node_ids ((id, d) ∷ rest) = ap suc (length-node_ids rest)

-- A text that occurs once fewer.
abbrev pub drop : String → List String → List String
drop a [] = []
drop a (x ∷ xs) = if a == x then xs else x ∷ drop a xs

length-drop :
    (a : String) (xs : List String) → contains a xs ≡ true → suc (length (drop a xs)) ≡ length xs
length-drop a [] h = cc
length-drop a (x ∷ xs) h = ground (arith, length-drop a xs)

contains-drop_ne :
    (a b : String) (xs : List String) → (b == a) ≡ false → contains b (drop a xs) ≡ contains b xs
contains-drop_ne a b [] h = refl
contains-drop_ne a b (x ∷ xs) h =
    ground (arith, eq_iff a x, eq_iff b x, eq_iff b a, contains-drop_ne a b xs)

pub ne_of_contains :
    (a b : String) (xs : List String)
    → contains a xs ≡ false
    → contains b xs ≡ true
    → (b == a) ≡ false
ne_of_contains a b xs out there = elim (Bool-cases (b == a)) [
  | inr ne ↦ ne
  | inl same ↦ absurd (clash (rw ((eq_iff b a).0 same) at there) out)
]
  where
    clash : {b : Bool} → b ≡ true → b ≡ false → ⊥
    clash p q = cc

-- A list without repeats is no longer than a list that has all its texts.
pub length_within :
    (xs ys : List String)
    → distinct xs ≡ true
    → ((a : String) → contains a xs ≡ true → contains a ys ≡ true)
    → length xs ≤ length ys
length_within [] ys d h = omega arith
length_within (x ∷ xs) ys d h =
    let out : contains x xs ≡ false = ground (arith, d) in
    let there = h x (ground (arith, ==_refl x)) in
    let rest =
      length_within xs (drop x ys) (ground (arith, d))
        (λ a p. contains-drop_ne x a ys (ne_of_contains x a xs out p) ∙ h a (ground (arith, p))) in
    omega (arith, rest, length-drop x ys there)
