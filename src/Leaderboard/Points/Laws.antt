-- ===== src/Leaderboard/Points/Laws.antt =====
-- The trees of score calculators (internal/leaderboard/score_calculator.go).
use carbonable_leaderboard_b.Prelude.{
  ℕ, zero, suc, ◌+◌, ◌%◌, ◌<◌, ◌≡◌, ◌⊎◌, inl, inr, refl, ap, arith,
}
use carbonable_leaderboard_b.Go.Outcome.{ok}
use carbonable_leaderboard_b.Go.Uint256.{Uint256, Documented, modulus}
use carbonable_leaderboard_b.Leaderboard.Points.{
  ScoreCalculator, composite, Nodes, none, node, get_points, sum_nodes, aggregate, get_node,
  add_leaf,
}

-- The points of the nodes, added without a bound.
abbrev pub node_sum : Uint256 → Nodes → ℕ
node_sum u none = 0
node_sum u (node n nodes) = get_points u n + node_sum u nodes

module _ (u : Uint256) (d : Documented u) where
  sum_nodes-eq :
      (nodes : Nodes) (c : ℕ) → c < modulus → sum_nodes u nodes c ≡ (node_sum u nodes + c) % modulus
  unfolding get_points
  sum_nodes-eq none c h = omega arith
  sum_nodes-eq (node n nodes) c h =
      omega (arith, d.add_wraps (get_points u n) c, sum_nodes-eq nodes (u.add (get_points u n) c))

  -- A composite has the points of its nodes together, modulo 2^256.
  pub composite-sum : (nodes : Nodes) → get_points u (composite nodes) ≡ node_sum u nodes % modulus
  unfolding get_points
  composite-sum nodes = omega (arith, sum_nodes-eq nodes 0)

-- `AddLeaf` at the index of a node puts there the leaf with that node in it, and changes no other
-- node.
pub add_leaf_lem :
    (nodes : Nodes) (i : ℕ) (leaf n : ScoreCalculator)
    → get_node nodes i ≡ ok n
    → (nodes' : Nodes) × (add_leaf nodes i leaf ≡ ok nodes')
      × (get_node nodes' i ≡ ok (aggregate leaf n))
      × ((j : ℕ) → (j ≡ i) ⊎ (get_node nodes' j ≡ get_node nodes j))
unfolding add_leaf get_node
add_leaf_lem none i leaf n h = cc
add_leaf_lem (node m nodes) zero leaf n h =
    (node (aggregate leaf m) nodes, refl, ground arith, others)
  where
    others :
        (j : ℕ) → (j ≡ 0) ⊎ (get_node (node (aggregate leaf m) nodes) j ≡ get_node (node m nodes) j)
    others zero = inl refl
    others (suc j) = inr refl
add_leaf_lem (node m nodes) (suc i) leaf n h =
    let (rest, added, here, elsewhere) = add_leaf_lem nodes i leaf n h in
    (node m rest, rw added, here, others rest elsewhere)
  where
    others :
        (rest : Nodes)
        → ((j : ℕ) → (j ≡ i) ⊎ (get_node rest j ≡ get_node nodes j))
        → (j : ℕ) → (j ≡ suc i) ⊎ (get_node (node m rest) j ≡ get_node (node m nodes) j)
    others rest elsewhere zero = inr refl
    others rest elsewhere (suc j) = elim (elsewhere j) [
      | inl same ↦ inl (ap suc same)
      | inr kept ↦ inr kept
    ]
