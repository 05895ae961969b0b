-- ===== src/Leaderboard/Points.antt =====
-- The trees of `ScoreCalculator`s of internal/leaderboard/score_calculator.go and their points.
pub mod Laws
use carbonable_leaderboard_b.Prelude.{ℕ, zero, suc}
use carbonable_leaderboard_b.Go.Outcome.{Outcome, ok, panic, ◌>>=◌}
use carbonable_leaderboard_b.Go.Uint256.{Uint256}

mutual
  pub data ScoreCalculator : Type 0 where
    base : ScoreCalculator
    composite : Nodes → ScoreCalculator
    addition : ℕ → Inner → ScoreCalculator
    boost : ℕ → Inner → ScoreCalculator

  -- an `inner` that may be nil
  pub data Inner : Type 0 where
    absent : Inner
    present : ScoreCalculator → Inner

  pub data Nodes : Type 0 where
    none : Nodes
    node : ScoreCalculator → Nodes → Nodes

abbrev pub new_addition_score : ℕ → ScoreCalculator → ScoreCalculator
new_addition_score value inner = addition value (present inner)

-- `Add`: appends to the nodes
unfoldable pub add_node : Nodes → ScoreCalculator → Nodes
add_node none n = node n none
add_node (node m nodes) n = node m (add_node nodes n)

-- `Aggregate`: the leaves take the argument for their inner node, the others drop it
unfoldable pub aggregate : ScoreCalculator → ScoreCalculator → ScoreCalculator
aggregate base n = base
aggregate (composite nodes) n = composite nodes
aggregate (addition value inner) n = addition value (present n)
aggregate (boost factor inner) n = boost factor (present n)

-- `Get`: out of range it panics
unfoldable pub get_node : Nodes → ℕ → Outcome ScoreCalculator
get_node none i = panic
get_node (node m nodes) zero = ok m
get_node (node m nodes) (suc i) = get_node nodes i

-- `AddLeaf`: wraps the node at `i` into the leaf; out of range it panics
unfoldable pub add_leaf : Nodes → ℕ → ScoreCalculator → Outcome Nodes
unfolding aggregate
add_leaf none i leaf = panic
add_leaf (node m nodes) zero leaf = ok (node (aggregate leaf m) nodes)
add_leaf (node m nodes) (suc i) leaf = add_leaf nodes i leaf >>= λ rest. ok (node m rest)

module _ (u : Uint256) where
  -- `GetPoints`. The composite wraps its nodes' points one after the other into additions over the
  -- base; `sum_nodes` has the points of what is wrapped so far.
  unfoldable mutual
    pub get_points : ScoreCalculator → ℕ
    get_points base = 0
    get_points (composite nodes) = sum_nodes nodes 0
    get_points (addition value inner) = added value inner
    get_points (boost factor inner) = boosted factor inner

    pub added : ℕ → Inner → ℕ
    added value absent = value
    added value (present inner) = u.add value (get_points inner)

    pub boosted : ℕ → Inner → ℕ
    boosted factor absent = 0
    boosted factor (present inner) = u.div (u.mul factor (get_points inner)) 100

    pub sum_nodes : Nodes → ℕ → ℕ
    sum_nodes none c = c
    sum_nodes (node n nodes) c = sum_nodes nodes (u.add (get_points n) c)
