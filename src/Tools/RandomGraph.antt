-- ===== src/Tools/RandomGraph.antt =====
-- src/tools/random-graph.cpp: a complete graph with random weights. What `rand` returns, call by call,
-- is a parameter.
use distributed_leader_elect.Prelude.{ℕ, zero, suc, ◌+◌, ◌%◌, List, [], ◌∷◌, ◌++◌, pos}
use distributed_leader_elect.Tools.{Line}

abbrev pub line : ℕ → ℕ → ℕ → Line
line i j wt = record { from = pos i; to = pos j; weight = pos wt; mark = b'?' }

module _ (rand : ℕ → ℕ) where
  -- The inner loop: `k` nodes from `j` on. `calls` counts the calls of `rand`.
  unfoldable pub edges_of : ℕ → ℕ → ℕ → ℕ → List Line
  edges_of i zero j calls = []
  edges_of i (suc k) j calls =
      let wt = rand calls % 100 + 1 in line i j wt ∷ line j i wt ∷ edges_of i k (suc j) (suc calls)

  -- The outer loop: `k` nodes from `i` on.
  unfoldable pub graph_from : ℕ → ℕ → ℕ → List Line
  unfolding edges_of
  graph_from zero i calls = []
  graph_from (suc k) i calls =
      line i i 0 ∷ (edges_of i k (suc i) calls ++ graph_from k (suc i) (calls + k))

  unfoldable pub random_graph : ℕ → List Line
  unfolding graph_from
  random_graph n = graph_from n 0 0
