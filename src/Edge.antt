-- ===== src/Edge.antt =====
-- include/ghs/agent.h, level.h, edge.h and src/lib/agent.cpp, edge.cpp: ids, levels, metrics, edges.
use distributed_leader_elect.Prelude.{
  ℕ, ◌-◌, ◌^◌, ℤ, pos, negsuc, leb_ℤ, Bool, true, false, not, ◌&&◌, ◌==◌,
}

-- `agent_t` and `level_t` are `int`; `metric_t` is `unsigned long`.
abbrev pub Agent : Type 0
Agent = ℤ

abbrev pub Level : Type 0
Level = ℤ

abbrev pub Metric : Type 0
Metric = ℕ

abbrev pub no_agent : Agent
no_agent = negsuc 0

abbrev pub level_start : Level
level_start = pos 0

-- `std::numeric_limits<unsigned long>::max()`.
abbrev pub worst_metric : Metric
worst_metric = 2 ^ 64 - 1

abbrev pub metric_not_set : Metric
metric_not_set = 0

-- `enum status_t`; `deleted` is -1.
pub data Status : Type 0 where
  unknown mst mst_parent deleted : Status

-- `==` on statuses.
abbrev pub eqb_status : Status → Status → Bool
eqb_status unknown unknown = true
eqb_status mst mst = true
eqb_status mst_parent mst_parent = true
eqb_status deleted deleted = true
eqb_status _ _ = false

-- `struct Edge`: `root` is the near end, `peer` the far end.
pub record Edge : Type 0 where
  pub peer : Agent
  pub root : Agent
  pub status : Status
  pub metric_val : Metric

abbrev pub worst_edge : Edge
worst_edge = record {
  peer = no_agent;
  root = no_agent;
  status = unknown;
  metric_val = worst_metric;
}

-- The three overloads of `is_valid`.
unfoldable pub is_valid_agent : Agent → Bool
is_valid_agent a = leb_ℤ (pos 0) a

unfoldable pub is_valid_metric : Metric → Bool
is_valid_metric m = not (m == metric_not_set) && not (m == worst_metric)

unfoldable pub is_valid_edge : Edge → Bool
unfolding is_valid_agent is_valid_metric
is_valid_edge e = is_valid_agent e.peer && is_valid_agent e.root && is_valid_metric e.metric_val
