-- ===== src/Ghs/Accessors.antt =====
-- The accessors of single members, and the setters of the view of the partition.
use distributed_leader_elect.Prelude.{ℕ, Bool}
use distributed_leader_elect.Edge.{Agent, Level, Edge}
use distributed_leader_elect.Ghs.State.{GhsState, Result, done}

abbrev pub mwoe : GhsState → Edge
mwoe s = s.best_edge

abbrev pub get_id : GhsState → Agent
get_id s = s.my_id

abbrev pub get_n_peers : GhsState → ℕ
get_n_peers s = s.n_peers

abbrev pub get_leader_id : GhsState → Agent
get_leader_id s = s.my_leader

abbrev pub get_level : GhsState → Level
get_level s = s.my_level

abbrev pub is_converged : GhsState → Bool
is_converged s = s.algorithm_converged

abbrev pub set_leader_id : GhsState → Agent → Result (Unit {0}) × GhsState
set_leader_id s leader = (done tt, record s { my_leader = leader })

abbrev pub set_level : GhsState → Level → Result (Unit {0}) × GhsState
set_level s l = (done tt, record s { my_level = l })
