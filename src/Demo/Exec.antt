-- ===== src/Demo/Exec.antt =====
-- src/demo/ghs-demo.h: `initialize_ghs`, and the loop of `do_main` that ties the agent to the network.
pub mod Build
pub mod Outgoing
pub mod Delivery
pub mod Retry
pub mod Main
use distributed_leader_elect.Prelude.{
  ℕ, zero, suc, List, [], ◌∷◌, Bool, true, false, ◌&&◌, Option, none, some, ℤ, pos, eqb_ℤ, ltb,
  ◌==◌, length, take, if◌then◌else◌,
}
use distributed_leader_elect.Errno.{is_ok}
use distributed_leader_elect.Edge.{Edge, unknown}
use distributed_leader_elect.Msg.{Msg}
use distributed_leader_elect.Seque.{StaticQueue, size, push, pop_item}
use distributed_leader_elect.Ghs.State.{GhsState, Ctx, Result, done, fail}
use distributed_leader_elect.Ghs.Peers.{construct}
use distributed_leader_elect.Ghs.Accessors.{is_converged}
use distributed_leader_elect.Ghs.Search.{start_round}
use distributed_leader_elect.Ghs.Process.{process}
use distributed_leader_elect.Ghs.Search.{or_blank}
use distributed_leader_elect.Demo.Config.{Config, max_n, start, load, test, Command}
use distributed_leader_elect.Demo.Wire.{
  CommsErrno, ok, err_hangup, err_nng, err_bad_payload_sz, err_no_payload_type,
  err_unrecognized_payload_type, err_null_src, err_dest_unset, WireMessage, PayloadType, not_set,
  control, metrics, ping, ghs, other, to_u16, overwrite, declared,
}
use distributed_leader_elect.Demo.Comms.{Comms}
use distributed_leader_elect.Demo.Comms.Receive.{get_next}
use distributed_leader_elect.Demo.Comms.Send.{Attempt, Sending, send}
use distributed_leader_elect.Demo.Comms.Measure.{kbps_to, unique_link_metric_to}

module _ (quotient : ℕ → ℕ) {F : Type 0} where
  -- The edge to the agent `i`.
  unfoldable pub edge_towards : Config F → Comms F → ℕ → Edge
  edge_towards cfg c i = record {
    peer = pos i;
    root = cfg.my_id;
    status = unknown;
    metric_val = unique_link_metric_to quotient c i;
  }

  -- The loop of `initialize_ghs`, from the agent `i` on, for `k` agents: no edge to itself, and none
  -- over a dead link.
  unfoldable pub live_edges : Config F → Comms F → ℕ → ℕ → List Edge
  unfolding edge_towards
  live_edges cfg c zero i = []
  live_edges cfg c (suc k) i =
      let rest = live_edges cfg c k (suc i) in
      if eqb_ℤ (pos i) cfg.my_id
      then rest
      else if kbps_to c i == 0
      then rest
      else edge_towards cfg c i ∷ rest

  unfoldable pub initialize_ghs : Config F → Comms F → GhsState
  unfolding live_edges
  initialize_ghs cfg c = construct max_n cfg.my_id (live_edges cfg c cfg.n_agents 0)

-- The variables of `do_main`: `config`, `comms`, `ghsp` with `ghs_buf` and the count, and `wegood`.
pub record Exec (F : Type 0) : Type 0 where
  pub config : Config F
  pub comms : Comms F
  pub agent : Ctx
  pub wegood : Bool

-- Whether the loop over the outgoing messages goes on, what was handed to the network, and the
-- variables.
pub record Round (F : Type 0) : Type 0 where
  pub goes_on : Bool
  pub on_wire : List WireMessage
  pub after : Exec F
