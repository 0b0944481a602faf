-- ===== src/Ghs/Reach/Parent.antt =====
-- The one parent of an agent, in every context that can be reached.
use distributed_leader_elect.Prelude.{ℕ, ◌*◌, ◌≤◌, ◌<◌, ◌≡◌, List, length, u32_mod}
use distributed_leader_elect.Edge.{Agent, Edge}
use distributed_leader_elect.Msg.{MsgType, Payload}
use distributed_leader_elect.Seque.Run.{push_all}
use distributed_leader_elect.Ghs.State.{GhsState, Ctx, done}
use distributed_leader_elect.Ghs.Peers.{get_parent_id, construct}
use distributed_leader_elect.Ghs.Casts.{mst_convergecast}
use distributed_leader_elect.Ghs.Invariant.{Closed}
use distributed_leader_elect.Ghs.Invariant.Handlers.{process-Keeping, start_round-Keeping}
use distributed_leader_elect.Ghs.OneParent.{OneParent-Closed, to_parent, mst_convergecast_lem}
use distributed_leader_elect.Ghs.OneParent.Construct.{Unmarked, construct-OneParent}
use distributed_leader_elect.Ghs.Reach.{
  Step, starts, receives, takes, recounts, Reachable, begins, steps_on, Reachable-Sound,
}

-- A step keeps what the setters keep.
pub Step-kept : {P : GhsState → Type 0} {c d : Ctx} → Closed P → Step c d → P c.state → P d.state
Step-kept h (starts c) p = (start_round-Keeping h).kept c p
Step-kept h (receives m c) p = (process-Keeping h m).kept c p
Step-kept h (takes c) p = p
Step-kept h (recounts n c) p = p

module _ {max_agents capacity : ℕ} {my_id : Agent} {edges : List Edge} where
  -- A predicate of the object that the setters keep holds in every reachable context, if it holds of
  -- what the constructor builds.
  pub Reachable-kept :
      {P : GhsState → Type 0} {c : Ctx}
      → Closed P
      → P (construct max_agents my_id edges)
      → Reachable max_agents capacity my_id edges c
      → P c.state
  Reachable-kept h p begins = p
  Reachable-kept h p (steps_on r s) = Step-kept h s (Reachable-kept h p r)

  -- With a queue of between 1 and 2 ^ 31 cells, and edges none of which is marked as the parent's: in
  -- every context that can be reached, a convergecast sends one message, to the agent that
  -- `get_parent_id` returns, and none if that is the agent itself; it reports their number.
  pub Reachable-mst_convergecast :
      {c : Ctx} (t : MsgType) (d : Payload)
      → 0 < capacity
      → 2 * capacity ≤ u32_mod
      → Unmarked edges
      → Reachable max_agents capacity my_id edges c
      → let up = to_parent (get_parent_id c.state) c.state.my_id t d in
        mst_convergecast c.state t d c.buf ≡ (done (length up), push_all c.buf up)
  Reachable-mst_convergecast {c} t d some small u r =
      mst_convergecast_lem c.state t d c.buf (Reachable-Sound some small r).object
        (Reachable-kept OneParent-Closed (construct-OneParent max_agents my_id edges u) r)
