-- ===== src/Ghs/Reach.antt =====
-- Every context that a program can bring an agent into: it builds the object and the queue, starts
-- rounds, hands over messages, and takes messages from the queue, in any order.
pub mod Parent
use distributed_leader_elect.Prelude.{ℕ, ◌*◌, ◌≤◌, ◌<◌, ◌≡◌, ◌∙◌, List, u32_mod}
use distributed_leader_elect.Edge.{Agent, Edge, Status, mst, mst_parent}
use distributed_leader_elect.Msg.{Msg, MsgType, Payload, blank_msg}
use distributed_leader_elect.Seque.{make, pop_item}
use distributed_leader_elect.Seque.Inv.{IsValid, make-IsValid}
use distributed_leader_elect.Seque.Run.{push_all-IsValid, pop_item-IsValid}
use distributed_leader_elect.Ghs.State.{Ctx}
use distributed_leader_elect.Ghs.Peers.{construct}
use distributed_leader_elect.Ghs.Casts.{typecast, mst_broadcast, mst_convergecast}
use distributed_leader_elect.Ghs.Casts.Addressed.{Reached, casts_reach}
use distributed_leader_elect.Ghs.Search.{start_round}
use distributed_leader_elect.Ghs.Process.{process}
use distributed_leader_elect.Ghs.WellFormed.{WellFormed, Keeps-WellFormed, WellFormed-Rooted}
use distributed_leader_elect.Ghs.WellFormed.Construct.{construct-WellFormed, construct_same_id}
use distributed_leader_elect.Ghs.Promise.{process-Keeps, process-Sends, start_round-Sends}

-- What the program may do next. `recounts` is a new variable for the count.
pub data Step : Ctx → Ctx → Type 0 where
  starts : (c : Ctx) → Step c (start_round c).1
  receives : (m : Msg) (c : Ctx) → Step c (process m c).1
  takes : (c : Ctx) → Step c (record c { buf = (pop_item c.buf).2 })
  recounts : (n : ℕ) (c : Ctx) → Step c (record c { qsz = n })

module _ (max_agents capacity : ℕ) (my_id : Agent) (edges : List Edge) where
  abbrev pub initial : Ctx
  initial = record {
    state = construct max_agents my_id edges;
    buf = make blank_msg capacity;
    qsz = 0;
  }

  pub data Reachable : Ctx → Type 0 where
    begins : Reachable initial
    steps_on : {c d : Ctx} → Reachable c → Step c d → Reachable d

-- What holds of every context that can be reached.
pub record Sound (my_id : Agent) (c : Ctx) : Type 0 where
  pub object : WellFormed c.state
  pub queue : IsValid c.buf
  pub same_agent : c.state.my_id ≡ my_id

Step-Sound : {c d : Ctx} (my_id : Agent) → Step c d → Sound my_id c → Sound my_id d
Step-Sound my_id (starts c) h =
    let (k, (sent, p, _, _)) = start_round-Sends c h.queue in
    record {
      object = Keeps-WellFormed k h.object;
      queue = rw p (push_all-IsValid c.buf sent h.queue);
      same_agent = k.same_id ∙ h.same_agent;
    }
Step-Sound my_id (receives m c) h =
    let k = process-Keeps m c h.queue in
    let (sent, p, _, _) = process-Sends m c h.queue in
    record {
      object = Keeps-WellFormed k h.object;
      queue = rw p (push_all-IsValid c.buf sent h.queue);
      same_agent = k.same_id ∙ h.same_agent;
    }
Step-Sound my_id (takes c) h = record {
  object = h.object;
  queue = pop_item-IsValid c.buf h.queue;
  same_agent = h.same_agent;
}
Step-Sound my_id (recounts n c) h = record {
  object = h.object;
  queue = h.queue;
  same_agent = h.same_agent;
}

module _ {max_agents capacity : ℕ} {my_id : Agent} {edges : List Edge} where
  -- With a queue of between 1 and 2 ^ 31 cells: whatever edges the constructor is given, and whatever
  -- calls follow with whatever messages, the object stays well formed (arrays in their sizes, a
  -- different peer in every cell in use, none of them the agent itself, each with its own edge), the
  -- queue stays valid, and the agent keeps its id.
  pub Reachable-Sound :
      {c : Ctx}
      → 0 < capacity
      → 2 * capacity ≤ u32_mod
      → Reachable max_agents capacity my_id edges c
      → Sound my_id c
  Reachable-Sound some small begins = record {
    object = construct-WellFormed max_agents my_id edges;
    queue = make-IsValid blank_msg capacity some small;
    same_agent = construct_same_id max_agents my_id edges;
  }
  Reachable-Sound some small (steps_on r s) = Step-Sound my_id s (Reachable-Sound some small r)

  -- On an object that can be reached, with a queue of between 1 and 2 ^ 31 cells, no cast fails: each
  -- pushes one message along each edge of its status and reports their number.
  pub Reachable-Reached :
      {c : Ctx} (status : Status) (t : MsgType) (d : Payload)
      → 0 < capacity
      → 2 * capacity ≤ u32_mod
      → Reachable max_agents capacity my_id edges c
      → Reached c.state status t d c.buf (typecast c.state status t d c.buf)
        × Reached c.state mst t d c.buf (mst_broadcast c.state t d c.buf)
        × Reached c.state mst_parent t d c.buf (mst_convergecast c.state t d c.buf)
  Reachable-Reached {c} status t d some small r =
      casts_reach c.state status t d c.buf
        (WellFormed-Rooted c.state (Reachable-Sound some small r).object)
