-- ===== src/Ghs/Network.antt =====
-- Several agents that run the code of ghs_impl.hpp, and the messages in flight between them. Which
-- agent acts next is open, and so is what the network does with a message: it may deliver it, at
-- any time and to any agent, lose it or repeat it.
pub mod Meaning
pub mod Laws
pub mod Duel
use distributed_leader_elect.Prelude.{ℕ, ◌≡◌, List, [], ◌∷◌, ◌++◌, some, eqb_ℤ, if◌then◌else◌}
use distributed_leader_elect.Edge.{Agent, Edge}
use distributed_leader_elect.Msg.{Msg}
use distributed_leader_elect.Seque.{pop_item}
use distributed_leader_elect.Ghs.State.{Ctx}
use distributed_leader_elect.Ghs.Search.{start_round}
use distributed_leader_elect.Ghs.Process.{process}
use distributed_leader_elect.Ghs.Reach.{initial}

-- Every message in flight stands behind the agent whose program posted it.
pub record Net : Type 0 where
  pub agents : Agent → Ctx
  pub wire : List (Agent × Msg)

abbrev pub replace : Agent → Ctx → (Agent → Ctx) → Agent → Ctx
replace i c agents j = if eqb_ℤ i j then c else agents j

-- The next context of one agent.
abbrev pub becomes : Agent → Ctx → Net → Net
becomes i c n = record n { agents = replace i c n.agents }

-- The agent `i` starts a round.
unfoldable pub begin_at : Agent → Net → Net
begin_at i n = becomes i (start_round (n.agents i)).1 n

-- The agent `j` is handed a message, and the wire is `rest` from then on.
unfoldable pub hand_to : Agent → Msg → List (Agent × Msg) → Net → Net
hand_to j m rest n = record n {
  agents = replace j (process m (n.agents j)).1 n.agents;
  wire = rest;
}

-- The program of the agent `i` takes the message `m` from the agent's queue, and posts it.
unfoldable pub post_from : Agent → Msg → Net → Net
post_from i m n = record n {
  agents = replace i (record (n.agents i) { buf = (pop_item (n.agents i).buf).2 }) n.agents;
  wire = n.wire ++ ((i, m) ∷ []);
}

pub data NetStep (n : Net) : Net → Type 0 where
  rounds : (i : Agent) → NetStep n (begin_at i n)
  posts :
      (i : Agent) (m : Msg) → (pop_item (n.agents i).buf).1 ≡ some m → NetStep n (post_from i m n)
  arrives :
      (i j : Agent) (m : Msg) (before after : List (Agent × Msg))
      → n.wire ≡ before ++ ((i, m) ∷ after)
      → NetStep n (hand_to j m (before ++ after) n)
  vanishes :
      (i : Agent) (m : Msg) (before after : List (Agent × Msg))
      → n.wire ≡ before ++ ((i, m) ∷ after)
      → NetStep n (record n { wire = before ++ after })
  repeats :
      (i : Agent) (m : Msg) (before after : List (Agent × Msg))
      → n.wire ≡ before ++ ((i, m) ∷ after)
      → NetStep n (record n { wire = (i, m) ∷ n.wire })

-- The agent `i` is built with its id and the edges `edges i`; nothing is in flight.
module _ (max_agents capacity : ℕ) (edges : Agent → List Edge) where
  abbrev pub quiet_net : Net
  quiet_net = record { agents = λ i. initial max_agents capacity i (edges i); wire = [] }

  pub data Run : Net → Type 0 where
    opens : Run quiet_net
    goes_on : {n k : Net} → Run n → NetStep n k → Run k
