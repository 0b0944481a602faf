-- ===== src/Ghs/Network/Laws.antt =====
-- What holds in a network of agents, whatever the agents and the network do.
use mathlib.Core.Path.{subst}
use distributed_leader_elect.Prelude.{
  ℕ, ◌*◌, ◌≤◌, ◌<◌, ◌≡◌, ◌∙◌, List, [], ◌∷◌, ◌++◌, some, u32_mod, eqb_ℤ, eqb_ℤ-sound, if◌then◌else◌,
  Bool-cases, not, inl, inr,
}
use distributed_leader_elect.Errno.{process_selfmsg, process_notme, process_no_edge_found}
use distributed_leader_elect.Edge.{Agent, Edge}
use distributed_leader_elect.Msg.{Msg, type_of, blank_msg}
use distributed_leader_elect.Seque.{make, pop_item}
use distributed_leader_elect.Seque.Inv.{IsValid, make-IsValid}
use distributed_leader_elect.Seque.Run.{
  push_all, push_all-IsValid, pop_item-IsValid, contents-pop_item,
}
use distributed_leader_elect.Seque.Refine.{contents, contents-make}
use distributed_leader_elect.Ghs.State.{Ctx, fail}
use distributed_leader_elect.Ghs.Peers.{construct, has_edge}
use distributed_leader_elect.Ghs.Search.{start_round}
use distributed_leader_elect.Ghs.Process.{process}
use distributed_leader_elect.Ghs.Frame.{Keeps, Keeps-refl, Keeps-trans}
use distributed_leader_elect.Ghs.Contract.{Own}
use distributed_leader_elect.Ghs.Handlers.{contents-Own}
use distributed_leader_elect.Ghs.WellFormed.{WellFormed, Keeps-WellFormed}
use distributed_leader_elect.Ghs.WellFormed.Construct.{construct-WellFormed, construct_same_id}
use distributed_leader_elect.Ghs.Promise.{process-Keeps, process-Sends, start_round-Sends}
use distributed_leader_elect.Ghs.Network.Meaning.{meant, process-meant}
use distributed_leader_elect.Ghs.Network.{
  Net, replace, begin_at, hand_to, post_from, NetStep, rounds, posts, arrives, vanishes, repeats,
  Run, opens, goes_on,
}

-- Every message in flight names the agent that posted it as its sender, and has the type of its
-- payload.
abbrev pub Signed : List (Agent × Msg) → Type 0
Signed [] = Unit {0}
Signed ((i, m) ∷ ms) = (m.from ≡ i) × (m.type ≡ type_of m.payload) × Signed ms

Signed-append : (xs ys : List (Agent × Msg)) → Signed xs → Signed ys → Signed (xs ++ ys)
Signed-append [] ys h k = k
Signed-append ((i, m) ∷ xs) ys h k = (h.0, h.1, Signed-append xs ys h.2 k)

-- A message somewhere in flight, and the others.
Signed-split :
    (xs : List (Agent × Msg)) (i : Agent) (m : Msg) (ys : List (Agent × Msg))
    → Signed (xs ++ ((i, m) ∷ ys))
    → (m.from ≡ i) × (m.type ≡ type_of m.payload) × Signed (xs ++ ys)
Signed-split [] i m ys h = h
Signed-split ((j, k) ∷ xs) i m ys h =
    let (f, t, rest) = Signed-split xs i m ys h.2 in (f, t, (h.0, h.1, rest))

module _ (max_agents capacity : ℕ) (edges : Agent → List Edge) where
  -- The agent `i` is well formed and has its id and the edges that it was built with, but for their
  -- statuses; its queue is valid, and holds its own messages, each of the type of its payload.
  pub record Honest (i : Agent) (c : Ctx) : Type 0 where
    pub object : WellFormed c.state
    pub same_agent : c.state.my_id ≡ i
    pub topology : Keeps (construct max_agents i (edges i)) c.state
    pub queue : IsValid c.buf
    pub waiting : Own i (contents c.buf)

  pub record NetSound (n : Net) : Type 0 where
    pub each : (i : Agent) → Honest i (n.agents i)
    pub in_flight : Signed n.wire

  fresh-Honest :
      (i : Agent)
      → 0 < capacity
      → 2 * capacity ≤ u32_mod
      → Honest i (record {
        state = construct max_agents i (edges i);
        buf = make blank_msg capacity;
        qsz = 0;
      })
  fresh-Honest i room small = record {
    object = construct-WellFormed max_agents i (edges i);
    same_agent = construct_same_id max_agents i (edges i);
    topology = Keeps-refl _;
    queue = make-IsValid blank_msg capacity room small;
    waiting = rw (contents-make blank_msg capacity) tt;
  }

  -- A call that keeps the topology and pushes messages of the agent.
  call-Honest :
      (i : Agent) (c d : Ctx) (sent : List Msg)
      → Honest i c
      → Keeps c.state d.state
      → d.buf ≡ push_all c.buf sent
      → Own c.state.my_id sent
      → Honest i d
  call-Honest i c d sent h k p own = record {
    object = Keeps-WellFormed k h.object;
    same_agent = k.same_id ∙ h.same_agent;
    topology = Keeps-trans h.topology k;
    queue = rw p (push_all-IsValid c.buf sent h.queue);
    waiting =
        rw p
          (contents-Own i sent c.buf h.queue h.waiting (subst (λ a. Own a sent) h.same_agent own));
  }

  process-Honest : (i : Agent) (m : Msg) (c : Ctx) → Honest i c → Honest i (process m c).1
  process-Honest i m c h =
      let (sent, p, own, _) = process-Sends m c h.queue in
      call-Honest i c (process m c).1 sent h (process-Keeps m c h.queue) p own

  start_round-Honest : (i : Agent) (c : Ctx) → Honest i c → Honest i (start_round c).1
  start_round-Honest i c h =
      let (k, (sent, p, own, _)) = start_round-Sends c h.queue in
      call-Honest i c (start_round c).1 sent h k p own

  -- The agent takes its oldest message from the queue.
  taken-Honest :
      (i : Agent) (m : Msg) (c : Ctx)
      → (pop_item c.buf).1 ≡ some m
      → Honest i c
      → Honest i (record c { buf = (pop_item c.buf).2 }) × Own i (m ∷ [])
  taken-Honest i m c e h =
      let own : Own i (m ∷ contents (pop_item c.buf).2) =
        subst (Own i) (contents-pop_item c.buf m h.queue e) h.waiting in
      (
        record {
          object = h.object;
          same_agent = h.same_agent;
          topology = h.topology;
          queue = pop_item-IsValid c.buf h.queue;
          waiting = own.2;
        },
        (own.0, own.1, tt),
      )

  replace-Honest :
      (i : Agent) (c : Ctx) (agents : Agent → Ctx)
      → Honest i c
      → ((j : Agent) → Honest j (agents j))
      → (j : Agent) → Honest j (replace i c agents j)
  replace-Honest i c agents h all j = elim (Bool-cases (eqb_ℤ i j)) [
    | inl e ↦ rw e (subst (λ k. Honest k c) (eqb_ℤ-sound i j e) h)
    | inr e ↦ rw e (all j)
  ]

  NetStep-NetSound : {n k : Net} → NetStep n k → NetSound n → NetSound k
  unfolding begin_at hand_to post_from
  NetStep-NetSound {n} (rounds i) s = record {
    each = replace-Honest i _ n.agents (start_round-Honest i (n.agents i) (s.each i)) s.each;
    in_flight = s.in_flight;
  }
  NetStep-NetSound {n} (posts i m e) s =
      let (h, own) = taken-Honest i m (n.agents i) e (s.each i) in
      record {
        each = replace-Honest i _ n.agents h s.each;
        in_flight = Signed-append n.wire ((i, m) ∷ []) s.in_flight own;
      }
  NetStep-NetSound {n} (arrives i j m before after e) s = record {
    each = replace-Honest j _ n.agents (process-Honest j m (n.agents j) (s.each j)) s.each;
    in_flight = (Signed-split before i m after (subst Signed e s.in_flight)).2;
  }
  NetStep-NetSound {n} (vanishes i m before after e) s = record {
    each = s.each;
    in_flight = (Signed-split before i m after (subst Signed e s.in_flight)).2;
  }
  NetStep-NetSound {n} (repeats i m before after e) s =
      let (f, t, _) = Signed-split before i m after (subst Signed e s.in_flight) in
      record { each = s.each; in_flight = (f, t, s.in_flight) }

  -- With queues of between 1 and 2 ^ 31 cells, in every network that can come about, whatever is
  -- lost, repeated, overtaken or misdelivered: every agent is well formed and has its id and the
  -- edges that it was built with, but for their statuses; every queue is valid and holds messages of
  -- its own agent only; every message in flight names the agent that posted it as its sender; and
  -- every message, in a queue or in flight, has the type of its payload.
  pub Run-NetSound :
      {n : Net}
      → 0 < capacity
      → 2 * capacity ≤ u32_mod
      → Run max_agents capacity edges n
      → NetSound n
  Run-NetSound room small opens = record { each = λ i. fresh-Honest i room small; in_flight = tt }
  Run-NetSound room small (goes_on r s) = NetStep-NetSound s (Run-NetSound room small r)

  -- In such a network take any message in flight, posted by an agent `i`, and any agent `j`. If the
  -- message is for `j`, and `j` is another agent that was built with an edge to `i`, then `process`
  -- does at `j` what the payload says, to the account of `i`: no member of the union is read but the
  -- active one. In all other cases `process` fails at `j` and changes nothing.
  pub Run-Delivers :
      {n : Net} (i j : Agent) (m : Msg) (before after : List (Agent × Msg))
      → 0 < capacity
      → 2 * capacity ≤ u32_mod
      → Run max_agents capacity edges n
      → n.wire ≡ before ++ ((i, m) ∷ after)
      → process m (n.agents j) ≡ (
          if eqb_ℤ i j
          then (fail process_selfmsg, n.agents j)
          else if not (eqb_ℤ m.to j)
          then (fail process_notme, n.agents j)
          else if not (has_edge (construct max_agents j (edges j)) i)
          then (fail process_no_edge_found, n.agents j)
          else meant i m.payload (n.agents j))
  Run-Delivers {n} i j m before after room small r e =
      let s = Run-NetSound room small r in
      let (f, t, _) = Signed-split before i m after (subst Signed e s.in_flight) in
      let h = s.each j in
      process-meant i j m (n.agents j) (construct max_agents j (edges j)) f t h.same_agent
        h.topology
