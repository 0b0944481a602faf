-- ===== src/Ghs/WellFormed.antt =====
-- The invariant of `GhsState` on its peers and edges; no call breaks it, since all of them keep what it
-- speaks of.
pub mod Construct
use distributed_leader_elect.Prelude.{
  ℕ, ◌≤◌, ◌<◌, ◌≡◌, ◌∙◌, sym, ap, length, get_or, take, eqb_ℤ, false, List, ◌∷◌, [], zero, suc,
  arith,
}
use distributed_leader_elect.Edge.{Agent, Edge, no_agent, worst_edge}
use distributed_leader_elect.Ghs.State.{GhsState}
use distributed_leader_elect.Ghs.Frame.{Keeps}
use distributed_leader_elect.Ghs.Casts.Addressed.{Rooted, edges_in_use}

-- The cell `j` of the peers, and of the edges.
abbrev pub peer_at : GhsState → ℕ → Agent
peer_at s j = get_or s.peers j no_agent

abbrev pub edge_at : GhsState → ℕ → Edge
edge_at s j = get_or s.outgoing_edges j worst_edge

-- The arrays have their sizes. The cells in use hold different peers, none of which is this agent,
-- and in the same cell an edge from this agent to that peer.
pub record WellFormed (s : GhsState) : Type 0 where
  pub in_room : s.n_peers ≤ s.max_agents
  pub peers_size : length s.peers ≡ s.max_agents
  pub waiting_size : length s.waiting_for_response ≡ s.max_agents
  pub edges_size : length s.outgoing_edges ≡ s.max_agents
  pub prompt_size : length s.response_prompt ≡ s.max_agents
  pub required_size : length s.response_required ≡ s.max_agents
  pub rooted : (j : ℕ) → j < s.n_peers → (edge_at s j).root ≡ s.my_id
  pub matched : (j : ℕ) → j < s.n_peers → (edge_at s j).peer ≡ peer_at s j
  pub foreign : (j : ℕ) → j < s.n_peers → eqb_ℤ (peer_at s j) s.my_id ≡ false
  pub distinct : (i j : ℕ) → i < j → j < s.n_peers → eqb_ℤ (peer_at s i) (peer_at s j) ≡ false

inside : {s t : GhsState} → Keeps s t → (j : ℕ) → j < t.n_peers → j < s.n_peers
inside k j h = omega (arith, k.same_count)

pub peer_kept : {s t : GhsState} → Keeps s t → (j : ℕ) → peer_at t j ≡ peer_at s j
peer_kept k j = ap (λ ps. get_or ps j no_agent) k.same_peers

-- What a call keeps is enough.
pub Keeps-WellFormed : {s t : GhsState} → Keeps s t → WellFormed s → WellFormed t
Keeps-WellFormed {s} {t} k w = record {
  in_room = rw (k.same_count, k.same_max) w.in_room;
  peers_size = rw (k.same_peers, k.same_max) w.peers_size;
  waiting_size = k.same_waiting_size ∙ w.waiting_size ∙ sym k.same_max;
  edges_size = k.same_edges_size ∙ w.edges_size ∙ sym k.same_max;
  prompt_size = k.same_prompt_size ∙ w.prompt_size ∙ sym k.same_max;
  required_size = k.same_required_size ∙ w.required_size ∙ sym k.same_max;
  rooted = λ j h. k.same_root j ∙ w.rooted j (inside k j h) ∙ sym k.same_id;
  matched = λ j h. k.same_peer j ∙ w.matched j (inside k j h) ∙ sym (peer_kept k j);
  foreign = λ j h. rw (peer_kept k j, k.same_id) (w.foreign j (inside k j h));
  distinct = λ i j h b. rw (peer_kept k i, peer_kept k j) (w.distinct i j h (inside k j b));
}

each-Rooted :
    (id : Agent) (n : ℕ) (es : List Edge)
    → ((j : ℕ) → j < n → (get_or es j worst_edge).root ≡ id)
    → Rooted id (take n es)
each-Rooted id zero es h = tt
each-Rooted id (suc n) [] h = tt
each-Rooted id (suc n) (e ∷ es) h =
    (h 0 (omega arith), each-Rooted id n es (λ j b. h (suc j) (omega arith)))

-- The edges in use start at this agent: a cast has nothing to object to.
pub WellFormed-Rooted : (s : GhsState) → WellFormed s → Rooted s.my_id (edges_in_use s)
WellFormed-Rooted s w = each-Rooted s.my_id s.n_peers s.outgoing_edges (λ j h. w.rooted j h)
