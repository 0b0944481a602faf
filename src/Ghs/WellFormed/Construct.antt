-- ===== src/Ghs/WellFormed/Construct.antt =====
-- What the constructor builds is well formed: `reset` makes it so, and `set_edge` keeps it so.
use distributed_leader_elect.Prelude.{
  ℕ, ◌+◌, ◌<◌, ◌≡◌, refl, ◌∙◌, ◌⊎◌, inl, inr, List, [], ◌∷◌, false, not, length-set, length-update,
  length-replicate, length-map, replicate, field-update, get_or-set_self, get_or-set_ne, set, eqb_ℤ,
  eqb_ℤ-sound, leb, ◌||◌, ◌==◌, update, if_post, if_split, arith,
}
use distributed_leader_elect.Errno.{Errno, is_no_such_peer}
use distributed_leader_elect.Edge.{Agent, Edge, no_agent, worst_edge, worst_metric, is_valid_edge}
use distributed_leader_elect.Ghs.State.{GhsState, Result, fail}
use distributed_leader_elect.Ghs.Peers.{
  checked_index_of, append_edge, set_edge, reset, allocate, blank_prompt, add_if_valid, add_edges,
  stops, construct,
}
use distributed_leader_elect.Ghs.Lookup.{Result-cases, checked_index_of-absent}
use distributed_leader_elect.Ghs.WellFormed.{WellFormed, peer_at, edge_at}

last_or : (n j : ℕ) → j < n + 1 → (j ≡ n) ⊎ (j < n)
last_or n j h = ground arith

-- The object with one more peer.
abbrev extended : GhsState → Edge → GhsState
extended s e = record s {
  peers = set s.peers s.n_peers e.peer;
  outgoing_edges = set s.outgoing_edges s.n_peers e;
  n_peers = s.n_peers + 1;
}

module _ (s : GhsState) (e : Edge) (w : WellFormed s) (room : s.n_peers < s.max_agents) where
  new_peer : peer_at (extended s e) s.n_peers ≡ e.peer
  new_peer = get_or-set_self s.peers s.n_peers e.peer no_agent (omega (arith, w.peers_size))

  new_edge : edge_at (extended s e) s.n_peers ≡ e
  new_edge = get_or-set_self s.outgoing_edges s.n_peers e worst_edge (omega (arith, w.edges_size))

  old_peer : (j : ℕ) → j < s.n_peers → peer_at (extended s e) j ≡ peer_at s j
  old_peer j h = get_or-set_ne s.peers s.n_peers j e.peer no_agent (omega arith)

  old_edge : (j : ℕ) → j < s.n_peers → edge_at (extended s e) j ≡ edge_at s j
  old_edge j h = get_or-set_ne s.outgoing_edges s.n_peers j e worst_edge (omega arith)

  -- A property of every old cell and of the new one.
  each_cell {ℓ} :
      (P : Agent → Edge → Type ℓ)
      → ((j : ℕ) → j < s.n_peers → P (peer_at s j) (edge_at s j))
      → P e.peer e
      → (j : ℕ) → j < s.n_peers + 1
      → P (peer_at (extended s e) j) (edge_at (extended s e) j)
  each_cell P old new j h = elim (last_or s.n_peers j h) [
    | inl here ↦ rw (here, new_peer, new_edge) new
    | inr before ↦ rw (old_peer j before, old_edge j before) (old j before)
  ]

  extended-WellFormed :
      e.root ≡ s.my_id
      → eqb_ℤ e.peer s.my_id ≡ false
      → ((j : ℕ) → j < s.n_peers → eqb_ℤ (peer_at s j) e.peer ≡ false)
      → WellFormed (extended s e)
  extended-WellFormed mine other fresh = record {
    in_room = omega arith;
    peers_size = length-set s.peers s.n_peers e.peer ∙ w.peers_size;
    waiting_size = w.waiting_size;
    edges_size = length-set s.outgoing_edges s.n_peers e ∙ w.edges_size;
    prompt_size = w.prompt_size;
    required_size = w.required_size;
    rooted = each_cell (λ p o. o.root ≡ s.my_id) w.rooted mine;
    matched = each_cell (λ p o. o.peer ≡ p) w.matched refl;
    foreign = each_cell (λ p o. eqb_ℤ p s.my_id ≡ false) w.foreign other;
    distinct = λ i j h b. elim (last_or s.n_peers j b) [
      | inl here ↦
          let before : i < s.n_peers = omega arith in
          rw (here, new_peer, old_peer i before) (fresh i before)
      | inr before ↦ rw (old_peer j before, old_peer i (omega arith)) (w.distinct i j h before)
    ];
  }

-- The object after an edge that is there already has a new metric and a new status.
updated-WellFormed :
    (s : GhsState) (idx : ℕ) (f : Edge → Edge)
    → ((o : Edge) → (f o).root ≡ o.root)
    → ((o : Edge) → (f o).peer ≡ o.peer)
    → WellFormed s
    → WellFormed (record s { outgoing_edges = update s.outgoing_edges idx f })
updated-WellFormed s idx f roots peers w = record {
  in_room = w.in_room;
  peers_size = w.peers_size;
  waiting_size = w.waiting_size;
  edges_size = length-update s.outgoing_edges idx f ∙ w.edges_size;
  prompt_size = w.prompt_size;
  required_size = w.required_size;
  rooted =
      λ j h. field-update (λ o. o.root) f roots s.outgoing_edges idx j worst_edge ∙ w.rooted j h;
  matched =
      λ j h. field-update (λ o. o.peer) f peers s.outgoing_edges idx j worst_edge ∙ w.matched j h;
  foreign = w.foreign;
  distinct = w.distinct;
}

append_edge-WellFormed :
    (s : GhsState) (e : Edge) (er : Errno)
    → WellFormed s
    → e.root ≡ s.my_id
    → eqb_ℤ e.peer s.my_id ≡ false
    → checked_index_of s e.peer ≡ fail er
    → WellFormed (append_edge s e).1
unfolding append_edge
append_edge-WellFormed s e er w mine other h =
    if_split (λ (p : Result (Unit {0}) × GhsState). WellFormed p.1) (leb s.max_agents s.n_peers)
      (λ full. w)
      (λ free. extended-WellFormed s e w (ground arith) mine other λ j b.
        checked_index_of-absent s e.peer er j h other b (omega (arith, w.peers_size, w.in_room)))

abbrev P : Result (Unit {0}) × GhsState → Type 0
P p = WellFormed p.1

-- `set_edge` keeps an object well formed, whether it adds the edge, changes one or refuses it.
pub set_edge-WellFormed : (s : GhsState) (e : Edge) → WellFormed s → WellFormed (set_edge s e).1
unfolding set_edge
set_edge-WellFormed s e w = if_post P (eqb_ℤ e.root no_agent || eqb_ℤ e.peer no_agent) w (
    if_post P (e.metric_val == worst_metric) w (
      if_split P (not (eqb_ℤ e.root s.my_id)) (λ _. w)
        λ mine.
          if_split P (eqb_ℤ e.peer s.my_id) (λ _. w)
            λ other. elim (Result-cases (checked_index_of s e.peer)) [
              | inl (idx, h) ↦ rw h (updated-WellFormed s idx _ (λ o. refl) (λ o. refl) w)
              | inr (er, h) ↦ rw h (
                  if_post P (is_no_such_peer er)
                    (append_edge-WellFormed s e er w (eqb_ℤ-sound e.root s.my_id (ground arith))
                      other h)
                    w)
            ]))

reset-WellFormed : (n : ℕ) (my_id : Agent) → WellFormed (reset (allocate n my_id))
unfolding reset
reset-WellFormed n my_id = record {
  in_room = omega arith;
  peers_size = length-replicate n no_agent;
  waiting_size = length-replicate n false;
  edges_size = length-map _ (replicate n worst_edge) ∙ length-replicate n worst_edge;
  prompt_size = length-replicate n blank_prompt;
  required_size = length-replicate n false;
  rooted = λ j h. absurd (omega arith);
  matched = λ j h. absurd (omega arith);
  foreign = λ j h. absurd (omega arith);
  distinct = λ i j h b. absurd (omega arith);
}

add_if_valid-WellFormed : (s : GhsState) (e : Edge) → WellFormed s → WellFormed (add_if_valid s e).1
unfolding add_if_valid
add_if_valid-WellFormed s e w = if_post P (is_valid_edge e) (set_edge-WellFormed s e w) w

add_edges-WellFormed : (s : GhsState) (es : List Edge) → WellFormed s → WellFormed (add_edges s es)
unfolding add_edges
add_edges-WellFormed s [] w = w
add_edges-WellFormed s (e ∷ es) w =
    if_post WellFormed (stops (add_if_valid s e).0) (add_if_valid-WellFormed s e w)
      (add_edges-WellFormed (add_if_valid s e).1 es (add_if_valid-WellFormed s e w))

-- Whatever edges it is given (invalid, of another agent, twice, or too many), the constructor builds
-- a well-formed object.
pub construct-WellFormed :
    (n : ℕ) (my_id : Agent) (edges : List Edge) → WellFormed (construct n my_id edges)
unfolding construct
construct-WellFormed n my_id edges = add_edges-WellFormed _ edges (reset-WellFormed n my_id)

set_edge_same_id : (s : GhsState) (e : Edge) → (set_edge s e).1.my_id ≡ s.my_id
unfolding set_edge append_edge
set_edge_same_id s e = elim (Result-cases (checked_index_of s e.peer)) [
  | inl (idx, h) ↦ ground (arith, h)
  | inr (er, h) ↦ ground (arith, h)
]

add_if_valid_same_id : (s : GhsState) (e : Edge) → (add_if_valid s e).1.my_id ≡ s.my_id
unfolding add_if_valid
add_if_valid_same_id s e = ground (arith, set_edge_same_id s e)

add_edges_same_id : (s : GhsState) (es : List Edge) → (add_edges s es).my_id ≡ s.my_id
unfolding add_edges
add_edges_same_id s [] = refl
add_edges_same_id s (e ∷ es) =
    if_post (λ (t : GhsState). t.my_id ≡ s.my_id) (stops (add_if_valid s e).0)
      (add_if_valid_same_id s e)
      (add_edges_same_id (add_if_valid s e).1 es ∙ add_if_valid_same_id s e)

pub construct_same_id :
    (n : ℕ) (my_id : Agent) (edges : List Edge) → (construct n my_id edges).my_id ≡ my_id
unfolding construct reset
construct_same_id n my_id edges = add_edges_same_id (reset (allocate n my_id)) edges
