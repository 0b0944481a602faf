-- ===== src/Ghs/Peers.antt =====
-- The operations of `GhsState` on its peers: lookup of a peer's index, and the flags, the edge and
-- the prompt kept at that index. A setter returns its code and the new object.
use distributed_leader_elect.Prelude.{
  ℕ, suc, ◌+◌, List, [], ◌∷◌, map, Bool, true, false, not, ◌||◌, leb, ◌==◌, if◌then◌else◌, eqb_ℤ,
  pos, get_or, set, update, take, replicate,
}
use distributed_leader_elect.Errno.{
  is_no_such_peer, is_too_many_agents, set_invalid_edge_no_agent, set_invalid_edge_metric,
  set_invalid_edge_not_root, set_invalid_edge_self_loop, too_many_agents, parent_unrecognized,
  parent_req_mst, no_such_peer, impl_req_peer_my_id,
}
use distributed_leader_elect.Edge.{
  Agent, Metric, no_agent, level_start, worst_metric, Status, unknown, mst, mst_parent, eqb_status,
  Edge, worst_edge, is_valid_edge,
}
use distributed_leader_elect.Msg.{InPartPayload}
use distributed_leader_elect.Ghs.State.{GhsState, Result, done, fail}

-- `InPartPayload{}`.
abbrev pub blank_prompt : InPartPayload
blank_prompt = record { leader = pos 0; level = pos 0 }

-- The loop of `checked_index_of`, from index `i` on.
unfoldable pub index_from : Agent → ℕ → List Agent → Result ℕ
index_from who i [] = fail no_such_peer
index_from who i (p ∷ ps) = if eqb_ℤ p who then done i else index_from who (suc i) ps

unfoldable pub checked_index_of : GhsState → Agent → Result ℕ
checked_index_of s who =
    if eqb_ℤ who s.my_id
    then fail impl_req_peer_my_id
    else index_from who 0 (take s.n_peers s.peers)

-- What every accessor does: look up the index, and give up with the lookup's code.
abbrev pub read_on : {A : Type 0} → Result ℕ → (ℕ → A) → Result A
read_on (done idx) f = done (f idx)
read_on (fail e) f = fail e

abbrev pub at_peer : {A : Type 0} → GhsState → Agent → (ℕ → A) → Result A
at_peer s who f = read_on (checked_index_of s who) f

abbrev pub write_on : Result ℕ → GhsState → (ℕ → GhsState) → Result (Unit {0}) × GhsState
write_on (done idx) s f = (done tt, f idx)
write_on (fail e) s f = (fail e, s)

abbrev pub set_at_peer : GhsState → Agent → (ℕ → GhsState) → Result (Unit {0}) × GhsState
set_at_peer s who f = write_on (checked_index_of s who) s f

unfoldable pub has_edge : GhsState → Agent → Bool
has_edge s to = elim (checked_index_of s to) [ done idx ↦ true | fail e ↦ false ]

unfoldable pub get_edge : GhsState → Agent → Result Edge
get_edge s to = at_peer s to (λ idx. get_or s.outgoing_edges idx worst_edge)

unfoldable pub get_edge_status : GhsState → Agent → Result Status
get_edge_status s to = at_peer s to (λ idx. (get_or s.outgoing_edges idx worst_edge).status)

unfoldable pub get_edge_metric : GhsState → Agent → Result Metric
get_edge_metric s to = at_peer s to (λ idx. (get_or s.outgoing_edges idx worst_edge).metric_val)

unfoldable pub is_waiting_for : GhsState → Agent → Result Bool
is_waiting_for s who = at_peer s who (λ idx. get_or s.waiting_for_response idx false)

unfoldable pub is_response_required : GhsState → Agent → Result Bool
is_response_required s who = at_peer s who (λ idx. get_or s.response_required idx false)

unfoldable pub get_response_prompt : GhsState → Agent → Result InPartPayload
get_response_prompt s who = at_peer s who (λ idx. get_or s.response_prompt idx blank_prompt)

unfoldable pub set_edge_status : GhsState → Agent → Status → Result (Unit {0}) × GhsState
set_edge_status s to status = set_at_peer s to λ idx. record s {
  outgoing_edges = update s.outgoing_edges idx (λ e. record e { status = status });
}

unfoldable pub set_edge_metric : GhsState → Agent → Metric → Result (Unit {0}) × GhsState
set_edge_metric s to m = set_at_peer s to λ idx. record s {
  outgoing_edges = update s.outgoing_edges idx (λ e. record e { metric_val = m });
}

unfoldable pub set_waiting_for : GhsState → Agent → Bool → Result (Unit {0}) × GhsState
set_waiting_for s who waiting =
    set_at_peer s who
      λ idx. record s { waiting_for_response = set s.waiting_for_response idx waiting }

unfoldable pub set_response_required : GhsState → Agent → Bool → Result (Unit {0}) × GhsState
set_response_required s who resp =
    set_at_peer s who λ idx. record s { response_required = set s.response_required idx resp }

unfoldable pub set_response_prompt : GhsState → Agent → InPartPayload → Result (Unit {0}) × GhsState
set_response_prompt s who m =
    set_at_peer s who λ idx. record s { response_prompt = set s.response_prompt idx m }

unfoldable pub respond_later : GhsState → Agent → InPartPayload → Result (Unit {0}) × GhsState
respond_later s from m = set_at_peer s from λ idx. record s {
  response_required = set s.response_required idx true;
  response_prompt = set s.response_prompt idx m;
}

-- The counting loops.
unfoldable pub count_true : List Bool → ℕ
count_true [] = 0
count_true (b ∷ bs) = (if b then 1 else 0) + count_true bs

abbrev pub waiting_count : GhsState → ℕ
waiting_count s = count_true (take s.n_peers s.waiting_for_response)

abbrev pub delayed_count : GhsState → ℕ
delayed_count s = count_true (take s.n_peers s.response_required)

-- `set_edge`, once the peer is known to be missing: a new cell, if one is free.
unfoldable pub append_edge : GhsState → Edge → Result (Unit {0}) × GhsState
append_edge s e = if leb s.max_agents s.n_peers then (fail too_many_agents, s) else (
  done tt,
  record s {
    peers = set s.peers s.n_peers e.peer;
    outgoing_edges = set s.outgoing_edges s.n_peers e;
    n_peers = s.n_peers + 1;
  },
)

unfoldable pub set_edge : GhsState → Edge → Result (Unit {0}) × GhsState
unfolding append_edge
set_edge s e =
    if eqb_ℤ e.root no_agent || eqb_ℤ e.peer no_agent
    then (fail set_invalid_edge_no_agent, s)
    else if e.metric_val == worst_metric
    then (fail set_invalid_edge_metric, s)
    else if not (eqb_ℤ e.root s.my_id)
    then (fail set_invalid_edge_not_root, s)
    else if eqb_ℤ e.peer s.my_id
    then (fail set_invalid_edge_self_loop, s)
    else elim (checked_index_of s e.peer) [
      | done idx ↦ (
        done tt,
        record s {
          outgoing_edges =
              update s.outgoing_edges idx
                (λ o. record o { metric_val = e.metric_val; status = e.status });
        },
      )
      | fail er ↦ if is_no_such_peer er then append_edge s e else (fail er, s)
    ]

-- The first loop of `set_parent_id`: `n` cells from the front lose the parent mark.
unfoldable pub clear_parents : ℕ → List Edge → List Edge
clear_parents n [] = []
clear_parents ℕ.zero (e ∷ es) = e ∷ es
clear_parents (suc n) (e ∷ es) =
    (if eqb_status e.status mst_parent then record e { status = mst } else e) ∷ clear_parents n es

abbrev pub cleared : GhsState → GhsState
cleared s = record s { outgoing_edges = clear_parents s.n_peers s.outgoing_edges }

-- The end of `set_parent_id`: only an edge of the tree can lead to the parent.
unfoldable pub mark_parent : GhsState → Agent → Result Edge → Result (Unit {0}) × GhsState
mark_parent s id (fail e) = (fail e, s)
mark_parent s id (done peer) =
    if eqb_status peer.status mst then set_edge_status s id mst_parent else (fail parent_req_mst, s)

unfoldable pub set_parent_id : GhsState → Agent → Result (Unit {0}) × GhsState
unfolding mark_parent
set_parent_id s id =
    if eqb_ℤ id s.my_id
    then (done tt, cleared s)
    else if not (has_edge (cleared s) id)
    then (fail parent_unrecognized, cleared s)
    else mark_parent (cleared s) id (get_edge (cleared s) id)

-- The loop of `get_parent_id`.
unfoldable pub first_parent : Agent → List Edge → Agent
first_parent my_id [] = my_id
first_parent my_id (e ∷ es) =
    if eqb_status e.status mst_parent then e.peer else first_parent my_id es

unfoldable pub get_parent_id : GhsState → Agent
unfolding first_parent
get_parent_id s = first_parent s.my_id (take s.n_peers s.outgoing_edges)

-- `reset`. The call of `set_parent_id` runs at `n_peers` 0, where it changes nothing.
unfoldable pub reset : GhsState → GhsState
reset s = record s {
  n_peers = 0;
  my_leader = s.my_id;
  my_level = level_start;
  peers = replicate s.max_agents no_agent;
  outgoing_edges = map (λ (e : Edge). record e { status = unknown }) s.outgoing_edges;
  waiting_for_response = replicate s.max_agents false;
  response_required = replicate s.max_agents false;
  response_prompt = replicate s.max_agents blank_prompt;
  best_edge = worst_edge;
  algorithm_converged = false;
}

-- The members before the constructor's body runs: edges are default-constructed, and `reset`
-- overwrites all others but `my_id`.
abbrev pub allocate : ℕ → Agent → GhsState
allocate n my_id = record {
  max_agents = n;
  my_id = my_id;
  my_leader = my_id;
  my_level = level_start;
  algorithm_converged = false;
  best_edge = worst_edge;
  n_peers = 0;
  peers = replicate n no_agent;
  waiting_for_response = replicate n false;
  outgoing_edges = replicate n worst_edge;
  response_prompt = replicate n blank_prompt;
  response_required = replicate n false;
}

-- One round of the constructor's loop: an edge that is not valid is passed over.
unfoldable pub add_if_valid : GhsState → Edge → Result (Unit {0}) × GhsState
add_if_valid s e = if is_valid_edge e then set_edge s e else (done tt, s)

-- The loop breaks where there is no cell left.
abbrev pub stops : Result (Unit {0}) → Bool
stops (done _) = false
stops (fail e) = is_too_many_agents e

unfoldable pub add_edges : GhsState → List Edge → GhsState
add_edges s [] = s
add_edges s (e ∷ es) =
    let (r, s') = add_if_valid s e in let rest = add_edges s' es in if stops r then s' else rest

-- `GhsState(my_id, edges, num_edges)`.
unfoldable pub construct : ℕ → Agent → List Edge → GhsState
unfolding reset add_edges
construct n my_id edges = add_edges (reset (allocate n my_id)) edges
