-- ===== src/Ghs/Network/Duel.antt =====
-- Two agents with one edge between them, whose messages are handed over in turns: each gets a queue
-- of one cell.
pub mod Object
pub mod Calls
pub mod Merged
pub mod Elects
use distributed_leader_elect.Prelude.{
  ℕ, ◌≡◌, refl, List, [], ◌∷◌, zero, suc, Bool, true, false, pos, eqb_ℤ, eqb_ℤ_refl, max_ℤ,
  incr_int32, ltb, if◌then◌else◌, ltb_ℤ, leb_ℤ, arith, Option, none, some,
}
use distributed_leader_elect.Edge.{
  Agent, Level, Metric, Edge, Status, unknown, mst, mst_parent, eqb_status, worst_metric,
  worst_edge, no_agent,
}
use distributed_leader_elect.Msg.{
  Msg, MsgType, Payload, msg_typed, msg, blank_msg, in_part_data, nack_part_data, join_us_data,
  srch_data, srch_ret_data, noop_data,
}
use distributed_leader_elect.Seque.{make, pop_item, push}
use distributed_leader_elect.Ghs.State.{with_count, cast_out, GhsState, Buf, Ctx, done, fail, steps}
use distributed_leader_elect.Ghs.Peers.{
  construct, count_true, is_waiting_for, mark_parent, cleared, clear_parents, has_edge, get_edge,
  checked_index_of, index_from, reset, add_edges, add_if_valid, set_edge, append_edge, blank_prompt,
  set_waiting_for, set_edge_status, set_parent_id, waiting_count, is_waiting_for,
}
use distributed_leader_elect.Ghs.Search.{
  start_round, process_srch, forward, forward_one, check_new_level, level_loop, level_step,
  process_in_part,
}
use distributed_leader_elect.Ghs.Join.{
  process_join_us, find_join_edge, initiator_edge, responder_edge, merge, join_over, absorb,
  request_join,
}
use distributed_leader_elect.Ghs.Casts.{typecast, mst_broadcast, mst_convergecast}
use distributed_leader_elect.Errno.{ok, err_queue_empty, impl_req_peer_my_id}
use distributed_leader_elect.Ghs.Process.{
  process, dispatch, process_nack_part, process_srch_ret, process_noop, check_search_status,
  conclude,
}

-- The object of an agent with one peer, in a template with two cells.
abbrev pub lone : Agent → Agent → Metric → Status → Agent → Level → Bool → Edge → Bool → GhsState
lone me other w st leader level converged best waits = record {
  max_agents = 2;
  my_id = me;
  my_leader = leader;
  my_level = level;
  algorithm_converged = converged;
  best_edge = best;
  n_peers = 1;
  peers = other ∷ no_agent ∷ [];
  waiting_for_response = waits ∷ false ∷ [];
  outgoing_edges =
      record { peer = other; root = me; status = st; metric_val = w } ∷ worst_edge ∷ [];
  response_prompt = blank_prompt ∷ blank_prompt ∷ [];
  response_required = false ∷ false ∷ [];
}

abbrev pub between : Agent → Agent → Metric → Edge
between me other w = record { peer = other; root = me; status = unknown; metric_val = w }

-- A queue of one cell: empty, with what was last in it, and full.
abbrev pub idle : Msg → Buf
idle x = record { circle_buf = x ∷ []; capacity = 1; idx_front = 0; idx_back = 0; count = 0 }

abbrev pub holding : Msg → Buf
holding m = record { circle_buf = m ∷ []; capacity = 1; idx_front = 0; idx_back = 0; count = 1 }

-- An agent with such an object between two calls.
abbrev pub standing :
    Agent → Agent → Metric → Status → Agent → Level → Bool → Edge → Bool → Buf → ℕ → Ctx
standing me other w st leader level converged best waits q n = record {
  state = lone me other w st leader level converged best waits;
  buf = q;
  qsz = n;
}

abbrev pub no_edge : Agent → Edge
no_edge me = record worst_edge { root = me }

abbrev pub built : Agent → Agent → Metric → Ctx
built me other w = record {
  state = construct 2 me (between me other w ∷ []);
  buf = make blank_msg 1;
  qsz = 0;
}

-- Both agents are built, with a queue of one cell each, and start their first rounds.
unfoldable pub opened : Agent → Agent → Metric → Ctx × Ctx
opened a b w = ((start_round (built a b w)).1, (start_round (built b a w)).1)

-- What an agent does with the message that its peer has taken from the queue, if there was one.
abbrev pub handed : Option Msg → Ctx → Ctx
handed none c = c
handed (some m) c = (process m c).1

abbrev pub emptied : Ctx → Ctx
emptied c = record c { buf = (pop_item c.buf).2 }

-- Each takes the oldest message from its queue; then each is handed the other's.
unfoldable pub turn : Ctx × Ctx → Ctx × Ctx
turn p = (handed (pop_item p.1.buf).1 (emptied p.0), handed (pop_item p.0.buf).1 (emptied p.1))

unfoldable pub turns : ℕ → Ctx × Ctx → Ctx × Ctx
turns zero p = p
turns (suc n) p = turns n (turn p)
