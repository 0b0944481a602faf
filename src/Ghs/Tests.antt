-- ===== src/Ghs/Tests.antt =====
-- include/ghs/ghs_impl.hpp: an agent with three peers, driven through a round.
use distributed_leader_elect.Prelude.{true, min}
use distributed_leader_elect.Edge.{is_valid_edge}
use distributed_leader_elect.Msg.{SrchRetPayload}
use distributed_leader_elect.Ghs.Peers.{
  is_waiting_for, waiting_count, count_true, get_edge, set_edge_status, set_parent_id,
  get_parent_id, mark_parent, clear_parents, reset, add_edges, add_if_valid, set_edge, append_edge,
}
use distributed_leader_elect.Ghs.Process.{process_srch_ret, process_nack_part, process_ack_part}
use distributed_leader_elect.Ghs.Frame.{set_edge_status-Keeps}
use distributed_leader_elect.Ghs.WellFormed.{WellFormed, Keeps-WellFormed}
use distributed_leader_elect.Ghs.WellFormed.Construct.{construct-WellFormed}
use distributed_leader_elect.Ghs.Parents.{get_parent_id-set_parent_id}
use distributed_leader_elect.Ghs.Answers.{Awaits, answers_count_down}
use distributed_leader_elect.Ghs.Answering.{none_yet, reported, lowest, Gathers, Answering-Gathers}
use distributed_leader_elect.Ghs.Reach.{
  Reachable, begins, steps_on, starts, receives, initial, Sound, Reachable-Sound, Reachable-Reached,
}
use distributed_leader_elect.Prelude.{
  false, replicate, ℕ, ◌+◌, ◌≡◌, refl, [], ◌∷◌, List, pos, eqb_ℤ, arith,
}
use distributed_leader_elect.Edge.{no_agent, Edge, unknown, mst, mst_parent}
use distributed_leader_elect.Msg.{
  Msg, MsgType, in_part_data, noop_data, msg, blank_msg, nack_part_data,
}
use distributed_leader_elect.Seque.{make, size}
use distributed_leader_elect.Seque.Inv.{IsValid, make-IsValid}
use distributed_leader_elect.Ghs.State.{GhsState, Ctx, done, steps}
use distributed_leader_elect.Ghs.Peers.{
  has_edge, blank_prompt, construct, index_from, checked_index_of,
}
use distributed_leader_elect.Ghs.Casts.{typecast, mst_broadcast, mst_convergecast}
use distributed_leader_elect.Ghs.Casts.Addressed.{Reached, casts_reach}
use distributed_leader_elect.Ghs.Search.{start_round, process_in_part}
use distributed_leader_elect.Ghs.Process.{process, dispatch}
use distributed_leader_elect.Ghs.Frame.{Keeps}
use distributed_leader_elect.Ghs.Promise.{
  Sends, process-Keeps, process-Sends, process_loses_nothing, start_round-Sends,
}

abbrev edge_to : ℕ → ℕ → Edge
edge_to peer metric = record {
  peer = pos peer;
  root = pos 0;
  status = unknown;
  metric_val = metric;
}

abbrev three_edges : List Edge
three_edges = edge_to 1 5 ∷ edge_to 2 3 ∷ edge_to 3 9 ∷ []

abbrev at_start : Ctx
at_start = record { state = construct 4 (pos 0) three_edges; buf = make blank_msg 8; qsz = 77 }

at_start-IsValid : IsValid at_start.buf
at_start-IsValid = make-IsValid blank_msg 8 (omega arith) (omega arith)

-- The edges, the third of which leads to the parent.
abbrev in_tree : GhsState
in_tree = record at_start.state {
  outgoing_edges =
      edge_to 1 5
      ∷ record (edge_to 2 3) { status = mst }
      ∷ record (edge_to 3 9) { status = mst_parent }
      ∷ [];
  n_peers = 3;
  my_id = pos 0;
}

process-Keeps_example :
    Keeps at_start.state (process (msg (pos 0) (pos 1) nack_part_data) at_start).1.state
process-Keeps_example = process-Keeps (msg (pos 0) (pos 1) nack_part_data) at_start at_start-IsValid

process-Sends_example : Sends at_start (process (msg (pos 0) (pos 1) noop_data) at_start)
process-Sends_example = process-Sends (msg (pos 0) (pos 1) noop_data) at_start at_start-IsValid

start_round-Sends_example :
    Keeps at_start.state (start_round at_start).1.state × Sends at_start (start_round at_start)
start_round-Sends_example = start_round-Sends at_start at_start-IsValid

casts_reach_example :
    Reached in_tree unknown MsgType.noop noop_data at_start.buf
      (typecast in_tree unknown MsgType.noop noop_data at_start.buf)
    × Reached in_tree mst MsgType.noop noop_data at_start.buf
        (mst_broadcast in_tree MsgType.noop noop_data at_start.buf)
    × Reached in_tree mst_parent MsgType.noop noop_data at_start.buf
        (mst_convergecast in_tree MsgType.noop noop_data at_start.buf)
casts_reach_example =
    casts_reach in_tree unknown MsgType.noop noop_data at_start.buf (refl, (refl, (refl, tt)))

-- An agent that has just started, and a peer's question that it can answer.
abbrev fresh : Ctx
fresh = record at_start {
  state = record in_tree {
    max_agents = 4;
    my_leader = pos 0;
    my_level = pos 0;
    peers = pos 1 ∷ pos 2 ∷ pos 3 ∷ no_agent ∷ [];
    waiting_for_response = replicate 4 false;
    response_required = replicate 4 false;
    response_prompt = replicate 4 blank_prompt;
  };
}

abbrev ping : Msg
ping = msg (pos 0) (pos 1) (in_part_data (record { leader = pos 1; level = pos 0 }))

ping_answered : ((process ping fresh).0 ≡ done tt) × ((process ping fresh).1.qsz ≡ 1)
unfolding process dispatch process_in_part steps has_edge checked_index_of index_from eqb_ℤ
ping_answered = (refl, refl)

process_loses_nothing_example :
    size (process ping fresh).1.buf ≡ size fresh.buf + (process ping fresh).1.qsz
unfolding make
process_loses_nothing_example =
    process_loses_nothing ping fresh at_start-IsValid ping_answered.0
      (rw ping_answered.1 (omega arith))

-- Two of three answers are outstanding.
abbrev searching : Ctx
searching = record fresh {
  state = record fresh.state { waiting_for_response = true ∷ true ∷ false ∷ false ∷ [] };
}

abbrev report : SrchRetPayload
report = record { to = pos 7; from = pos 1; metric = 2 }

two_outstanding :
    (is_waiting_for searching.state (pos 1) ≡ done true)
    × (waiting_count searching.state ≡ 2)
    × (get_edge searching.state (pos 1) ≡ done (edge_to 1 5))
unfolding is_waiting_for get_edge checked_index_of index_from eqb_ℤ count_true
two_outstanding = (refl, refl, refl)

answers_count_down_example :
    Awaits searching
      (min searching.state.best_edge.metric_val 2)
      (process_srch_ret (pos 1) report searching)
    × Awaits searching
        (min searching.state.best_edge.metric_val 5)
        (process_nack_part (pos 1) searching)
    × Awaits searching searching.state.best_edge.metric_val (process_ack_part (pos 1) searching)
answers_count_down_example =
    answers_count_down searching (pos 1) report (edge_to 1 5) two_outstanding.0
      (rw two_outstanding.1 (omega arith)) two_outstanding.2

-- A child of this agent, which becomes its parent.
abbrev with_child : GhsState
with_child = (set_edge_status at_start.state (pos 2) mst).1

with_child-WellFormed : WellFormed with_child
with_child-WellFormed =
    Keeps-WellFormed (set_edge_status-Keeps at_start.state (pos 2) mst)
      (construct-WellFormed 4 (pos 0) three_edges)

child_accepted : (set_parent_id with_child (pos 2)).0 ≡ done tt
unfolding set_parent_id mark_parent set_edge_status clear_parents construct reset add_edges
    add_if_valid set_edge append_edge is_valid_edge has_edge get_edge checked_index_of index_from
    eqb_ℤ
child_accepted = refl

get_parent_id-set_parent_id_example : get_parent_id (set_parent_id with_child (pos 2)).1 ≡ pos 2
get_parent_id-set_parent_id_example =
    get_parent_id-set_parent_id with_child (pos 2) with_child-WellFormed child_accepted

-- A round begins, and a peer answers.
abbrev after_answer : Ctx
after_answer =
    (process (msg (pos 0) (pos 1) nack_part_data)
      (start_round (initial 4 8 (pos 0) three_edges)).1).1

history : Reachable 4 8 (pos 0) three_edges after_answer
history = steps_on (steps_on begins (starts _)) (receives _ _)

Reachable-Sound_example : Sound (pos 0) after_answer
Reachable-Sound_example = Reachable-Sound (omega arith) (omega arith) history

Reachable-Reached_example :
    Reached after_answer.state mst MsgType.noop noop_data after_answer.buf
      (typecast after_answer.state mst MsgType.noop noop_data after_answer.buf)
    × Reached after_answer.state mst MsgType.noop noop_data after_answer.buf
        (mst_broadcast after_answer.state MsgType.noop noop_data after_answer.buf)
    × Reached after_answer.state mst_parent MsgType.noop noop_data after_answer.buf
        (mst_convergecast after_answer.state MsgType.noop noop_data after_answer.buf)
Reachable-Reached_example =
    Reachable-Reached mst MsgType.noop noop_data (omega arith) (omega arith) history

Answering-Gathers_example :
    Gathers searching
      (process_srch_ret (pos 1) report searching).1
      1
      (lowest searching.state.best_edge.metric_val (2 ∷ []))
Answering-Gathers_example = Answering-Gathers (
    reported searching (pos 1) report two_outstanding.0 (rw two_outstanding.1 (omega arith))
      (none_yet (process_srch_ret (pos 1) report searching).1))
