-- ===== src/Ghs/JoinTests.antt =====
-- include/ghs/ghs_impl.hpp: two agents that merge, questions that come too early or find the queue
-- full, and a message that is rejected.
use distributed_leader_elect.Prelude.{◌≡◌, refl, List, [], ◌∷◌, true, false, pos, eqb_ℤ, arith}
use distributed_leader_elect.Edge.{Agent, Edge, unknown, mst, worst_edge, is_valid_edge}
use distributed_leader_elect.Msg.{Msg, msg, nack_part_data, JoinUsPayload, InPartPayload, blank_msg}
use distributed_leader_elect.Seque.{StaticQueue, make}
use distributed_leader_elect.Ghs.State.{Ctx, done}
use distributed_leader_elect.Ghs.Peers.{
  has_edge, get_edge, checked_index_of, index_from, blank_prompt, construct, reset, add_edges,
  add_if_valid, set_edge, append_edge, is_response_required, get_response_prompt,
}
use distributed_leader_elect.Ghs.Search.{start_round, process_in_part}
use distributed_leader_elect.Ghs.Join.{process_join_us}
use distributed_leader_elect.Ghs.WellFormed.Construct.{construct-WellFormed}
use distributed_leader_elect.Ghs.Merge.{AskedBy, risen, merge_elects}
use distributed_leader_elect.Ghs.Part.{process_in_part_later, process_in_part_full}
use distributed_leader_elect.Ghs.Guards.{is_acceptable, Rejects, process-Rejects}
use distributed_leader_elect.Ghs.Process.{process}

abbrev tree_edge : Agent → Agent → Edge
tree_edge peer root = record { peer = peer; root = root; status = mst; metric_val = 5 }

-- An agent with one peer, which it has asked to join.
abbrev asking : Agent → Agent → Ctx
asking my_id peer = record {
  state = record {
    max_agents = 1;
    my_id = my_id;
    my_leader = my_id;
    my_level = pos 0;
    algorithm_converged = false;
    best_edge = worst_edge;
    n_peers = 1;
    peers = peer ∷ [];
    waiting_for_response = false ∷ [];
    outgoing_edges = tree_edge peer my_id ∷ [];
    response_prompt = blank_prompt ∷ [];
    response_required = false ∷ [];
  };
  buf = make blank_msg 4;
  qsz = 9;
}

-- What the agent `from` asks the agent `to`.
abbrev join_from : Agent → Agent → JoinUsPayload
join_from from to = record {
  join_peer = to;
  join_root = from;
  proposed_leader = from;
  proposed_level = pos 0;
}

first_asked :
    AskedBy (pos 1) (asking (pos 0) (pos 1)) (join_from (pos 1) (pos 0)) (tree_edge (pos 1) (pos 0))
unfolding get_edge checked_index_of index_from eqb_ℤ
first_asked = record {
  to_me = refl;
  from_other = refl;
  another = refl;
  other_leader = refl;
  not_above = omega arith;
  edge = refl;
  chosen = refl;
}

second_asked :
    AskedBy (pos 0) (asking (pos 1) (pos 0)) (join_from (pos 0) (pos 1)) (tree_edge (pos 0) (pos 1))
unfolding get_edge checked_index_of index_from eqb_ℤ
second_asked = record {
  to_me = refl;
  from_other = refl;
  another = refl;
  other_leader = refl;
  not_above = omega arith;
  edge = refl;
  chosen = refl;
}

merge_elects_example :
    (process_join_us (join_from (pos 1) (pos 0)) (asking (pos 0) (pos 1))
      ≡ (done tt, record (risen (pos 1) (asking (pos 0) (pos 1))) { qsz = 0 }))
    × (process_join_us (join_from (pos 0) (pos 1)) (asking (pos 1) (pos 0))
        ≡ start_round (risen (pos 1) (asking (pos 1) (pos 0))))
merge_elects_example =
    merge_elects (asking (pos 0) (pos 1)) (asking (pos 1) (pos 0)) (join_from (pos 1) (pos 0))
      (join_from (pos 0) (pos 1)) (tree_edge (pos 1) (pos 0)) (tree_edge (pos 0) (pos 1))
      first_asked second_asked (omega arith)

abbrev one_edge : List Edge
one_edge = record (tree_edge (pos 1) (pos 0)) { status = unknown } ∷ []

abbrev behind : Ctx
behind = record { state = construct 2 (pos 0) one_edge; buf = make blank_msg 4; qsz = 9 }

abbrev from_ahead : InPartPayload
from_ahead = record { leader = pos 1; level = pos 3 }

behind_facts : (checked_index_of behind.state (pos 1) ≡ done 0) × (behind.state.my_level ≡ pos 0)
unfolding construct reset add_edges add_if_valid set_edge append_edge is_valid_edge checked_index_of
    index_from eqb_ℤ
behind_facts = (refl, refl)

process_in_part_later_example :
    let p = process_in_part (pos 1) from_ahead behind in
    (p.0 ≡ done tt)
    × (p.1.buf ≡ behind.buf)
    × (p.1.qsz ≡ 0)
    × (is_response_required p.1.state (pos 1) ≡ done true)
    × (get_response_prompt p.1.state (pos 1) ≡ done from_ahead)
process_in_part_later_example =
    process_in_part_later behind (pos 1) from_ahead 0 (construct-WellFormed 2 (pos 0) one_edge)
      behind_facts.0 (rw behind_facts.1 (omega arith))

-- A queue of one message, which is full.
abbrev full_buf : StaticQueue Msg
full_buf = record {
  circle_buf = msg (pos 1) (pos 0) nack_part_data ∷ [];
  capacity = 1;
  idx_front = 0;
  idx_back = 0;
  count = 1;
}

abbrev crowded : Ctx
crowded = record (asking (pos 0) (pos 1)) { buf = full_buf }

process_in_part_full_example :
    process_in_part (pos 1) (record { leader = pos 1; level = pos 0 }) crowded
    ≡ (done tt, record crowded { qsz = 1 })
process_in_part_full_example =
    process_in_part_full crowded (pos 1) (record { leader = pos 1; level = pos 0 }) refl
      (omega arith)

-- From an agent that is no peer.
abbrev stray : Msg
stray = msg (pos 0) (pos 2) nack_part_data

stray_refused : is_acceptable (asking (pos 0) (pos 1)) stray ≡ false
unfolding has_edge checked_index_of index_from eqb_ℤ
stray_refused = refl

process-Rejects_example : Rejects (asking (pos 0) (pos 1)) (process stray (asking (pos 0) (pos 1)))
process-Rejects_example = process-Rejects stray (asking (pos 0) (pos 1)) stray_refused
