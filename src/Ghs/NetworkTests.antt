-- ===== src/Ghs/NetworkTests.antt =====
-- ghs_impl.hpp run by two agents.
use distributed_leader_elect.Prelude.{
  ◌+◌, ◌≡◌, refl, List, [], ◌∷◌, ◌++◌, pos, max_ℤ, eqb_ℤ, not, if◌then◌else◌, some, arith,
}
use distributed_leader_elect.Errno.{process_selfmsg, process_notme, process_no_edge_found}
use distributed_leader_elect.Edge.{Agent, Edge, unknown, is_valid_edge}
use distributed_leader_elect.Msg.{Msg, msg, in_part_data}
use distributed_leader_elect.Seque.{make, pop_item, push}
use distributed_leader_elect.Ghs.State.{fail, steps, with_count}
use distributed_leader_elect.Ghs.Peers.{
  construct, has_edge, count_true, clear_parents, set_parent_id, set_waiting_for, checked_index_of,
  index_from, reset, add_edges, add_if_valid, set_edge, append_edge,
}
use distributed_leader_elect.Ghs.Casts.{typecast, mst_broadcast}
use distributed_leader_elect.Ghs.Search.{
  start_round, forward, forward_one, check_new_level, level_loop, level_step,
}
use distributed_leader_elect.Ghs.Process.{process}
use distributed_leader_elect.Ghs.Network.{
  Net, begin_at, hand_to, post_from, rounds, posts, arrives, repeats, quiet_net, Run, opens,
  goes_on,
}
use distributed_leader_elect.Ghs.Network.Meaning.{meant}
use distributed_leader_elect.Ghs.Network.Laws.{NetSound, Run-NetSound, Run-Delivers}
use distributed_leader_elect.Ghs.Network.Duel.{opened, turns}
use distributed_leader_elect.Ghs.Network.Duel.Elects.{Elected, two_agents_elect}

-- Agent 0 has an edge to agent 1, and every other agent one to agent 0.
abbrev spokes : Agent → List Edge
spokes me =
    record {
      peer = if eqb_ℤ me (pos 0) then pos 1 else pos 0;
      root = me;
      status = unknown;
      metric_val = 5;
    }
    ∷ []

abbrev quiet : Net
quiet = quiet_net 2 4 spokes

abbrev asked : Msg
asked = msg (pos 1) (pos 0) (in_part_data (record { leader = pos 0; level = pos 0 }))

abbrev begun : Net
begun = begin_at (pos 0) quiet

abbrev posted : Net
posted = post_from (pos 0) asked begun

queued : (pop_item (begun.agents (pos 0)).buf).1 ≡ some asked
unfolding begin_at start_round steps count_true push make forward forward_one pop_item
    check_new_level level_loop level_step construct reset add_edges add_if_valid set_edge
    append_edge is_valid_edge checked_index_of index_from eqb_ℤ clear_parents set_parent_id
    set_waiting_for typecast mst_broadcast with_count
queued = refl

on_the_wire : posted.wire ≡ [] ++ ((pos 0, asked) ∷ [])
unfolding post_from begin_at
on_the_wire = refl

posted-Run : Run 2 4 spokes posted
posted-Run = goes_on (goes_on opens (rounds (pos 0))) (posts (pos 0) asked queued)

-- The message has reached agent 1 after it was repeated.
abbrev answered : Net
answered = hand_to (pos 1) asked posted.wire (record posted { wire = (pos 0, asked) ∷ posted.wire })

Run-NetSound_example : NetSound 2 4 spokes answered
Run-NetSound_example = Run-NetSound 2 4 spokes (omega arith) (omega arith) (
    goes_on (goes_on posted-Run (repeats (pos 0) asked [] [] on_the_wire))
      (arrives (pos 0) (pos 1) asked [] posted.wire refl))

Run-Delivers_example : process asked (posted.agents (pos 1)) ≡ (
    if eqb_ℤ (pos 0) (pos 1)
    then (fail process_selfmsg, posted.agents (pos 1))
    else if not (eqb_ℤ asked.to (pos 1))
    then (fail process_notme, posted.agents (pos 1))
    else if not (has_edge (construct 2 (pos 1) (spokes (pos 1))) (pos 0))
    then (fail process_no_edge_found, posted.agents (pos 1))
    else meant (pos 0) asked.payload (posted.agents (pos 1)))
Run-Delivers_example =
    Run-Delivers 2 4 spokes (pos 0) (pos 1) asked [] [] (omega arith) (omega arith) posted-Run
      on_the_wire

two_agents_elect_example :
    let p = turns (6 + 10) (opened (pos 3) (pos 8) 17) in
    Elected (max_ℤ (pos 3) (pos 8)) p.0 × Elected (max_ℤ (pos 3) (pos 8)) p.1
two_agents_elect_example = two_agents_elect 3 8 17 10 (omega arith) (omega arith) (omega arith)
