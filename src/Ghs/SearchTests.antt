-- ===== src/Ghs/SearchTests.antt =====
-- include/ghs/ghs_impl.hpp: a SRCH that is passed on, and the one parent it leaves.
use distributed_leader_elect.Prelude.{true, ◌≡◌, refl, List, [], ◌∷◌, pos, eqb_ℤ, length, arith}
use distributed_leader_elect.Edge.{Edge, unknown, mst, is_valid_edge}
use distributed_leader_elect.Msg.{MsgType, SrchPayload, SrchRetPayload, noop_data, blank_msg}
use distributed_leader_elect.Seque.{make}
use distributed_leader_elect.Seque.Run.{push_all}
use distributed_leader_elect.Seque.Inv.{make-IsValid}
use distributed_leader_elect.Ghs.State.{GhsState, Ctx, done}
use distributed_leader_elect.Ghs.Peers.{
  set_waiting_for, is_waiting_for, construct, reset, add_edges, add_if_valid, set_edge, append_edge,
  set_edge_status, checked_index_of, index_from, set_parent_id, mark_parent, clear_parents,
  get_edge, has_edge, count_true, get_parent_id,
}
use distributed_leader_elect.Ghs.Casts.{mst_convergecast}
use distributed_leader_elect.Ghs.Casts.Addressed.{addressed}
use distributed_leader_elect.Ghs.Frame.{set_waiting_for-Keeps, set_edge_status-Keeps}
use distributed_leader_elect.Ghs.WellFormed.{WellFormed, Keeps-WellFormed}
use distributed_leader_elect.Ghs.WellFormed.Construct.{construct-WellFormed}
use distributed_leader_elect.Ghs.Search.{process_srch, known_sender, start_round}
use distributed_leader_elect.Ghs.OneParent.{to_parent, OneParent-Closed}
use distributed_leader_elect.Ghs.OneParent.Construct.{construct-OneParent}
use distributed_leader_elect.Ghs.Process.{check_search_status, process_srch_ret}
use distributed_leader_elect.Ghs.LastAnswer.{reported_to, last_report-Concludes}
use distributed_leader_elect.Ghs.Conclude.{Concludes, check_search_status-Concludes}
use distributed_leader_elect.Ghs.Asking.Search.{asked}
use distributed_leader_elect.Ghs.Asking.Whole.{Asks, taken_over, process_srch-Asks}
use distributed_leader_elect.Ghs.Reach.{begins, steps_on, starts, initial}
use distributed_leader_elect.Ghs.Reach.Parent.{Reachable-mst_convergecast}

abbrev link : Edge → List Edge
link e =
    e ∷ record e { peer = pos 2; metric_val = 3 } ∷ record e { peer = pos 3; metric_val = 9 } ∷ []

abbrev links : List Edge
links = link (record { peer = pos 1; root = pos 0; status = unknown; metric_val = 5 })

-- The second and the third edge are in the tree.
abbrev joined : GhsState
joined = (set_edge_status (set_edge_status (construct 4 (pos 0) links) (pos 2) mst).1 (pos 3) mst).1

joined-WellFormed : WellFormed joined
joined-WellFormed =
    Keeps-WellFormed
      (set_edge_status-Keeps (set_edge_status (construct 4 (pos 0) links) (pos 2) mst).1 (pos 3)
        mst)
      (Keeps-WellFormed (set_edge_status-Keeps (construct 4 (pos 0) links) (pos 2) mst)
        (construct-WellFormed 4 (pos 0) links))

abbrev in_tree : Ctx
in_tree = record { state = joined; buf = make blank_msg 8; qsz = 77 }

abbrev order : SrchPayload
order = record { your_leader = pos 3; your_level = pos 1 }

process_srch-Asks_example :
    Asks in_tree (asked (taken_over joined (pos 3) order)) (process_srch (pos 3) order in_tree)
unfolding construct reset add_edges add_if_valid set_edge append_edge is_valid_edge checked_index_of
    index_from eqb_ℤ set_edge_status known_sender set_parent_id mark_parent clear_parents get_edge
    has_edge count_true addressed make
process_srch-Asks_example =
    process_srch-Asks (pos 3) order in_tree joined-WellFormed
      (make-IsValid blank_msg 8 (omega arith) (omega arith)) refl refl refl (omega arith) refl

Reachable-mst_convergecast_example :
    let c = (start_round (initial 4 8 (pos 0) links)).1 in
    let up = to_parent (get_parent_id c.state) c.state.my_id MsgType.noop noop_data in
    mst_convergecast c.state MsgType.noop noop_data c.buf ≡ (done (length up), push_all c.buf up)
Reachable-mst_convergecast_example =
    Reachable-mst_convergecast MsgType.noop noop_data (omega arith) (omega arith)
      (refl, (refl, (refl, tt))) (steps_on begins (starts (initial 4 8 (pos 0) links)))

-- An agent that has asked nobody yet.
abbrev at_rest : Ctx
at_rest = record { state = construct 4 (pos 0) links; buf = make blank_msg 8; qsz = 77 }

check_search_status-Concludes_example : Concludes at_rest (check_search_status at_rest)
unfolding construct reset add_edges add_if_valid set_edge append_edge is_valid_edge checked_index_of
    index_from eqb_ℤ count_true
check_search_status-Concludes_example =
    check_search_status-Concludes at_rest (construct-WellFormed 4 (pos 0) links)
      (construct-OneParent 4 (pos 0) links (refl, (refl, (refl, tt)))) refl

-- The same agent, once the peer 1 is awaited.
abbrev one_left : Ctx
one_left = record at_rest { state = (set_waiting_for at_rest.state (pos 1) true).1 }

abbrev last_report : SrchRetPayload
last_report = record { to = pos 7; from = pos 1; metric = 2 }

last_report-Concludes_example :
    Concludes
      (record one_left { state = reported_to one_left.state (pos 1) last_report })
      (process_srch_ret (pos 1) last_report one_left)
unfolding construct reset add_edges add_if_valid set_edge append_edge is_valid_edge checked_index_of
    index_from eqb_ℤ count_true set_waiting_for is_waiting_for
last_report-Concludes_example =
    last_report-Concludes one_left (pos 1) last_report
      (Keeps-WellFormed (set_waiting_for-Keeps at_rest.state (pos 1) true)
        (construct-WellFormed 4 (pos 0) links))
      (OneParent-Closed.by_waiting at_rest.state (pos 1) true
        (construct-OneParent 4 (pos 0) links (refl, (refl, (refl, tt)))))
      refl refl
