-- ===== src/Ghs/Process.antt =====
-- The end of a search and the answers to it, and `process`, which takes every message.
use distributed_leader_elect.Prelude.{true, false, not, pos, eqb_ℤ, ltb, ◌==◌, if◌then◌else◌}
use distributed_leader_elect.Errno.{
  unexpected_srch_ret, ack_not_waiting, process_no_edge_found, bad_msg, process_selfmsg,
  process_notme, process_invalid_type,
}
use distributed_leader_elect.Edge.{Agent, Edge, worst_metric, deleted}
use distributed_leader_elect.Msg.{
  Msg, MsgType, Payload, SrchPayload, SrchRetPayload, InPartPayload, JoinUsPayload, noop_data,
  srch_data, srch_ret_data, in_part_data, join_us_data, unassigned, noop, srch, srch_ret, in_part,
  ack_part, nack_part, join_us,
}
use distributed_leader_elect.Ghs.State.{
  GhsState, Result, done, fail, M, ◌>>=◌, ◌>>◌, raise, check, lift, get, modify, set_qsz, call,
  cast_out,
}
use distributed_leader_elect.Ghs.Peers.{
  get_edge, has_edge, is_waiting_for, set_waiting_for, set_edge_status, waiting_count,
}
use distributed_leader_elect.Ghs.Casts.{mst_broadcast, mst_convergecast}
use distributed_leader_elect.Ghs.Search.{process_srch, process_in_part}
use distributed_leader_elect.Ghs.Join.{process_join_us}

unfoldable pub process_noop : M (Unit {0})
process_noop = do
  modify (λ t. record t { algorithm_converged = true })
  cast_out (λ s. mst_broadcast s MsgType.noop noop_data)

-- What the best edge becomes on the wire.
abbrev pub found_edge : GhsState → SrchRetPayload
found_edge s = record {
  to = s.best_edge.peer;
  from = s.best_edge.root;
  metric = s.best_edge.metric_val;
}

abbrev pub join_request : GhsState → JoinUsPayload
join_request s = record {
  join_peer = s.best_edge.peer;
  join_root = s.best_edge.root;
  proposed_leader = s.my_leader;
  proposed_level = s.my_level;
}

-- The leader's three ways to go on, once the search is over.
unfoldable pub conclude : GhsState → M (Unit {0})
unfolding process_noop
conclude s =
    if not (ltb s.best_edge.metric_val worst_metric)
    then process_noop
    else if eqb_ℤ s.best_edge.root s.my_id
    then (if eqb_ℤ s.best_edge.peer s.best_edge.root
        then raise bad_msg
        else process_join_us (join_request s))
    else cast_out (λ t. mst_broadcast t MsgType.join_us (join_us_data (join_request s)))

unfoldable pub check_search_status : M (Unit {0})
unfolding conclude
check_search_status = do
  s ← get
  if waiting_count s == 0
      then (if not (eqb_ℤ s.my_leader s.my_id)
          then cast_out (λ t. mst_convergecast t MsgType.srch_ret (srch_ret_data (found_edge s)))
          else conclude s)
      else set_qsz 0

-- The better of the best edge so far and the one that a child reports.
abbrev pub take_report : SrchRetPayload → GhsState → GhsState
take_report pld t =
    if ltb pld.metric t.best_edge.metric_val
    then record t {
      best_edge = record t.best_edge { root = pld.from; peer = pld.to; metric_val = pld.metric };
    }
    else t

unfoldable pub process_srch_ret : Agent → SrchRetPayload → M (Unit {0})
process_srch_ret from pld = do
  s ← get
  check (not (waiting_count s == 0)) unexpected_srch_ret
  wf ← lift (is_waiting_for s from)
  check wf unexpected_srch_ret
  call (λ t. set_waiting_for t from false)
  modify (take_report pld)
  check_search_status

unfoldable pub process_ack_part : Agent → M (Unit {0})
process_ack_part from = do
  s ← get
  wf ← lift (is_waiting_for s from)
  check wf ack_not_waiting
  call (λ t. set_edge_status t from deleted)
  call (λ t. set_waiting_for t from false)
  check_search_status

-- The better of the best edge so far and the edge to the sender.
abbrev pub take_edge : Edge → GhsState → GhsState
take_edge e t = if ltb e.metric_val t.best_edge.metric_val then record t { best_edge = e } else t

-- A failed lookup is reported as PROCESS_NO_EDGE_FOUND.
abbrev pub or_no_edge : Result Edge → Result Edge
or_no_edge (done e) = done e
or_no_edge (fail _) = fail process_no_edge_found

unfoldable pub process_nack_part : Agent → M (Unit {0})
process_nack_part from = do
  s ← get
  wf ← lift (is_waiting_for s from)
  check wf ack_not_waiting
  e ← lift (or_no_edge (get_edge s from))
  modify (take_edge e)
  call (λ t. set_waiting_for t from false)
  check_search_status

-- A member of the union. To read one that is not active is undefined in C++; it is a
-- value-initialised payload here.
abbrev pub as_srch : Payload → SrchPayload
as_srch (srch_data p) = p
as_srch _ = record { your_leader = pos 0; your_level = pos 0 }

abbrev pub as_srch_ret : Payload → SrchRetPayload
as_srch_ret (srch_ret_data p) = p
as_srch_ret _ = record { to = pos 0; from = pos 0; metric = 0 }

abbrev pub as_in_part : Payload → InPartPayload
as_in_part (in_part_data p) = p
as_in_part _ = record { leader = pos 0; level = pos 0 }

abbrev pub as_join_us : Payload → JoinUsPayload
as_join_us (join_us_data p) = p
as_join_us _ = record {
  join_peer = pos 0;
  join_root = pos 0;
  proposed_leader = pos 0;
  proposed_level = pos 0;
}

-- The switch of `process`.
unfoldable pub dispatch : MsgType → Msg → M (Unit {0})
dispatch srch m = process_srch m.from (as_srch m.payload)
dispatch srch_ret m = process_srch_ret m.from (as_srch_ret m.payload)
dispatch in_part m = process_in_part m.from (as_in_part m.payload)
dispatch ack_part m = process_ack_part m.from
dispatch nack_part m = process_nack_part m.from
dispatch join_us m = process_join_us (as_join_us m.payload)
dispatch noop m = process_noop
dispatch unassigned m = raise process_invalid_type

unfoldable pub process : Msg → M (Unit {0})
unfolding dispatch
process m = do
  s ← get
  check (not (eqb_ℤ m.from s.my_id)) process_selfmsg
  check (eqb_ℤ m.to s.my_id) process_notme
  check (has_edge s m.from) process_no_edge_found
  dispatch m.type m
