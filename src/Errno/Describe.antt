-- ===== src/Errno/Describe.antt =====
-- src/lib/errno.cpp: the text of each code.
use Prim.Native.String.{String}
use distributed_leader_elect.Prelude.{◌≡◌, refl}
use distributed_leader_elect.Errno.{
  Errno, ok, process_selfmsg, process_notme, process_invalid_type, process_req_mst,
  srch_inavlid_sender, srch_still_waiting, err_queue_msgs, process_no_edge_found,
  unexpected_srch_ret, ack_not_waiting, bad_msg, join_bad_leader, join_bad_level,
  join_init_bad_leader, join_init_bad_level, join_my_leader, join_unexpected_reply, err_impl,
  cast_invalid_edge, set_invalid_edge, set_invalid_edge_metric, set_invalid_edge_not_root,
  set_invalid_edge_no_agent, set_invalid_edge_self_loop, parent_unrecognized, parent_req_mst,
  no_such_peer, impl_req_peer_my_id, too_many_agents, err_queue_full, err_queue_empty, err_bad_idx,
  err_no_such_element, partial_result, no_agents,
}

-- The line behind the switch is never reached: the cases are all codes.
unfoldable pub strerror : Errno → String
strerror ok = "No Error"
strerror process_selfmsg = "Cannot process msg from self"
strerror process_notme = "Cannot process msg to a diff. agent!"
strerror process_invalid_type = "Do not know how to process this type of msg"
strerror process_req_mst = "This msg did not come from MST link, as it should have"
strerror srch_inavlid_sender =
    "Cannot process SRCH msg from this agent. Need valid tree edge (or self-sent)"
strerror srch_still_waiting =
    "Received srch msg from parent, while still waiting for replies -- new round?"
strerror err_queue_msgs = "The outgoing queue did not capture all our msgs"
strerror process_no_edge_found = "do not have an edge to the sender!"
strerror unexpected_srch_ret = "received a srch_ret call, but were not expecting it"
strerror ack_not_waiting = "received ACK from an agent we were not waiting for"
strerror bad_msg = "A malformed msg was received"
strerror join_bad_leader = "Not on parition boundary, and received join_us from unrecognized leader"
strerror join_bad_level = "Not on partition boundary, and rec'd join_us with a different level"
strerror join_init_bad_leader = "Unrecognized leader id when initiating join with another partition"
strerror join_init_bad_level =
    "Different/incorrect level when initiating join with another partition"
strerror join_my_leader = "other partition suggested I join my partition"
strerror join_unexpected_reply =
    "rec higher-level join_us: impossible since we should not have replied to their in_part yet"
strerror err_impl = "Developer error: Reached 'unreachable' branch"
strerror cast_invalid_edge = "*cast operation failed with bad outgoing edge"
strerror set_invalid_edge = "set/add edge operation failed b/c of bad edge"
strerror set_invalid_edge_metric = "add- or set edge failed because metric_val==WORST_METRIC"
strerror set_invalid_edge_not_root = "add- or set edge failed because edge was not rooted on my_id"
strerror set_invalid_edge_no_agent = "add- or set edge failed because of NO_AGENT as peer/root"
strerror set_invalid_edge_self_loop = "add- or set edge failed because Edge.peer == my_id"
strerror parent_unrecognized = "cannot set parent to unrecognized node (no edge)"
strerror parent_req_mst = "cannot set parent to non-MST node (bad edge type)"
strerror no_such_peer = "Cannot find peer idx -- no edge or unrecognized id?"
strerror impl_req_peer_my_id =
    "Cannot treat my_id as peer -- likely implementation error or malformed msg"
strerror too_many_agents = "set/add edge operation failed b/c too many agents"
strerror err_queue_full = "Queue FULL"
strerror err_queue_empty = "Queue EMPTY"
strerror err_bad_idx = "Queue IDX >= underlying buffer size"
strerror err_no_such_element = "Queue IDX >= size()"
strerror partial_result = "The algorithm has not converged!"
strerror no_agents = "The algorithm has not converged!"

-- Two codes share a text.
same_text : strerror no_agents ≡ strerror partial_result
unfolding strerror
same_text = refl
