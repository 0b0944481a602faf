-- ===== src/Errno.antt =====
-- include/le/errno.h: the codes that every operation returns.
pub mod Describe
use mathlib.Core.Bool.{Bool, true, false}

-- `enum Errno`, in the order of the header.
pub data Errno : Type 0 where
  ok process_selfmsg process_notme process_invalid_type process_req_mst : Errno
  srch_inavlid_sender srch_still_waiting err_queue_msgs process_no_edge_found : Errno
  unexpected_srch_ret ack_not_waiting bad_msg join_bad_leader join_bad_level : Errno
  join_init_bad_leader join_init_bad_level join_my_leader join_unexpected_reply : Errno
  err_impl cast_invalid_edge set_invalid_edge set_invalid_edge_metric : Errno
  set_invalid_edge_not_root set_invalid_edge_no_agent set_invalid_edge_self_loop : Errno
  parent_unrecognized parent_req_mst no_such_peer impl_req_peer_my_id : Errno
  too_many_agents partial_result no_agents err_queue_full err_queue_empty : Errno
  err_bad_idx err_no_such_element : Errno

-- The test `OK == err`.
abbrev pub is_ok : Errno → Bool
is_ok ok = true
is_ok _ = false

abbrev pub is_no_such_peer : Errno → Bool
is_no_such_peer no_such_peer = true
is_no_such_peer _ = false

abbrev pub is_too_many_agents : Errno → Bool
is_too_many_agents too_many_agents = true
is_too_many_agents _ = false
