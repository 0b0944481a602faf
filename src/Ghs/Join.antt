-- ===== src/Ghs/Join.antt =====
-- `process_join_us`: two partitions merge, or one absorbs the other, across an edge.
use distributed_leader_elect.Prelude.{
  not, ◌&&◌, ◌||◌, eqb_ℤ, leb_ℤ, max_ℤ, incr_int32, if◌then◌else◌,
}
use distributed_leader_elect.Errno.{
  join_bad_leader, join_bad_level, join_init_bad_leader, join_init_bad_level, join_my_leader,
  join_unexpected_reply, err_impl,
}
use distributed_leader_elect.Edge.{Edge, Status, unknown, mst, mst_parent, deleted, eqb_status}
use distributed_leader_elect.Msg.{JoinUsPayload, MsgType, join_us_data, msg}
use distributed_leader_elect.Ghs.State.{
  M, ◌>>=◌, ◌>>◌, raise, check, lift, get, modify, set_qsz, call, send, cast_out,
}
use distributed_leader_elect.Ghs.Peers.{get_edge, set_edge_status}
use distributed_leader_elect.Ghs.Casts.{mst_broadcast}
use distributed_leader_elect.Ghs.Search.{start_round}

-- `not_involved`: pass the message down the tree.
unfoldable pub relay_join : JoinUsPayload → M (Unit {0})
relay_join pld = do
  s ← get
  check (eqb_ℤ pld.proposed_leader s.my_leader) join_bad_leader
  check (eqb_ℤ pld.proposed_level s.my_level) join_bad_level
  cast_out (λ t. mst_broadcast t MsgType.join_us (join_us_data pld))

-- The edge to the other partition, where this agent is at the asking end.
unfoldable pub initiator_edge : JoinUsPayload → M Edge
initiator_edge pld = do
  s ← get
  e ← lift (get_edge s pld.join_peer)
  check (eqb_ℤ pld.proposed_leader s.my_leader || eqb_status e.status mst) join_init_bad_leader
  check (eqb_ℤ pld.proposed_level s.my_level) join_init_bad_level
  lift (get_edge s pld.join_peer)

-- The same edge, where this agent is at the other end.
unfoldable pub responder_edge : JoinUsPayload → M Edge
responder_edge pld = do
  s ← get
  check (not (eqb_ℤ pld.proposed_leader s.my_leader)) join_my_leader
  check (leb_ℤ pld.proposed_level s.my_level) join_unexpected_reply
  lift (get_edge s pld.join_root)

unfoldable pub find_join_edge : JoinUsPayload → M Edge
unfolding initiator_edge responder_edge
find_join_edge pld = do
  s ← get
  if eqb_ℤ pld.join_root s.my_id then initiator_edge pld else responder_edge pld

-- The edge is in the tree already: both ends asked. The larger id leads the next round.
unfoldable pub merge : JoinUsPayload → M (Unit {0})
merge pld = do
  modify (λ t. record t {
    my_leader = max_ℤ pld.join_peer pld.join_root;
    my_level = incr_int32 t.my_level;
  })
  s ← get
  if eqb_ℤ s.my_leader s.my_id then start_round else set_qsz 0

-- The edge is not in the tree yet: this agent asks the other side to join.
unfoldable pub request_join : JoinUsPayload → M (Unit {0})
request_join pld = do
  s ← get
  modify (λ t. (set_edge_status t pld.join_peer mst).1)
  send (msg pld.join_peer s.my_id (join_us_data pld))
  set_qsz 1

-- The edge is not in the tree yet: the other side asks, and is taken in.
unfoldable pub take_in : JoinUsPayload → M (Unit {0})
take_in pld = do
  s ← get
  check (leb_ℤ pld.proposed_level s.my_level) join_unexpected_reply
  call (λ t. set_edge_status t pld.join_root mst)
  set_qsz 0

unfoldable pub absorb : JoinUsPayload → M (Unit {0})
unfolding request_join take_in
absorb pld = do s ← get; if eqb_ℤ pld.join_root s.my_id then request_join pld else take_in pld

-- A parent edge or a deleted one is `ghs_fatal(ERR_IMPL)`, which throws in a debug build; this is
-- the release build, which returns the code.
unfoldable pub join_over : JoinUsPayload → Status → M (Unit {0})
join_over pld mst = merge pld
join_over pld unknown = absorb pld
join_over pld mst_parent = raise err_impl
join_over pld deleted = raise err_impl

unfoldable pub process_join_us : JoinUsPayload → M (Unit {0})
unfolding relay_join find_join_edge join_over
process_join_us pld = do
  s ← get
  if not (eqb_ℤ pld.join_root s.my_id) && not (eqb_ℤ pld.join_peer s.my_id)
      then relay_join pld
      else do e ← find_join_edge pld; join_over pld e.status
