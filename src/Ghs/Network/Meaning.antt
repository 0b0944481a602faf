-- ===== src/Ghs/Network/Meaning.antt =====
-- `process` by the payload of a message alone.
use distributed_leader_elect.Prelude.{◌≡◌, refl, eqb_ℤ, if◌then◌else◌, not, arith}
use distributed_leader_elect.Errno.{process_selfmsg, process_notme, process_no_edge_found}
use distributed_leader_elect.Edge.{Agent}
use distributed_leader_elect.Msg.{
  Msg, Payload, type_of, noop_data, ack_part_data, nack_part_data, srch_data, srch_ret_data,
  in_part_data, join_us_data,
}
use distributed_leader_elect.Ghs.State.{GhsState, Ctx, M, fail, steps}
use distributed_leader_elect.Ghs.Peers.{has_edge, checked_index_of}
use distributed_leader_elect.Ghs.Search.{process_srch, process_in_part}
use distributed_leader_elect.Ghs.Join.{process_join_us}
use distributed_leader_elect.Ghs.Process.{
  process, dispatch, process_noop, process_srch_ret, process_ack_part, process_nack_part,
}
use distributed_leader_elect.Ghs.Frame.{Keeps}

-- What a payload from the agent `from` asks for, with no type beside it.
unfoldable pub meant : Agent → Payload → M (Unit {0})
meant from noop_data = process_noop
meant from ack_part_data = process_ack_part from
meant from nack_part_data = process_nack_part from
meant from (srch_data p) = process_srch from p
meant from (srch_ret_data p) = process_srch_ret from p
meant from (in_part_data p) = process_in_part from p
meant from (join_us_data p) = process_join_us p

dispatch-meant : (m : Msg) (p : Payload) → m.payload ≡ p → dispatch (type_of p) m ≡ meant m.from p
unfolding dispatch meant
dispatch-meant m noop_data e = refl
dispatch-meant m ack_part_data e = refl
dispatch-meant m nack_part_data e = refl
dispatch-meant m (srch_data p) e = rw e
dispatch-meant m (srch_ret_data p) e = rw e
dispatch-meant m (in_part_data p) e = rw e
dispatch-meant m (join_us_data p) e = rw e

has_edge-Keeps : (s t : GhsState) (who : Agent) → Keeps s t → has_edge t who ≡ has_edge s who
unfolding has_edge checked_index_of
has_edge-Keeps s t who k = rw (k.same_id, k.same_count, k.same_peers)

-- `process` by the payload alone, for a message of the type of its payload.
pub process-meant :
    (i j : Agent) (m : Msg) (c : Ctx) (s : GhsState)
    → m.from ≡ i
    → m.type ≡ type_of m.payload
    → c.state.my_id ≡ j
    → Keeps s c.state
    → process m c ≡ (
        if eqb_ℤ i j
        then (fail process_selfmsg, c)
        else if not (eqb_ℤ m.to j)
        then (fail process_notme, c)
        else if not (has_edge s i)
        then (fail process_no_edge_found, c)
        else meant i m.payload c)
unfolding process steps
process-meant i j m c s f t own k =
    ground (arith, dispatch-meant m m.payload refl, has_edge-Keeps s c.state i k)
