-- ===== src/Ghs/Casts.antt =====
-- `typecast`, `mst_broadcast` and `mst_convergecast`: one message along each edge of a status.
pub mod Addressed
use distributed_leader_elect.Prelude.{ℕ, ◌+◌, List, [], ◌∷◌, not, take, eqb_ℤ, if◌then◌else◌}
use distributed_leader_elect.Errno.{cast_invalid_edge}
use distributed_leader_elect.Edge.{Agent, Status, mst, mst_parent, eqb_status, Edge}
use distributed_leader_elect.Msg.{MsgType, Payload, msg_typed}
use distributed_leader_elect.Seque.{push}
use distributed_leader_elect.Ghs.State.{GhsState, Buf, Result, done, fail}

-- The loop of the three calls. The code of `push` is dropped, and `sent` goes up all the same.
unfoldable pub cast_loop : Agent → Status → MsgType → Payload → List Edge → Buf → ℕ → Result ℕ × Buf
cast_loop my_id status t d [] buf sent = (done sent, buf)
cast_loop my_id status t d (e ∷ es) buf sent =
    if not (eqb_ℤ e.root my_id)
    then (fail cast_invalid_edge, buf)
    else cast_loop my_id status t d es
        (if eqb_status e.status status then (push buf (msg_typed e.peer my_id t d)).1 else buf)
        (if eqb_status e.status status then sent + 1 else sent)

unfoldable pub typecast : GhsState → Status → MsgType → Payload → Buf → Result ℕ × Buf
unfolding cast_loop
typecast s status t d buf = cast_loop s.my_id status t d (take s.n_peers s.outgoing_edges) buf 0

unfoldable pub mst_broadcast : GhsState → MsgType → Payload → Buf → Result ℕ × Buf
unfolding cast_loop
mst_broadcast s t d buf = cast_loop s.my_id mst t d (take s.n_peers s.outgoing_edges) buf 0

unfoldable pub mst_convergecast : GhsState → MsgType → Payload → Buf → Result ℕ × Buf
unfolding cast_loop
mst_convergecast s t d buf =
    cast_loop s.my_id mst_parent t d (take s.n_peers s.outgoing_edges) buf 0
