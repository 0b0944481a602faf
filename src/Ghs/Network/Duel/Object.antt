-- ===== src/Ghs/Network/Duel/Object.antt =====
-- The accessors, the casts and the queue, at an agent with one peer.
use distributed_leader_elect.Prelude.{
  ◌≡◌, refl, Bool, true, false, eqb_ℤ, eqb_ℤ_refl, if◌then◌else◌, arith, none, some,
}
use distributed_leader_elect.Edge.{
  Agent, Level, Metric, Edge, Status, unknown, mst, mst_parent, eqb_status,
}
use distributed_leader_elect.Msg.{Msg, MsgType, Payload, msg_typed}
use distributed_leader_elect.Seque.{pop_item, push}
use distributed_leader_elect.Ghs.State.{GhsState, Buf, done}
use distributed_leader_elect.Ghs.Peers.{
  is_waiting_for, clear_parents, has_edge, get_edge, checked_index_of, index_from, set_waiting_for,
  set_edge_status, set_parent_id, is_waiting_for,
}
use distributed_leader_elect.Ghs.Casts.{typecast, mst_broadcast, mst_convergecast}
use distributed_leader_elect.Errno.{ok, err_queue_empty}
use distributed_leader_elect.Ghs.Network.Duel.{lone, idle, holding}

pub push_lem : (x m : Msg) → push (idle x) m ≡ (ok, holding m)
unfolding push
push_lem x m = refl

pub pop_item_full : (m : Msg) → pop_item (holding m) ≡ (ok, some m, idle m)
unfolding pop_item
pop_item_full m = refl

pub pop_item_empty : (x : Msg) → pop_item (idle x) ≡ (err_queue_empty, none, idle x)
unfolding pop_item
pop_item_empty x = refl

module _ (a b : Agent) (w : Metric) (ba : eqb_ℤ b a ≡ false) where
  module _ (st : Status) (leader : Agent) (level : Level) (conv : Bool) (best : Edge)
      (waits : Bool) where
    abbrev me : GhsState
    me = lone a b w st leader level conv best waits

    index_lem : checked_index_of me b ≡ done 0
    unfolding checked_index_of index_from
    index_lem = rw (ba, eqb_ℤ_refl b) refl

    pub has_edge_lem : has_edge me b ≡ true
    unfolding has_edge
    has_edge_lem = rw (has_edge, index_lem) refl

    pub get_edge_lem :
        get_edge me b ≡ done (record { peer = b; root = a; status = st; metric_val = w })
    unfolding get_edge
    get_edge_lem = rw index_lem refl

    pub set_waiting_for_lem :
        (v : Bool) → set_waiting_for me b v ≡ (done tt, lone a b w st leader level conv best v)
    unfolding set_waiting_for
    set_waiting_for_lem v = rw index_lem refl

    pub is_waiting_for_lem : is_waiting_for me b ≡ done waits
    unfolding is_waiting_for
    is_waiting_for_lem = rw index_lem refl

    pub set_edge_status_lem :
        (v : Status) → set_edge_status me b v ≡ (done tt, lone a b w v leader level conv best waits)
    unfolding set_edge_status
    set_edge_status_lem v = rw index_lem refl

    pub typecast_lem :
        (v : Status) (t : MsgType) (d : Payload) (q : Buf)
        → typecast me v t d q ≡ (
          done (if eqb_status st v then 1 else 0),
          if eqb_status st v then (push q (msg_typed b a t d)).1 else q,
        )
    unfolding typecast
    typecast_lem v t d q = rw (eqb_ℤ_refl a) (ground arith)

    pub mst_broadcast_lem :
        (t : MsgType) (d : Payload) (q : Buf)
        → mst_broadcast me t d q ≡ (
          done (if eqb_status st mst then 1 else 0),
          if eqb_status st mst then (push q (msg_typed b a t d)).1 else q,
        )
    unfolding mst_broadcast
    mst_broadcast_lem t d q = rw (eqb_ℤ_refl a) (ground arith)

    pub mst_convergecast_lem :
        (t : MsgType) (d : Payload) (q : Buf)
        → mst_convergecast me t d q ≡ (
          done (if eqb_status st mst_parent then 1 else 0),
          if eqb_status st mst_parent then (push q (msg_typed b a t d)).1 else q,
        )
    unfolding mst_convergecast
    mst_convergecast_lem t d q = rw (eqb_ℤ_refl a) (ground arith)

  module _ (leader : Agent) (level : Level) (conv : Bool) (best : Edge) (waits : Bool) where
    pub set_parent_lem :
        set_parent_id (lone a b w mst leader level conv best waits) b
        ≡ (done tt, lone a b w mst_parent leader level conv best waits)
    unfolding set_parent_id clear_parents
    set_parent_lem = rw (ba, has_edge_lem, get_edge_lem, set_edge_status_lem) refl

    pub set_no_parent_unknown :
        set_parent_id (lone a b w unknown leader level conv best waits) a
        ≡ (done tt, lone a b w unknown leader level conv best waits)
    unfolding set_parent_id clear_parents
    set_no_parent_unknown = rw (eqb_ℤ_refl a) refl

    pub set_no_parent_mst :
        set_parent_id (lone a b w mst leader level conv best waits) a
        ≡ (done tt, lone a b w mst leader level conv best waits)
    unfolding set_parent_id clear_parents
    set_no_parent_mst = rw (eqb_ℤ_refl a) refl
