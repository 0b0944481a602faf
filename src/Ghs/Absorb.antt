-- ===== src/Ghs/Absorb.antt =====
-- JOIN_US over an edge that is in neither tree yet: the partition that asks is taken in.
use distributed_leader_elect.Prelude.{
  ◌≡◌, refl, true, false, eqb_ℤ, eqb_ℤ_refl, eqb_ℤ_sym, ◌≤ℤ◌, leb_ℤ, update, get_or-update_self,
  inl, inr, List, arith,
}
use distributed_leader_elect.Edge.{Agent, Edge, Status, unknown, mst, worst_edge}
use distributed_leader_elect.Msg.{Msg, msg, join_us_data}
use distributed_leader_elect.Seque.{push}
use distributed_leader_elect.Ghs.State.{GhsState, Ctx, done, steps}
use distributed_leader_elect.Ghs.Peers.{get_edge, has_edge, set_edge_status, checked_index_of}
use distributed_leader_elect.Ghs.Lookup.{Result-cases, checked_index_of-found}
use distributed_leader_elect.Ghs.WellFormed.{WellFormed}
use distributed_leader_elect.Ghs.Join.{
  process_join_us, find_join_edge, initiator_edge, responder_edge, join_over, absorb, request_join,
  take_in,
}
use distributed_leader_elect.Ghs.Process.{process, dispatch, join_request}

-- The object with another status for the edge to `who`; leader, level and all else stay.
abbrev pub edge_set : GhsState → Agent → Status → GhsState
edge_set s who status = (set_edge_status s who status).1

index_kept :
    (s : GhsState) (es : List Edge) (who : Agent)
    → checked_index_of (record s { outgoing_edges = es }) who ≡ checked_index_of s who
unfolding checked_index_of
index_kept s es who = refl

-- A well-formed object with an edge to `who` can change its status.
pub edge_set_lem :
    (s : GhsState) (who : Agent) (e : Edge) (status : Status)
    → WellFormed s
    → get_edge s who ≡ done e
    → (set_edge_status s who status ≡ (done tt, edge_set s who status))
      × (get_edge (edge_set s who status) who ≡ done (record e { status = status }))
      × (has_edge s who ≡ true)
unfolding get_edge set_edge_status has_edge
edge_set_lem s who e status w h = elim (Result-cases (checked_index_of s who)) [
  | inl (idx, y) ↦
      let (used, _, _, _) = checked_index_of-found s who idx y in
      let at_idx =
        get_or-update_self s.outgoing_edges idx (λ (o : Edge). record o { status = status })
          worst_edge (omega (arith, w.in_room, w.edges_size)) in
      let kept =
        index_kept s (update s.outgoing_edges idx (λ (o : Edge). record o { status = status }))
          who in
      (ground (arith, y), ground (arith, y, kept, at_idx, h), ground (arith, y))
  | inr (er, y) ↦ ground (arith, y, h)
]

-- The agent at `c` asks the one at `d` to join across its best edge, which starts at itself and is
-- UNKNOWN to both; `d` has another leader and at least its level.
pub record Crossing (c d : Ctx) (e f : Edge) : Type 0 where
  pub near : WellFormed c.state
  pub far : WellFormed d.state
  pub best_near : c.state.best_edge.root ≡ c.state.my_id
  pub best_far : c.state.best_edge.peer ≡ d.state.my_id
  pub two : eqb_ℤ c.state.my_id d.state.my_id ≡ false
  pub near_edge : get_edge c.state d.state.my_id ≡ done e
  pub far_edge : get_edge d.state c.state.my_id ≡ done f
  pub near_open : e.status ≡ unknown
  pub far_open : f.status ≡ unknown
  pub other_leader : eqb_ℤ c.state.my_leader d.state.my_leader ≡ false
  pub not_above : c.state.my_level ≤ℤ d.state.my_level

abbrev pub asking : Ctx → Msg
asking c = msg c.state.best_edge.peer c.state.my_id (join_us_data (join_request c.state))

-- For two well-formed agents with different ids and leaders, each of which has an UNKNOWN edge to the
-- other: where the best edge of the first starts at itself and leads to the second, whose level is not
-- below its own, the joining succeeds at the first, makes its edge MST, pushes one JOIN_US, the code of
-- the push being dropped, and counts 1. Where the second processes that message, it succeeds, makes its
-- edge MST, sends and counts nothing, and keeps the rest, its leader, level and queue among it.
pub join_absorbs :
    {c d : Ctx} {e f : Edge}
    → Crossing c d e f
    → (process_join_us (join_request c.state) c ≡ (
      done tt,
      record {
        state = edge_set c.state d.state.my_id mst;
        buf = (push c.buf (asking c)).1;
        qsz = 1;
      },
    ))
      × (process (asking c) d
          ≡ (done tt, record d { state = edge_set d.state c.state.my_id mst; qsz = 0 }))
      × (get_edge (edge_set c.state d.state.my_id mst) d.state.my_id
          ≡ done (record e { status = mst }))
      × (get_edge (edge_set d.state c.state.my_id mst) c.state.my_id
          ≡ done (record f { status = mst }))
unfolding process dispatch process_join_us find_join_edge initiator_edge responder_edge join_over
    absorb request_join take_in steps
join_absorbs {c} {d} {e} {f} x =
    let (p, q, r) = edge_set_lem c.state d.state.my_id e mst x.near x.near_edge in
    let (t, u, v) = edge_set_lem d.state c.state.my_id f mst x.far x.far_edge in
    let low : leb_ℤ c.state.my_level d.state.my_level ≡ true = ground (arith, x.not_above) in
    (
      ground (
        arith,
        p,
        x.near_edge,
        x.near_open,
        eqb_ℤ_refl c.state.my_id,
        eqb_ℤ_refl c.state.my_leader,
        eqb_ℤ_refl c.state.my_level,
        x.best_near,
        x.best_far,
        eqb_ℤ_sym c.state.my_id d.state.my_id,
      ),
      ground (
        arith,
        t,
        v,
        x.far_edge,
        x.far_open,
        eqb_ℤ_refl d.state.my_id,
        low,
        x.best_near,
        x.best_far,
        x.two,
        x.other_leader,
      ),
      q,
      u,
    )
