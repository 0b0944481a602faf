-- ===== src/Ghs/Conclude.antt =====
-- `check_search_status`, once all answers are there.
use distributed_leader_elect.Prelude.{
  ◌≤◌, ◌<◌, ◌≡◌, refl, List, Bool, true, false, ◌⊎◌, inl, inr, Bool-cases, length, ltb, ==_iff,
  eqb_ℤ, arith,
}
use distributed_leader_elect.Errno.{bad_msg}
use distributed_leader_elect.Edge.{mst, unknown, worst_metric}
use distributed_leader_elect.Msg.{Msg, MsgType, Payload, noop_data, srch_ret_data, join_us_data}
use distributed_leader_elect.Seque.Run.{push_all}
use distributed_leader_elect.Ghs.State.{GhsState, Ctx, Result, done, fail, steps, cast_out}
use distributed_leader_elect.Ghs.Peers.{get_parent_id, waiting_count}
use distributed_leader_elect.Ghs.Casts.{mst_broadcast, mst_convergecast}
use distributed_leader_elect.Ghs.Casts.Addressed.{addressed, edges_in_use, casts_reach}
use distributed_leader_elect.Ghs.Frame.{Keeps-view}
use distributed_leader_elect.Ghs.WellFormed.{WellFormed, WellFormed-Rooted, Keeps-WellFormed}
use distributed_leader_elect.Ghs.OneParent.{OneParent, to_parent, mst_convergecast_lem}
use distributed_leader_elect.Ghs.Join.{process_join_us}
use distributed_leader_elect.Ghs.Process.{
  process_noop, found_edge, join_request, conclude, check_search_status,
}

-- The call succeeds, pushes these messages, one `push` after another, and counts all of them, also those
-- that a full queue drops.
abbrev pub Pushes : Ctx → List Msg → Result (Unit {0}) × Ctx → Type 0
Pushes c ms p = p ≡ (done tt, record c { buf = push_all c.buf ms; qsz = length ms })

-- One message along each edge to a child.
abbrev pub to_each_child : GhsState → MsgType → Payload → List Msg
to_each_child s t d = addressed s.my_id mst t d (edges_in_use s)

abbrev pub IsLeader : GhsState → Bool → Type 0
IsLeader s b = eqb_ℤ s.my_leader s.my_id ≡ b

-- How a search ends: the report of an agent that does not lead; and, of one that does, the end of the
-- algorithm, the order to join that goes down the tree, the joining itself, or an error.
abbrev pub Concludes : Ctx → Result (Unit {0}) × Ctx → Type 0
Concludes c p =
    let s = c.state in
    let best = c.state.best_edge in
    (IsLeader s false
      × Pushes c
          (to_parent (get_parent_id s) s.my_id MsgType.srch_ret (srch_ret_data (found_edge s))) p)
    ⊎ ((IsLeader s true
          × (worst_metric ≤ best.metric_val)
          × Pushes (record c { state = record s { algorithm_converged = true } })
              (to_each_child s MsgType.noop noop_data) p)
        ⊎ ((IsLeader s true
              × (best.metric_val < worst_metric)
              × (eqb_ℤ best.root s.my_id ≡ false)
              × Pushes c (to_each_child s MsgType.join_us (join_us_data (join_request s))) p)
            ⊎ ((IsLeader s true
                  × (best.metric_val < worst_metric)
                  × (eqb_ℤ best.root s.my_id ≡ true)
                  × (eqb_ℤ best.peer best.root ≡ false)
                  × (p ≡ process_join_us (join_request s) c))
                ⊎ (IsLeader s true
                    × (best.metric_val < worst_metric)
                    × (eqb_ℤ best.root s.my_id ≡ true)
                    × (eqb_ℤ best.peer best.root ≡ true)
                    × (p ≡ (fail bad_msg, c))))))

module _ (c : Ctx) (w : WellFormed c.state) where
  broadcast_out :
      (t : MsgType) (d : Payload)
      → Pushes c (to_each_child c.state t d) (cast_out (λ s. mst_broadcast s t d) c)
  unfolding cast_out
  broadcast_out t d =
      rw (casts_reach c.state unknown t d c.buf (WellFormed-Rooted c.state w)).1 refl

  broadcast_noop :
      Pushes
        (record c { state = record c.state { algorithm_converged = true } })
        (to_each_child c.state MsgType.noop noop_data)
        (process_noop c)
  unfolding process_noop steps cast_out
  broadcast_noop =
      let t = record c.state { algorithm_converged = true } in
      let k = Keeps-view c.state c.state.my_leader c.state.my_level true c.state.best_edge in
      rw
        (casts_reach t unknown MsgType.noop noop_data c.buf
          (WellFormed-Rooted t (Keeps-WellFormed k w))).1
        refl

  report_out :
      OneParent c.state
      → Pushes c
          (to_parent
            (get_parent_id c.state)
            c.state.my_id
            MsgType.srch_ret
            (srch_ret_data (found_edge c.state)))
          (cast_out
            (λ t. mst_convergecast t MsgType.srch_ret (srch_ret_data (found_edge c.state)))
            c)
  unfolding cast_out
  report_out one =
      rw
        (mst_convergecast_lem c.state MsgType.srch_ret (srch_ret_data (found_edge c.state)) c.buf w
          one)
        refl

  -- On a well-formed object with at most one parent, where no answer is awaited: an agent that is not its
  -- own leader reports its best edge to its parent; a leader without an edge has converged and tells its
  -- children; a leader whose best edge starts elsewhere sends the order to join down the tree; one whose
  -- best edge starts at itself joins over it, but for an edge to itself, which is an error. In the first
  -- three cases the call succeeds, pushes exactly these messages, one `push` after another, and counts all
  -- of them, also those that a full queue drops.
  pub check_search_status-Concludes :
      OneParent c.state → waiting_count c.state ≡ 0 → Concludes c (check_search_status c)
  unfolding check_search_status conclude steps
  check_search_status-Concludes one idle =
      rw ((==_iff (waiting_count c.state) 0).1 idle)
        (elim (Bool-cases (eqb_ℤ c.state.my_leader c.state.my_id)) [
          | inr other ↦ rw other (inl (refl, report_out one))
          | inl own ↦ rw own (
              inr (elim (Bool-cases (ltb c.state.best_edge.metric_val worst_metric)) [
                | inr none_left ↦
                    rw none_left (inl (refl, ground (arith, none_left), broadcast_noop))
                | inl better ↦
                    let below : c.state.best_edge.metric_val < worst_metric =
                      ground (arith, better) in
                    rw better (
                      inr (elim (Bool-cases (eqb_ℤ c.state.best_edge.root c.state.my_id)) [
                        | inr away ↦ rw away (
                            inl (
                              refl,
                              below,
                              refl,
                              broadcast_out MsgType.join_us (join_us_data (join_request c.state)),
                            ))
                        | inl here ↦ rw here (
                            inr
                              (elim (Bool-cases
                                (eqb_ℤ c.state.best_edge.peer c.state.best_edge.root)) [
                                  | inr apart ↦ rw apart (inl (refl, below, refl, refl, refl))
                                  | inl same ↦ rw same (inr (refl, below, refl, refl, refl))
                                ]))
                      ]))
              ]))
        ])
