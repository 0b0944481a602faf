-- ===== src/Ghs/Network/Duel/Merged.antt =====
-- The calls of a run of two agents from the JOIN_US on, which make them one partition.
use distributed_leader_elect.Prelude.{
  ℕ, ◌≡◌, refl, true, false, pos, eqb_ℤ, eqb_ℤ_refl, max_ℤ, incr_int32,
}
use distributed_leader_elect.Edge.{Agent, Metric, Edge, mst, mst_parent, worst_metric}
use distributed_leader_elect.Msg.{Msg, msg, join_us_data, srch_data, srch_ret_data, noop_data}
use distributed_leader_elect.Seque.{make, pop_item, push}
use distributed_leader_elect.Ghs.State.{with_count, cast_out, done, steps}
use distributed_leader_elect.Ghs.Peers.{count_true}
use distributed_leader_elect.Ghs.Search.{
  start_round, process_srch, forward, forward_one, check_new_level, level_loop, level_step,
}
use distributed_leader_elect.Ghs.Join.{
  process_join_us, find_join_edge, responder_edge, merge, join_over,
}
use distributed_leader_elect.Ghs.Process.{
  process, dispatch, process_srch_ret, process_noop, check_search_status, conclude,
}
use distributed_leader_elect.Ghs.Network.Duel.{standing, no_edge, between, idle, holding}
use distributed_leader_elect.Ghs.Network.Duel.Object.{
  has_edge_lem, get_edge_lem, set_waiting_for_lem, is_waiting_for_lem, typecast_lem,
  mst_broadcast_lem, mst_convergecast_lem, set_parent_lem, set_no_parent_mst,
}

module _ (a b : Agent) (w : Metric) (ba : eqb_ℤ b a ≡ false) where
  pub start_round_mst :
      (x : Msg) (best : Edge) (k : ℕ)
      → start_round (standing a b w mst a (pos 1) false best false (idle x) k) ≡ (
        done tt,
        standing a b w mst a
            (pos 1)
            false
            (no_edge a)
            true
            (holding (msg b a (srch_data (record { your_leader = a; your_level = pos 1 }))))
            1,
      )
  unfolding start_round steps count_true push make forward forward_one pop_item with_count
      check_new_level level_loop level_step
  start_round_mst x best k =
      rw
        (
          eqb_ℤ_refl a,
          eqb_ℤ_refl a,
          set_no_parent_mst a b w ba,
          mst_broadcast_lem a b w ba,
          typecast_lem a b w ba,
          set_waiting_for_lem a b w ba,
        )
        refl

  -- Both have asked. The one with the larger id leads the next round,
  pub process_join_lead :
      (x : Msg) (k : ℕ)
      → max_ℤ a b ≡ a
      → process
          (msg a b (
            join_us_data (record {
              join_peer = a;
              join_root = b;
              proposed_leader = b;
              proposed_level = pos 0;
            })))
          (standing a b w mst a (pos 0) false (between a b w) false (idle x) k)
        ≡ (
          done tt,
          standing a b w mst a
              (pos 1)
              false
              (no_edge a)
              true
              (holding (msg b a (srch_data (record { your_leader = a; your_level = pos 1 }))))
              1,
        )
  unfolding process dispatch process_join_us find_join_edge responder_edge join_over merge steps
      incr_int32
  process_join_lead x k larger =
      rw
        (
          ba,
          eqb_ℤ_refl a,
          has_edge_lem a b w ba,
          ba,
          eqb_ℤ_refl a,
          ba,
          ba,
          get_edge_lem a b w ba,
          larger,
          eqb_ℤ_refl a,
          start_round_mst,
        )
        refl

  -- and the other one waits.
  pub process_join_follow :
      (x : Msg) (k : ℕ)
      → max_ℤ a b ≡ b
      → process
          (msg a b (
            join_us_data (record {
              join_peer = a;
              join_root = b;
              proposed_leader = b;
              proposed_level = pos 0;
            })))
          (standing a b w mst a (pos 0) false (between a b w) false (idle x) k)
        ≡ (done tt, standing a b w mst b (pos 1) false (between a b w) false (idle x) 0)
  unfolding process dispatch process_join_us find_join_edge responder_edge join_over merge steps
      incr_int32
  process_join_follow x k larger =
      rw
        (
          ba,
          eqb_ℤ_refl a,
          has_edge_lem a b w ba,
          ba,
          eqb_ℤ_refl a,
          ba,
          ba,
          get_edge_lem a b w ba,
          larger,
          ba,
        )
        refl

  -- The follower has no edge to report.
  pub process_search :
      (x : Msg) (k : ℕ)
      → process
          (msg a b (srch_data (record { your_leader = b; your_level = pos 1 })))
          (standing a b w mst b (pos 1) false (between a b w) false (idle x) k)
        ≡ (
          done tt,
          standing a b w mst_parent b
              (pos 1)
              false
              (no_edge a)
              false
              (holding (
                msg b a
                  (srch_ret_data (record { to = pos 0; from = pos 0; metric = worst_metric }))))
              1,
        )
  unfolding process dispatch process_srch count_true steps push make cast_out
  process_search x k =
      rw
        (
          ba,
          eqb_ℤ_refl a,
          has_edge_lem a b w ba,
          ba,
          get_edge_lem a b w ba,
          set_parent_lem a b w ba,
          mst_broadcast_lem a b w ba,
          typecast_lem a b w ba,
          mst_convergecast_lem a b w ba,
        )
        refl

  -- So the leader has none either, and ends the algorithm.
  pub process_report :
      (x : Msg) (k : ℕ)
      → process
          (msg a b (srch_ret_data (record { to = pos 0; from = pos 0; metric = worst_metric })))
          (standing a b w mst a (pos 1) false (no_edge a) true (idle x) k)
        ≡ (
          done tt,
          standing a b w mst a (pos 1) true (no_edge a) false (holding (msg b a noop_data)) 1,
        )
  unfolding process dispatch process_srch_ret check_search_status conclude process_noop count_true
      steps push cast_out
  process_report x k =
      rw
        (
          ba,
          eqb_ℤ_refl a,
          has_edge_lem a b w ba,
          is_waiting_for_lem a b w ba,
          set_waiting_for_lem a b w ba,
          eqb_ℤ_refl a,
          mst_broadcast_lem a b w ba,
        )
        refl

  -- The follower hears of it.
  pub process_end :
      (x : Msg) (k : ℕ)
      → process
          (msg a b noop_data)
          (standing a b w mst_parent b (pos 1) false (no_edge a) false (idle x) k)
        ≡ (done tt, standing a b w mst_parent b (pos 1) true (no_edge a) false (idle x) 0)
  unfolding process dispatch process_noop steps cast_out
  process_end x k = rw (ba, eqb_ℤ_refl a, has_edge_lem a b w ba, mst_broadcast_lem a b w ba) refl
