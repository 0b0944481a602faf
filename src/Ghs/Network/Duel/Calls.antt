-- ===== src/Ghs/Network/Duel/Calls.antt =====
-- The calls of a run of two agents until both ask the other to join.
use distributed_leader_elect.Prelude.{ℕ, ◌≡◌, refl, true, false, pos, eqb_ℤ, eqb_ℤ_refl, ltb}
use distributed_leader_elect.Edge.{Agent, Metric, Edge, unknown, mst, worst_metric}
use distributed_leader_elect.Msg.{Msg, msg, in_part_data, nack_part_data, join_us_data}
use distributed_leader_elect.Seque.{make, pop_item, push}
use distributed_leader_elect.Ghs.State.{with_count, done, steps}
use distributed_leader_elect.Ghs.Peers.{count_true}
use distributed_leader_elect.Ghs.Search.{
  start_round, forward, forward_one, check_new_level, level_loop, level_step, process_in_part,
}
use distributed_leader_elect.Ghs.Join.{
  process_join_us, find_join_edge, initiator_edge, join_over, absorb, request_join,
}
use distributed_leader_elect.Ghs.Process.{
  process, dispatch, process_nack_part, check_search_status, conclude,
}
use distributed_leader_elect.Ghs.Network.Duel.{standing, no_edge, between, idle, holding}
use distributed_leader_elect.Ghs.Network.Duel.Object.{
  has_edge_lem, get_edge_lem, set_waiting_for_lem, is_waiting_for_lem, set_edge_status_lem,
  typecast_lem, mst_broadcast_lem, set_no_parent_unknown,
}

module _ (a b : Agent) (w : Metric) (ba : eqb_ℤ b a ≡ false) where
  -- The first round: the agent asks its peer which partition it is in.
  pub start_round_unknown :
      (x : Msg) (best : Edge) (k : ℕ)
      → start_round (standing a b w unknown a (pos 0) false best false (idle x) k) ≡ (
        done tt,
        standing a b w unknown a
            (pos 0)
            false
            (no_edge a)
            true
            (holding (msg b a (in_part_data (record { leader = a; level = pos 0 }))))
            1,
      )
  unfolding start_round steps count_true push make forward forward_one pop_item with_count
      check_new_level level_loop level_step
  start_round_unknown x best k =
      rw
        (
          eqb_ℤ_refl a,
          eqb_ℤ_refl a,
          set_no_parent_unknown a b w ba,
          mst_broadcast_lem a b w ba,
          typecast_lem a b w ba,
          set_waiting_for_lem a b w ba,
        )
        refl

  -- The peer's question is answered: it is in another partition.
  pub process_question :
      (x : Msg) (k : ℕ)
      → process
          (msg a b (in_part_data (record { leader = b; level = pos 0 })))
          (standing a b w unknown a (pos 0) false (no_edge a) true (idle x) k)
        ≡ (
          done tt,
          standing a b w unknown a
              (pos 0)
              false
              (no_edge a)
              true
              (holding (msg b a nack_part_data))
              1,
        )
  unfolding process dispatch process_in_part steps push
  process_question x k = rw (ba, eqb_ℤ_refl a, has_edge_lem a b w ba, ba) refl

  -- The answer makes the one edge the best one, and the agent asks its peer to join.
  pub process_answer :
      (x : Msg) (k : ℕ)
      → ltb w worst_metric ≡ true
      → process
          (msg a b nack_part_data)
          (standing a b w unknown a (pos 0) false (no_edge a) true (idle x) k)
        ≡ (
          done tt,
          standing a b w mst a
              (pos 0)
              false
              (between a b w)
              false
              (holding (
                msg b a (
                  join_us_data (record {
                    join_peer = b;
                    join_root = a;
                    proposed_leader = a;
                    proposed_level = pos 0;
                  }))))
              1,
        )
  unfolding process dispatch process_nack_part check_search_status conclude process_join_us
      find_join_edge initiator_edge join_over absorb request_join count_true steps push
  process_answer x k better =
      rw
        (
          ba,
          eqb_ℤ_refl a,
          has_edge_lem a b w ba,
          is_waiting_for_lem a b w ba,
          get_edge_lem a b w ba,
          better,
          set_waiting_for_lem a b w ba,
          eqb_ℤ_refl a,
          better,
          ba,
          eqb_ℤ_refl a,
          eqb_ℤ_refl a,
          get_edge_lem a b w ba,
          eqb_ℤ_refl a,
          eqb_ℤ_refl (pos 0),
          eqb_ℤ_refl a,
          set_edge_status_lem a b w ba,
        )
        refl
