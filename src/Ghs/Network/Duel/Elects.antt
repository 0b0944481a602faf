-- ===== src/Ghs/Network/Duel/Elects.antt =====
-- The run of two agents ends.
use distributed_leader_elect.Prelude.{
  ℕ, zero, suc, ◌+◌, ◌≡◌, ◌≢◌, ◌<◌, refl, sym, ap, ◌∙◌, [], ◌∷◌, true, false, pos, eqb_ℤ, max_ℤ,
  ltb, Bool-cases, inl, inr, arith,
}
use distributed_leader_elect.Edge.{
  Agent, Metric, unknown, mst, mst_parent, worst_edge, worst_metric, is_valid_edge,
}
use distributed_leader_elect.Msg.{Msg, msg, srch_ret_data, noop_data, blank_msg}
use distributed_leader_elect.Seque.Refine.{contents}
use distributed_leader_elect.Seque.{make, pop_item}
use distributed_leader_elect.Ghs.State.{GhsState, done, Ctx}
use distributed_leader_elect.Ghs.Peers.{
  get_parent_id, construct, add_if_valid, set_edge, append_edge, checked_index_of, index_from,
}
use distributed_leader_elect.Ghs.Merge.{max_of_less}
use distributed_leader_elect.Ghs.Search.{start_round}
use distributed_leader_elect.Ghs.Process.{process}
use distributed_leader_elect.Ghs.Network.Duel.{
  standing, no_edge, lone, between, idle, holding, opened, turn, turns,
}
use distributed_leader_elect.Ghs.Network.Duel.Calls.{
  start_round_unknown, process_question, process_answer,
}
use distributed_leader_elect.Ghs.Network.Duel.Merged.{
  process_join_lead, process_join_follow, process_search, process_report, process_end,
}

construct_lem :
    (i j : ℕ) (w : Metric)
    → i ≢ j
    → 0 < w
    → w < worst_metric
    → construct 2 (pos i) (between (pos i) (pos j) w ∷ [])
      ≡ lone (pos i) (pos j) w unknown (pos i) (pos 0) false worst_edge false
unfolding construct add_if_valid is_valid_edge set_edge append_edge checked_index_of index_from
    eqb_ℤ
construct_lem i j w ne some_metric finite = ground arith

-- A round in which both queues hold a message, or one, or none.
module _ (s t : GhsState) (m n : Msg) (k l : ℕ) where
  turn_both :
      {c d : Ctx}
      → process n (record { state = s; buf = idle m; qsz = k }) ≡ (done tt, c)
      → process m (record { state = t; buf = idle n; qsz = l }) ≡ (done tt, d)
      → turn (
        record { state = s; buf = holding m; qsz = k },
        record { state = t; buf = holding n; qsz = l },
      )
        ≡ (c, d)
  unfolding turn pop_item
  turn_both p q = cc

  turn_left :
      {d : Ctx}
      → process m (record { state = t; buf = idle n; qsz = l }) ≡ (done tt, d)
      → turn (
        record { state = s; buf = holding m; qsz = k },
        record { state = t; buf = idle n; qsz = l },
      )
        ≡ (record { state = s; buf = idle m; qsz = k }, d)
  unfolding turn pop_item
  turn_left q = cc

  turn_right :
      {c : Ctx}
      → process n (record { state = s; buf = idle m; qsz = k }) ≡ (done tt, c)
      → turn (
        record { state = s; buf = idle m; qsz = k },
        record { state = t; buf = holding n; qsz = l },
      )
        ≡ (c, record { state = t; buf = idle n; qsz = l })
  unfolding turn pop_item
  turn_right p = cc

turns-idle :
    (n : ℕ) (s t : GhsState) (x y : Msg) (k l : ℕ)
    → turns n
        (record { state = s; buf = idle x; qsz = k }, record { state = t; buf = idle y; qsz = l })
      ≡ (record { state = s; buf = idle x; qsz = k }, record { state = t; buf = idle y; qsz = l })
unfolding turns turn pop_item
turns-idle zero s t x y k l = refl
turns-idle (suc n) s t x y k l = turns-idle n s t x y k l

abbrev ended : Agent → Agent → Metric → Ctx × Ctx
ended a b w = (
  standing a b w mst a (pos 1) true (no_edge a) false (idle (msg b a noop_data)) 1,
  standing b a w mst_parent a (pos 1) true (no_edge b) false
      (idle (msg a b (srch_ret_data (record { to = pos 0; from = pos 0; metric = worst_metric }))))
      0,
)

-- `a` leads, `b` follows.
module _ (a b : Agent) (w : Metric) (ab : eqb_ℤ a b ≡ false) (ba : eqb_ℤ b a ≡ false)
    (leads : max_ℤ a b ≡ a) (follows : max_ℤ b a ≡ a) (better : ltb w worst_metric ≡ true) where
  runs : (n : ℕ) (p q : Ctx × Ctx) → turn p ≡ q → turns (suc n) p ≡ turns n q
  unfolding turns
  runs n p q h = ap (turns n) h

  lead_ends :
      (n : ℕ)
      → turns (suc (suc (suc (suc (suc (suc n)))))) (
        (start_round
            (standing a b w unknown a (pos 0) false worst_edge false (idle blank_msg) 0)).1,
        (start_round
            (standing b a w unknown b (pos 0) false worst_edge false (idle blank_msg) 0)).1,
      )
        ≡ ended a b w
  lead_ends n =
      rw (start_round_unknown a b w ba, start_round_unknown b a w ab)
        (runs _ _ _
            (turn_both _ _ _ _ _ _ (process_question a b w ba _ _) (process_question b a w ab _ _))
          ∙ runs _ _ _ (
              turn_both _ _ _ _ _ _ (process_answer a b w ba _ _ better)
                (process_answer b a w ab _ _ better))
          ∙ runs _ _ _ (
              turn_both _ _ _ _ _ _ (process_join_lead a b w ba _ _ leads)
                (process_join_follow b a w ab _ _ follows))
          ∙ runs _ _ _ (turn_left _ _ _ _ _ _ (process_search b a w ab _ _))
          ∙ runs _ _ _ (turn_right _ _ _ _ _ _ (process_report a b w ba _ _))
          ∙ runs _ _ _ (turn_left _ _ _ _ _ _ (process_end b a w ab _ _))
          ∙ turns-idle n _ _ _ _ _ _)

-- The agent knows `leader` as the leader and has it as its parent; the algorithm has converged there,
-- and no message waits.
abbrev pub Elected : Agent → Ctx → Type 0
Elected leader c =
    (c.state.my_leader ≡ leader)
    × (c.state.algorithm_converged ≡ true)
    × (get_parent_id c.state ≡ leader)
    × (contents c.buf ≡ [])

ended-Elected : (a b : Agent) (w : Metric) → Elected a (ended a b w).0 × Elected a (ended a b w).1
unfolding get_parent_id
ended-Elected a b w = ((refl, refl, refl, refl), (refl, refl, refl, refl))

opened_lem :
    (i j : ℕ) (w : Metric)
    → i ≢ j
    → 0 < w
    → w < worst_metric
    → opened (pos i) (pos j) w ≡ (
      (start_round (
          standing
            (pos i)
            (pos j)
            w
            unknown
            (pos i)
            (pos 0)
            false
            worst_edge
            false
            (idle blank_msg)
            0)).1,
      (start_round (
          standing
            (pos j)
            (pos i)
            w
            unknown
            (pos j)
            (pos 0)
            false
            worst_edge
            false
            (idle blank_msg)
            0)).1,
    )
unfolding opened make
opened_lem i j w ne some_metric finite =
    rw
      (
        construct_lem i j w ne some_metric finite,
        construct_lem j i w (λ e. ne (sym e)) some_metric finite,
      )
      refl

swap_turns : (n : ℕ) (p : Ctx × Ctx) → turns n (p.1, p.0) ≡ ((turns n p).1, (turns n p).0)
unfolding turns turn
swap_turns zero p = refl
swap_turns (suc n) p = swap_turns n (turn p)

lead_elects :
    (i j : ℕ) (w : Metric) (n : ℕ)
    → j < i
    → 0 < w
    → w < worst_metric
    → let p = turns (6 + n) (opened (pos i) (pos j) w) in Elected (pos i) p.0 × Elected (pos i) p.1
unfolding eqb_ℤ max_ℤ
lead_elects i j w n less some_metric finite =
    let six : 6 + n ≡ suc (suc (suc (suc (suc (suc n))))) = omega arith in
    let ends : turns (6 + n) (opened (pos i) (pos j) w) ≡ ended (pos i) (pos j) w =
      ap (λ k. turns k (opened (pos i) (pos j) w)) six
      ∙ ap (turns (suc (suc (suc (suc (suc (suc n)))))))
          (opened_lem i j w (ground arith) some_metric finite)
      ∙ lead_ends (pos i) (pos j) w (ground arith) (ground arith) (ground arith) (ground arith)
          (ground arith) n in
    rw ends (ended-Elected (pos i) (pos j) w)

-- Two agents with different ids that are not negative, objects with two cells, one edge between them, of
-- any valid metric, and queues of one cell: both start a round, and hand over their messages in turns.
-- After six turns, and after any number of turns more, both know the one with the larger id as the leader
-- and have it as their parent (the leader is its own), both have converged, and no message is left.
pub two_agents_elect :
    (i j : ℕ) (w : Metric) (n : ℕ)
    → i ≢ j
    → 0 < w
    → w < worst_metric
    → let p = turns (6 + n) (opened (pos i) (pos j) w) in
      Elected (max_ℤ (pos i) (pos j)) p.0 × Elected (max_ℤ (pos i) (pos j)) p.1
unfolding opened
two_agents_elect i j w n ne some_metric finite = elim (Bool-cases (ltb i j)) [
  | inl less ↦
      let (follows, leads) = lead_elects j i w n (ground arith) some_metric finite in
      rw
        (
          swap_turns (6 + n) (opened (pos j) (pos i) w),
          (max_of_less (pos i) (pos j) (ground arith)).0,
        )
        (leads, follows)
  | inr less ↦
      rw (max_of_less (pos j) (pos i) (ground arith)).1
        (lead_elects i j w n (ground arith) some_metric finite)
]
