-- ===== src/Ghs/AnswerTests.antt =====
-- include/ghs/ghs_impl.hpp: a partition that is taken in, and questions that had to wait.
use distributed_leader_elect.Prelude.{
  ◌≡◌, refl, ℕ, Bool, false, not, ◌&&◌, List, [], ◌∷◌, pos, eqb_ℤ, get_or, length, ltb, arith,
}
use distributed_leader_elect.Edge.{Agent, Edge, unknown, mst, is_valid_edge}
use distributed_leader_elect.Msg.{blank_msg}
use distributed_leader_elect.Seque.{make, push}
use distributed_leader_elect.Seque.Run.{push_all}
use distributed_leader_elect.Ghs.State.{GhsState, Ctx, done}
use distributed_leader_elect.Ghs.Peers.{
  construct, reset, add_edges, add_if_valid, set_edge, append_edge, get_edge, checked_index_of,
  index_from, respond_later,
}
use distributed_leader_elect.Ghs.Search.{check_new_level, is_due}
use distributed_leader_elect.Ghs.Join.{process_join_us}
use distributed_leader_elect.Ghs.Process.{process, join_request}
use distributed_leader_elect.Ghs.Frame.{Keeps-view}
use distributed_leader_elect.Ghs.WellFormed.{WellFormed, Keeps-WellFormed}
use distributed_leader_elect.Ghs.WellFormed.Construct.{construct-WellFormed}
use distributed_leader_elect.Ghs.Absorb.{edge_set, Crossing, asking, join_absorbs}
use distributed_leader_elect.Ghs.CatchUp.{with_flags, answers_due, check_new_level_catches_up}

abbrev edge_between : Agent → Agent → Edge
edge_between me other = record { peer = other; root = me; status = unknown; metric_val = 5 }

abbrev agent : Agent → Agent → GhsState
agent me other = construct 2 me (edge_between me other ∷ [])

-- Agent 1 has found the edge to agent 2; agent 2 follows agent 9, at level 3.
abbrev asks : GhsState
asks = record (agent (pos 1) (pos 2)) { best_edge = edge_between (pos 1) (pos 2) }

abbrev asked : GhsState
asked = record (agent (pos 2) (pos 1)) { my_leader = pos 9; my_level = pos 3 }

asks-WellFormed : WellFormed asks
asks-WellFormed =
    Keeps-WellFormed
      (Keeps-view (agent (pos 1) (pos 2)) asks.my_leader asks.my_level asks.algorithm_converged
        asks.best_edge)
      (construct-WellFormed 2 (pos 1) (edge_between (pos 1) (pos 2) ∷ []))

asked-WellFormed : WellFormed asked
asked-WellFormed =
    Keeps-WellFormed
      (Keeps-view (agent (pos 2) (pos 1)) asked.my_leader asked.my_level asked.algorithm_converged
        asked.best_edge)
      (construct-WellFormed 2 (pos 2) (edge_between (pos 2) (pos 1) ∷ []))

abbrev near : Ctx
near = record { state = asks; buf = make blank_msg 4; qsz = 9 }

abbrev far : Ctx
far = record { state = asked; buf = make blank_msg 4; qsz = 9 }

crossing : Crossing near far (edge_between (pos 1) (pos 2)) (edge_between (pos 2) (pos 1))
unfolding construct reset add_edges add_if_valid set_edge append_edge is_valid_edge get_edge
    checked_index_of index_from eqb_ℤ
crossing = record {
  near = asks-WellFormed;
  far = asked-WellFormed;
  best_near = refl;
  best_far = refl;
  two = refl;
  near_edge = refl;
  far_edge = refl;
  near_open = refl;
  far_open = refl;
  other_leader = refl;
  not_above = omega arith;
}

join_absorbs_example :
    (process_join_us (join_request near.state) near ≡ (
      done tt,
      record {
        state = edge_set near.state far.state.my_id mst;
        buf = (push near.buf (asking near)).1;
        qsz = 1;
      },
    ))
    × (process (asking near) far
        ≡ (done tt, record far { state = edge_set far.state near.state.my_id mst; qsz = 0 }))
    × (get_edge (edge_set near.state far.state.my_id mst) far.state.my_id
        ≡ done (record (edge_between (pos 1) (pos 2)) { status = mst }))
    × (get_edge (edge_set far.state near.state.my_id mst) near.state.my_id
        ≡ done (record (edge_between (pos 2) (pos 1)) { status = mst }))
join_absorbs_example = join_absorbs crossing

-- A question of level 3 waits where the level has become 3.
abbrev late : Ctx
late = record far {
  state = (respond_later asked (pos 1) (record { leader = pos 9; level = pos 3 })).1;
}

check_new_level_catches_up_example :
    (flags : List Bool) × (check_new_level late ≡ (
      done tt,
      record {
        state = with_flags late.state flags;
        buf = push_all late.buf (answers_due late.state late.state.n_peers 0);
        qsz = length (answers_due late.state late.state.n_peers 0);
      },
    ))
    × ((j : ℕ)
        → get_or flags j false ≡ (
            get_or late.state.response_required j false
            && not (ltb j late.state.n_peers && is_due late.state j)))
check_new_level_catches_up_example = check_new_level_catches_up late

-- It is answered.
one_answer : length (answers_due late.state late.state.n_peers 0) ≡ 1
unfolding construct reset add_edges add_if_valid set_edge append_edge is_valid_edge respond_later
    checked_index_of index_from eqb_ℤ
one_answer = refl
