-- ===== src/Ghs/Handlers/Messages.antt =====
-- The contract of the handlers that a message reaches, and of `process`.
use distributed_leader_elect.Prelude.{
  refl, true, false, not, ◌==◌, ltb, if_post, eqb_ℤ, max_ℤ, incr_int32,
}
use distributed_leader_elect.Errno.{bad_msg, process_invalid_type, err_impl}
use distributed_leader_elect.Edge.{
  Agent, Edge, Status, unknown, mst, mst_parent, deleted, worst_edge, worst_metric,
}
use distributed_leader_elect.Msg.{
  Msg, MsgType, SrchPayload, SrchRetPayload, JoinUsPayload, join_us_data, srch_ret_data, unassigned,
  noop, srch, srch_ret, in_part, ack_part, nack_part, join_us,
}
use distributed_leader_elect.Ghs.State.{GhsState}
use distributed_leader_elect.Ghs.Peers.{waiting_count}
use distributed_leader_elect.Ghs.Casts.Addressed.{mst_convergecast-Casts, mst_broadcast-Casts}
use distributed_leader_elect.Ghs.Search.{process_srch, start_round}
use distributed_leader_elect.Ghs.Join.{
  relay_join, initiator_edge, responder_edge, find_join_edge, merge, request_join, take_in, absorb,
  join_over, process_join_us,
}
use distributed_leader_elect.Ghs.Process.{
  process_noop, conclude, check_search_status, take_report, take_edge, process_srch_ret,
  process_ack_part, process_nack_part, dispatch, process, join_request, found_edge,
}
use distributed_leader_elect.Ghs.Frame.{
  Keeps, Keeps-refl, Keeps-view, set_parent_id-Keeps, set_edge_status-Keeps, set_waiting_for-Keeps,
}
use distributed_leader_elect.Ghs.Contract.{Counts, Still}
use distributed_leader_elect.Ghs.Rules.{
  bind-Counts, bind-Still, get-Counts, get-Still, modify-Still, call-Still, lift-Still, check-Still,
  check-Counts, lift-Counts, raise-Counts, one-Counts, write-Counts,
}
use distributed_leader_elect.Ghs.Handlers.{
  cast_out-Counts, search_from-Counts, process_in_part-Counts,
}

take_report-Keeps : (pld : SrchRetPayload) (t : GhsState) → Keeps t (take_report pld t)
take_report-Keeps pld t =
    if_post (Keeps t) (ltb pld.metric t.best_edge.metric_val)
      (Keeps-view t t.my_leader t.my_level t.algorithm_converged
        (record t.best_edge { root = pld.from; peer = pld.to; metric_val = pld.metric }))
      (Keeps-refl t)

take_edge-Keeps : (o : Edge) (t : GhsState) → Keeps t (take_edge o t)
take_edge-Keeps o t =
    if_post (Keeps t) (ltb o.metric_val t.best_edge.metric_val)
      (Keeps-view t t.my_leader t.my_level t.algorithm_converged o) (Keeps-refl t)

module _ {id : Agent} where
  process_srch-Counts : (from : Agent) (pld : SrchPayload) → Counts id 0 (process_srch from pld)
  unfolding process_srch
  process_srch-Counts from pld = get-Counts _ λ s e. lift-Counts _ _ λ _ _. check-Counts _ _ _ λ _.
      bind-Counts _ _
        (modify-Still _
          λ t. Keeps-view t pld.your_leader pld.your_level t.algorithm_converged t.best_edge)
        λ _. bind-Counts _ _ (call-Still _ λ t. set_parent_id-Keeps t from) λ _.
          bind-Counts _ _
            (modify-Still _ λ t.
              Keeps-view t t.my_leader t.my_level t.algorithm_converged
                (record worst_edge { root = t.my_id }))
            λ _. search_from-Counts

  pub start_round-Counts : Counts id 0 start_round
  unfolding start_round
  start_round-Counts = get-Counts _ λ s e.
      if_post (Counts id 0) (eqb_ℤ s.my_leader s.my_id) (process_srch-Counts _ _) (write-Counts 0)

  relay_join-Counts : (pld : JoinUsPayload) → Counts id 0 (relay_join pld)
  unfolding relay_join
  relay_join-Counts pld = get-Counts _ λ s e. check-Counts _ _ _ λ _. check-Counts _ _ _ λ _.
      cast_out-Counts _ (λ t b. mst_broadcast-Casts t MsgType.join_us (join_us_data pld) b refl)

  find_join_edge-Still : (pld : JoinUsPayload) → Still id (find_join_edge pld)
  unfolding find_join_edge initiator_edge responder_edge
  find_join_edge-Still pld = get-Still _ λ s e.
      if_post (Still id) (eqb_ℤ pld.join_root s.my_id)
        (get-Still _ λ t _. bind-Still _ _ (lift-Still _) λ _.
          bind-Still _ _ (check-Still _ _) λ _. bind-Still _ _ (check-Still _ _) λ _. lift-Still _)
        (get-Still _ λ t _.
          bind-Still _ _ (check-Still _ _) λ _. bind-Still _ _ (check-Still _ _) λ _. lift-Still _)

  merge-Counts : (pld : JoinUsPayload) → Counts id 0 (merge pld)
  unfolding merge
  merge-Counts pld =
      bind-Counts _ _
        (modify-Still _ λ t.
          Keeps-view t (max_ℤ pld.join_peer pld.join_root) (incr_int32 t.my_level)
            t.algorithm_converged t.best_edge)
        λ _. get-Counts _ λ s e.
          if_post (Counts id 0) (eqb_ℤ s.my_leader s.my_id) start_round-Counts (write-Counts 0)

  absorb-Counts : (pld : JoinUsPayload) → Counts id 0 (absorb pld)
  unfolding absorb request_join take_in
  absorb-Counts pld = get-Counts _ λ s e.
      if_post (Counts id 0) (eqb_ℤ pld.join_root s.my_id)
        (get-Counts _ λ t f.
          bind-Counts _ _ (modify-Still _ λ u. set_edge_status-Keeps u pld.join_peer mst)
            λ _. one-Counts pld.join_peer t.my_id (join_us_data pld) f)
        (get-Counts _ λ t f. check-Counts _ _ _ λ _.
          bind-Counts _ _ (call-Still _ λ u. set_edge_status-Keeps u pld.join_root mst)
            λ _. write-Counts 0)

  join_over-Counts : (pld : JoinUsPayload) (st : Status) → Counts id 0 (join_over pld st)
  unfolding join_over
  join_over-Counts pld mst = merge-Counts pld
  join_over-Counts pld unknown = absorb-Counts pld
  join_over-Counts pld mst_parent = raise-Counts err_impl
  join_over-Counts pld deleted = raise-Counts err_impl

  process_join_us-Counts : (pld : JoinUsPayload) → Counts id 0 (process_join_us pld)
  unfolding process_join_us
  process_join_us-Counts pld = get-Counts _ λ s e.
      if_post (Counts id 0) _ (relay_join-Counts pld)
        (bind-Counts _ _ (find_join_edge-Still pld) λ e. join_over-Counts pld e.status)

  process_noop-Counts : Counts id 0 process_noop
  unfolding process_noop
  process_noop-Counts =
      bind-Counts _ _ (modify-Still _ λ t. Keeps-view t t.my_leader t.my_level true t.best_edge)
        λ _. cast_out-Counts _ (λ t b. mst_broadcast-Casts t MsgType.noop _ b refl)

  conclude-Counts : (s : GhsState) → Counts id 0 (conclude s)
  unfolding conclude
  conclude-Counts s =
      if_post (Counts id 0) (not (ltb s.best_edge.metric_val worst_metric)) process_noop-Counts (
        if_post (Counts id 0) (eqb_ℤ s.best_edge.root s.my_id)
          (if_post (Counts id 0) (eqb_ℤ s.best_edge.peer s.best_edge.root) (raise-Counts bad_msg)
            (process_join_us-Counts (join_request s)))
          (cast_out-Counts _
            λ t b. mst_broadcast-Casts t MsgType.join_us (join_us_data (join_request s)) b refl))

  check_search_status-Counts : Counts id 0 check_search_status
  unfolding check_search_status
  check_search_status-Counts = get-Counts _ λ s e.
      if_post (Counts id 0) (waiting_count s == 0)
        (if_post (Counts id 0) (not (eqb_ℤ s.my_leader s.my_id))
          (cast_out-Counts _
            λ t b. mst_convergecast-Casts t MsgType.srch_ret (srch_ret_data (found_edge s)) b refl)
          (conclude-Counts s))
        (write-Counts 0)

  process_srch_ret-Counts :
      (from : Agent) (pld : SrchRetPayload) → Counts id 0 (process_srch_ret from pld)
  unfolding process_srch_ret
  process_srch_ret-Counts from pld = get-Counts _ λ s e. check-Counts _ _ _ λ _.
      lift-Counts _ _ λ wf _. check-Counts _ _ _ λ _.
        bind-Counts _ _ (call-Still _ λ t. set_waiting_for-Keeps t from false) λ _.
          bind-Counts _ _ (modify-Still _ (take_report-Keeps pld)) λ _. check_search_status-Counts

  process_ack_part-Counts : (from : Agent) → Counts id 0 (process_ack_part from)
  unfolding process_ack_part
  process_ack_part-Counts from = get-Counts _ λ s e. lift-Counts _ _ λ wf _. check-Counts _ _ _ λ _.
      bind-Counts _ _ (call-Still _ λ t. set_edge_status-Keeps t from deleted) λ _.
        bind-Counts _ _ (call-Still _ λ t. set_waiting_for-Keeps t from false)
          λ _. check_search_status-Counts

  process_nack_part-Counts : (from : Agent) → Counts id 0 (process_nack_part from)
  unfolding process_nack_part
  process_nack_part-Counts from = get-Counts _ λ s e. lift-Counts _ _ λ wf _.
      check-Counts _ _ _ λ _. lift-Counts _ _ λ o _.
        bind-Counts _ _ (modify-Still _ (take_edge-Keeps o)) λ _.
          bind-Counts _ _ (call-Still _ λ t. set_waiting_for-Keeps t from false)
            λ _. check_search_status-Counts

  dispatch-Counts : (t : MsgType) (m : Msg) → Counts id 0 (dispatch t m)
  unfolding dispatch
  dispatch-Counts srch m = process_srch-Counts _ _
  dispatch-Counts srch_ret m = process_srch_ret-Counts _ _
  dispatch-Counts in_part m = process_in_part-Counts _ _
  dispatch-Counts ack_part m = process_ack_part-Counts _
  dispatch-Counts nack_part m = process_nack_part-Counts _
  dispatch-Counts join_us m = process_join_us-Counts _
  dispatch-Counts noop m = process_noop-Counts
  dispatch-Counts unassigned m = raise-Counts process_invalid_type

  pub process-Counts : (m : Msg) → Counts id 0 (process m)
  unfolding process
  process-Counts m = get-Counts _ λ s e.
      check-Counts _ _ _
        λ _. check-Counts _ _ _ λ _. check-Counts _ _ _ λ _. dispatch-Counts m.type m
