-- ===== src/Ghs/Invariant/Handlers.antt =====
-- Every handler keeps what the setters keep.
use distributed_leader_elect.Prelude.{
  ◌+◌, ℕ, zero, suc, true, false, not, ◌==◌, ltb, eqb_ℤ, leb_ℤ, max_ℤ, incr_int32, if_post,
}
use distributed_leader_elect.Errno.{bad_msg, process_invalid_type, err_impl}
use distributed_leader_elect.Edge.{
  Agent, Edge, Status, unknown, mst, mst_parent, deleted, worst_edge, worst_metric,
}
use distributed_leader_elect.Msg.{
  Msg, MsgType, SrchPayload, SrchRetPayload, InPartPayload, JoinUsPayload, unassigned, noop, srch,
  srch_ret, in_part, ack_part, nack_part, join_us,
}
use distributed_leader_elect.Seque.{size, pop_item}
use distributed_leader_elect.Ghs.State.{GhsState, Buf, send, set_qsz, ◌>>◌}
use distributed_leader_elect.Ghs.Peers.{waiting_count}
use distributed_leader_elect.Ghs.Search.{
  process_in_part, answer_delayed, is_due, level_step, level_loop, check_new_level, respond_no_mwoe,
  forward_one, forward, send_cached, search_from, process_srch, start_round,
}
use distributed_leader_elect.Ghs.Join.{
  relay_join, initiator_edge, responder_edge, find_join_edge, merge, request_join, take_in, absorb,
  join_over, process_join_us,
}
use distributed_leader_elect.Ghs.Process.{
  process_noop, conclude, check_search_status, take_report, take_edge, process_srch_ret,
  process_ack_part, process_nack_part, dispatch, process, join_request,
}
use distributed_leader_elect.Ghs.Invariant.{
  Keeping, bind-Keeping, lift-Keeping, return-Keeping, raise-Keeping, check-Keeping, get-Keeping,
  buffer-Keeping, set_qsz-Keeping, add_qsz-Keeping, send-Keeping, modify-Keeping, call-Keeping,
  cast_out-Keeping, with_count-Keeping, ClosedByAnswers, Closed,
}

module _ {P : GhsState → Type 0} (h : ClosedByAnswers P) where
  sent_one : (m : Msg) → Keeping P (send m >> set_qsz 1)
  sent_one m = bind-Keeping _ _ (send-Keeping m) λ _. set_qsz-Keeping 1

  pub process_in_part-Keeping :
      (from : Agent) (pld : InPartPayload) → Keeping P (process_in_part from pld)
  unfolding process_in_part
  process_in_part-Keeping from pld = bind-Keeping _ _ get-Keeping λ s.
      if_post (Keeping P) (leb_ℤ pld.level s.my_level)
        (if_post (Keeping P) (eqb_ℤ pld.leader s.my_leader) (sent_one _) (sent_one _))
        (bind-Keeping _ _ (modify-Keeping _ λ t. h.later t from pld) λ _. set_qsz-Keeping 0)

  level_step-Keeping : (idx : ℕ) → Keeping P (level_step idx)
  unfolding level_step answer_delayed
  level_step-Keeping idx = bind-Keeping _ _ get-Keeping λ s.
      if_post (Keeping P) (is_due s idx)
        (bind-Keeping _ _ get-Keeping λ t.
          bind-Keeping _ _ (with_count-Keeping _ (process_in_part-Keeping _ _))
            λ n. bind-Keeping _ _ (add_qsz-Keeping n) λ _. modify-Keeping _ λ u. h.answered u idx)
        (return-Keeping tt)

  level_loop-Keeping : (k idx : ℕ) → Keeping P (level_loop k idx)
  unfolding level_loop
  level_loop-Keeping zero idx = return-Keeping tt
  level_loop-Keeping (suc k) idx =
      bind-Keeping _ _ (level_step-Keeping idx) λ _. level_loop-Keeping k (suc idx)

  pub check_new_level-Keeping : Keeping P check_new_level
  unfolding check_new_level
  check_new_level-Keeping =
      bind-Keeping _ _ (set_qsz-Keeping 0)
        λ _. bind-Keeping _ _ get-Keeping λ s. level_loop-Keeping s.n_peers 0

module _ {P : GhsState → Type 0} (h : Closed P) where
  forward-Keeping : (k : ℕ) (q : Buf) → Keeping P (forward k q)
  unfolding forward forward_one
  forward-Keeping zero q = return-Keeping tt
  forward-Keeping (suc k) q =
      bind-Keeping _ _
        (bind-Keeping _ _ (modify-Keeping _ λ t. h.by_waiting t _ true) λ _. send-Keeping _)
        λ _. forward-Keeping k (pop_item q).2

  send_cached-Keeping : (q : Buf) (n : ℕ) → Keeping P (send_cached q n)
  unfolding send_cached
  send_cached-Keeping q n = bind-Keeping _ _ buffer-Keeping λ _.
      bind-Keeping _ _ (forward-Keeping (size q) q) λ _. bind-Keeping _ _ buffer-Keeping λ _.
        bind-Keeping _ _ (check-Keeping _ _) λ _.
          bind-Keeping _ _ (with_count-Keeping _ (check_new_level-Keeping h.by_answers))
            λ x. set_qsz-Keeping (n + x)

  search_from-Keeping : Keeping P search_from
  unfolding search_from respond_no_mwoe
  search_from-Keeping = bind-Keeping _ _ get-Keeping λ s. bind-Keeping _ _ buffer-Keeping λ out.
      bind-Keeping _ _ (lift-Keeping _) λ a. bind-Keeping _ _ (lift-Keeping _) λ b.
        bind-Keeping _ _ (check-Keeping _ _)
          λ _. if_post (Keeping P) _ (cast_out-Keeping _) (send_cached-Keeping _ (a + b))

  process_srch-Keeping : (from : Agent) (pld : SrchPayload) → Keeping P (process_srch from pld)
  unfolding process_srch
  process_srch-Keeping from pld = bind-Keeping _ _ get-Keeping λ s.
      bind-Keeping _ _ (lift-Keeping _) λ _. bind-Keeping _ _ (check-Keeping _ _) λ _.
        bind-Keeping _ _
          (modify-Keeping _
            λ t. h.by_view t pld.your_leader pld.your_level t.algorithm_converged t.best_edge)
          λ _. bind-Keeping _ _ (call-Keeping _ λ t. h.by_parent t from) λ _.
            bind-Keeping _ _
              (modify-Keeping _ λ t.
                h.by_view t t.my_leader t.my_level t.algorithm_converged
                  (record worst_edge { root = t.my_id }))
              λ _. search_from-Keeping

  pub start_round-Keeping : Keeping P start_round
  unfolding start_round
  start_round-Keeping = bind-Keeping _ _ get-Keeping λ s.
      if_post (Keeping P) (eqb_ℤ s.my_leader s.my_id) (process_srch-Keeping _ _) (set_qsz-Keeping 0)

  relay_join-Keeping : (pld : JoinUsPayload) → Keeping P (relay_join pld)
  unfolding relay_join
  relay_join-Keeping pld = bind-Keeping _ _ get-Keeping λ s.
      bind-Keeping _ _ (check-Keeping _ _)
        λ _. bind-Keeping _ _ (check-Keeping _ _) λ _. cast_out-Keeping _

  find_join_edge-Keeping : (pld : JoinUsPayload) → Keeping P (find_join_edge pld)
  unfolding find_join_edge initiator_edge responder_edge
  find_join_edge-Keeping pld = bind-Keeping _ _ get-Keeping λ s.
      if_post (Keeping P) (eqb_ℤ pld.join_root s.my_id)
        (bind-Keeping _ _ get-Keeping λ t. bind-Keeping _ _ (lift-Keeping _) λ _.
          bind-Keeping _ _ (check-Keeping _ _)
            λ _. bind-Keeping _ _ (check-Keeping _ _) λ _. lift-Keeping _)
        (bind-Keeping _ _ get-Keeping λ t.
          bind-Keeping _ _ (check-Keeping _ _)
            λ _. bind-Keeping _ _ (check-Keeping _ _) λ _. lift-Keeping _)

  merge-Keeping : (pld : JoinUsPayload) → Keeping P (merge pld)
  unfolding merge
  merge-Keeping pld =
      bind-Keeping _ _
        (modify-Keeping _ λ t.
          h.by_view t (max_ℤ pld.join_peer pld.join_root) (incr_int32 t.my_level)
            t.algorithm_converged t.best_edge)
        λ _. bind-Keeping _ _ get-Keeping λ s.
          if_post (Keeping P) (eqb_ℤ s.my_leader s.my_id) start_round-Keeping (set_qsz-Keeping 0)

  absorb-Keeping : (pld : JoinUsPayload) → Keeping P (absorb pld)
  unfolding absorb request_join take_in
  absorb-Keeping pld = bind-Keeping _ _ get-Keeping λ s.
      if_post (Keeping P) (eqb_ℤ pld.join_root s.my_id)
        (bind-Keeping _ _ get-Keeping λ t.
          bind-Keeping _ _ (modify-Keeping _ λ u. h.by_join u pld.join_peer)
            λ _. sent_one h.by_answers _)
        (bind-Keeping _ _ get-Keeping λ t. bind-Keeping _ _ (check-Keeping _ _) λ _.
          bind-Keeping _ _ (call-Keeping _ λ u. h.by_join u pld.join_root) λ _. set_qsz-Keeping 0)

  join_over-Keeping : (pld : JoinUsPayload) (st : Status) → Keeping P (join_over pld st)
  unfolding join_over
  join_over-Keeping pld mst = merge-Keeping pld
  join_over-Keeping pld unknown = absorb-Keeping pld
  join_over-Keeping pld mst_parent = raise-Keeping err_impl
  join_over-Keeping pld deleted = raise-Keeping err_impl

  process_join_us-Keeping : (pld : JoinUsPayload) → Keeping P (process_join_us pld)
  unfolding process_join_us
  process_join_us-Keeping pld = bind-Keeping _ _ get-Keeping λ s.
      if_post (Keeping P) _ (relay_join-Keeping pld)
        (bind-Keeping _ _ (find_join_edge-Keeping pld) λ e. join_over-Keeping pld e.status)

  process_noop-Keeping : Keeping P process_noop
  unfolding process_noop
  process_noop-Keeping =
      bind-Keeping _ _ (modify-Keeping _ λ t. h.by_view t t.my_leader t.my_level true t.best_edge)
        λ _. cast_out-Keeping _

  check_search_status-Keeping : Keeping P check_search_status
  unfolding check_search_status conclude
  check_search_status-Keeping = bind-Keeping _ _ get-Keeping λ s.
      if_post (Keeping P) (waiting_count s == 0)
        (if_post (Keeping P) (not (eqb_ℤ s.my_leader s.my_id)) (cast_out-Keeping _) (
          if_post (Keeping P) (not (ltb s.best_edge.metric_val worst_metric)) process_noop-Keeping (
            if_post (Keeping P) (eqb_ℤ s.best_edge.root s.my_id)
              (if_post (Keeping P) (eqb_ℤ s.best_edge.peer s.best_edge.root) (raise-Keeping bad_msg)
                (process_join_us-Keeping (join_request s)))
              (cast_out-Keeping _))))
        (set_qsz-Keeping 0)

  take_report-kept : (pld : SrchRetPayload) (t : GhsState) → P t → P (take_report pld t)
  take_report-kept pld t p =
      if_post P (ltb pld.metric t.best_edge.metric_val)
        (h.by_view t t.my_leader t.my_level t.algorithm_converged
          (record t.best_edge { root = pld.from; peer = pld.to; metric_val = pld.metric }) p)
        p

  take_edge-kept : (o : Edge) (t : GhsState) → P t → P (take_edge o t)
  take_edge-kept o t p =
      if_post P (ltb o.metric_val t.best_edge.metric_val)
        (h.by_view t t.my_leader t.my_level t.algorithm_converged o p) p

  process_srch_ret-Keeping :
      (from : Agent) (pld : SrchRetPayload) → Keeping P (process_srch_ret from pld)
  unfolding process_srch_ret
  process_srch_ret-Keeping from pld = bind-Keeping _ _ get-Keeping λ s.
      bind-Keeping _ _ (check-Keeping _ _) λ _. bind-Keeping _ _ (lift-Keeping _) λ _.
        bind-Keeping _ _ (check-Keeping _ _) λ _.
          bind-Keeping _ _ (call-Keeping _ λ t. h.by_waiting t from false) λ _.
            bind-Keeping _ _ (modify-Keeping _ (take_report-kept pld))
              λ _. check_search_status-Keeping

  process_ack_part-Keeping : (from : Agent) → Keeping P (process_ack_part from)
  unfolding process_ack_part
  process_ack_part-Keeping from = bind-Keeping _ _ get-Keeping λ s.
      bind-Keeping _ _ (lift-Keeping _) λ _. bind-Keeping _ _ (check-Keeping _ _) λ _.
        bind-Keeping _ _ (call-Keeping _ λ t. h.by_drop t from) λ _.
          bind-Keeping _ _ (call-Keeping _ λ t. h.by_waiting t from false)
            λ _. check_search_status-Keeping

  process_nack_part-Keeping : (from : Agent) → Keeping P (process_nack_part from)
  unfolding process_nack_part
  process_nack_part-Keeping from = bind-Keeping _ _ get-Keeping λ s.
      bind-Keeping _ _ (lift-Keeping _) λ _. bind-Keeping _ _ (check-Keeping _ _) λ _.
        bind-Keeping _ _ (lift-Keeping _) λ o.
          bind-Keeping _ _ (modify-Keeping _ (take_edge-kept o)) λ _.
            bind-Keeping _ _ (call-Keeping _ λ t. h.by_waiting t from false)
              λ _. check_search_status-Keeping

  dispatch-Keeping : (t : MsgType) (m : Msg) → Keeping P (dispatch t m)
  unfolding dispatch
  dispatch-Keeping srch m = process_srch-Keeping _ _
  dispatch-Keeping srch_ret m = process_srch_ret-Keeping _ _
  dispatch-Keeping in_part m = process_in_part-Keeping h.by_answers _ _
  dispatch-Keeping ack_part m = process_ack_part-Keeping _
  dispatch-Keeping nack_part m = process_nack_part-Keeping _
  dispatch-Keeping join_us m = process_join_us-Keeping _
  dispatch-Keeping noop m = process_noop-Keeping
  dispatch-Keeping unassigned m = raise-Keeping process_invalid_type

  pub process-Keeping : (m : Msg) → Keeping P (process m)
  unfolding process
  process-Keeping m = bind-Keeping _ _ get-Keeping λ s. bind-Keeping _ _ (check-Keeping _ _) λ _.
      bind-Keeping _ _ (check-Keeping _ _)
        λ _. bind-Keeping _ _ (check-Keeping _ _) λ _. dispatch-Keeping m.type m
