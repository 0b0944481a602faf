-- ===== src/Ghs/LastAnswer.antt =====
-- The last answer to a search, where it is a SRCH_RET.
use distributed_leader_elect.Prelude.{◌≡◌, refl, ◌∙◌, true, false, if_post, ltb, ◌==◌, arith}
use distributed_leader_elect.Edge.{Agent}
use distributed_leader_elect.Msg.{SrchRetPayload}
use distributed_leader_elect.Ghs.State.{GhsState, Ctx, done, steps}
use distributed_leader_elect.Ghs.Peers.{set_waiting_for, is_waiting_for, waiting_count}
use distributed_leader_elect.Ghs.Frame.{
  Keeps, Keeps-refl, Keeps-trans, Keeps-view, set_waiting_for-Keeps,
}
use distributed_leader_elect.Ghs.WellFormed.{WellFormed, Keeps-WellFormed}
use distributed_leader_elect.Ghs.OneParent.{OneParent, OneParent-Closed}
use distributed_leader_elect.Ghs.Answers.{awaited, answered, take_report-fields}
use distributed_leader_elect.Ghs.Process.{process_srch_ret, take_report, check_search_status}
use distributed_leader_elect.Ghs.Conclude.{Concludes, check_search_status-Concludes}

-- The object when the report is taken.
abbrev pub reported_to : GhsState → Agent → SrchRetPayload → GhsState
reported_to s from pld = take_report pld (set_waiting_for s from false).1

take_report-Keeps : (pld : SrchRetPayload) (t : GhsState) → Keeps t (take_report pld t)
take_report-Keeps pld t =
    if_post (Keeps t) (ltb pld.metric t.best_edge.metric_val)
      (Keeps-view t t.my_leader t.my_level t.algorithm_converged
        (record t.best_edge { root = pld.from; peer = pld.to; metric_val = pld.metric }))
      (Keeps-refl t)

take_report-OneParent :
    (pld : SrchRetPayload) (t : GhsState) → OneParent t → OneParent (take_report pld t)
take_report-OneParent pld t one =
    if_post OneParent (ltb pld.metric t.best_edge.metric_val)
      (OneParent-Closed.by_view t t.my_leader t.my_level t.algorithm_converged
        (record t.best_edge { root = pld.from; peer = pld.to; metric_val = pld.metric }) one)
      one

-- The report of an awaited agent leads to the check of the search.
process_srch_ret-checks :
    (c : Ctx) (from : Agent) (pld : SrchRetPayload)
    → is_waiting_for c.state from ≡ done true
    → waiting_count c.state ≡ 1
    → (process_srch_ret from pld c
        ≡ check_search_status (record c { state = reported_to c.state from pld }))
      × (waiting_count (reported_to c.state from pld) ≡ 0)
unfolding process_srch_ret steps set_waiting_for
process_srch_ret-checks c from pld h one =
    let (idx, f, fewer) = awaited c.state from h in
    let some_left : (waiting_count c.state == 0) ≡ false = ground (arith, one) in
    let (same, _) = take_report-fields pld (answered c.state idx) in
    (rw (some_left, h, f) refl, rw f (same ∙ omega (arith, fewer, one)))

-- On a well-formed object with at most one parent, where one agent alone is awaited: its SRCH_RET is
-- accepted and ends the search. The agent goes on from the object in which that agent is no longer awaited
-- and the better one of the reported edge and its own is the best, in one of the ways of
-- `check_search_status`: the report to the parent, the end of the algorithm, the order to join down the
-- tree, the joining itself, or the error for an edge to itself.
pub last_report-Concludes :
    (c : Ctx) (from : Agent) (pld : SrchRetPayload)
    → WellFormed c.state
    → OneParent c.state
    → is_waiting_for c.state from ≡ done true
    → waiting_count c.state ≡ 1
    → Concludes (record c { state = reported_to c.state from pld }) (process_srch_ret from pld c)
last_report-Concludes c from pld w one h last =
    let t = (set_waiting_for c.state from false).1 in
    let d = record c { state = reported_to c.state from pld } in
    let (same, idle) = process_srch_ret-checks c from pld h last in
    let k = Keeps-trans (set_waiting_for-Keeps c.state from false) (take_report-Keeps pld t) in
    let still_one =
      take_report-OneParent pld t (OneParent-Closed.by_waiting c.state from false one) in
    rw same (check_search_status-Concludes d (Keeps-WellFormed k w) still_one idle)
