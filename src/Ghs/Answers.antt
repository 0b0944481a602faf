-- ===== src/Ghs/Answers.antt =====
-- The answers to a search: SRCH_RET, ACK_PART and NACK_PART, while more of them are awaited.
use distributed_leader_elect.Prelude.{
  ℕ, zero, suc, ◌+◌, ◌≤◌, ◌<◌, ◌≡◌, refl, min, List, [], ◌∷◌, Bool, true, false, Bool-cases, inl,
  inr, get_or, set, update, if_post, take, ltb, ◌==◌, arith,
}
use distributed_leader_elect.Edge.{Agent, Edge, Metric, deleted}
use distributed_leader_elect.Msg.{SrchRetPayload}
use distributed_leader_elect.Ghs.State.{GhsState, Ctx, Result, done, steps}
use distributed_leader_elect.Ghs.Peers.{
  count_true, waiting_count, is_waiting_for, set_waiting_for, set_edge_status, get_edge,
  checked_index_of,
}
use distributed_leader_elect.Ghs.Lookup.{Result-cases, checked_index_of-found}
use distributed_leader_elect.Ghs.Process.{
  check_search_status, process_srch_ret, process_ack_part, process_nack_part, take_report,
  take_edge,
}

-- To reset a flag that is set takes one from the count.
count_true-set :
    (n : ℕ) (bs : List Bool) (i : ℕ)
    → i < n
    → get_or bs i false ≡ true
    → count_true (take n (set bs i false)) + 1 ≡ count_true (take n bs)
unfolding count_true
count_true-set zero bs i h y = absurd (omega arith)
count_true-set (suc n) [] i h y = ground arith
count_true-set (suc n) (b ∷ bs) zero h y = rw y (omega arith)
count_true-set (suc n) (b ∷ bs) (suc i) h y = omega (arith, count_true-set n bs i (omega arith) y)

-- One answer fewer is awaited after the call, which sends nothing and succeeds with a count of 0; the
-- best edge has the metric `best`.
abbrev pub Awaits : Ctx → Metric → Result (Unit {0}) × Ctx → Type 0
Awaits c best p =
    (p.0 ≡ done tt)
    × (p.1.buf ≡ c.buf)
    × (p.1.qsz ≡ 0)
    × (waiting_count p.1.state + 1 ≡ waiting_count c.state)
    × (p.1.state.best_edge.metric_val ≡ best)

-- The cell of an awaited peer.
pub awaited :
    (s : GhsState) (from : Agent)
    → is_waiting_for s from ≡ done true
    → (idx : ℕ) × (checked_index_of s from ≡ done idx)
      × (count_true (take s.n_peers (set s.waiting_for_response idx false)) + 1 ≡ waiting_count s)
unfolding is_waiting_for
awaited s from h = elim (Result-cases (checked_index_of s from)) [
  | inl (idx, f) ↦
      let (used, _, _, _) = checked_index_of-found s from idx f in
      (idx, f, count_true-set s.n_peers s.waiting_for_response idx used (ground (arith, f)))
  | inr (e, f) ↦ ground (arith, f)
]

-- While answers are awaited, the status check does nothing.
waits :
    (d : Ctx) → 1 ≤ waiting_count d.state → check_search_status d ≡ (done tt, record d { qsz = 0 })
unfolding check_search_status steps
waits d h = ground arith

abbrev pub answered : GhsState → ℕ → GhsState
answered s idx = record s { waiting_for_response = set s.waiting_for_response idx false }

pub take_report-fields :
    (pld : SrchRetPayload) (t : GhsState)
    → (waiting_count (take_report pld t) ≡ waiting_count t)
      × ((take_report pld t).best_edge.metric_val ≡ min t.best_edge.metric_val pld.metric)
take_report-fields pld t = elim (Bool-cases (ltb pld.metric t.best_edge.metric_val)) [
  | inl y ↦ rw y (refl, ground arith)
  | inr y ↦ rw y (refl, ground arith)
]

take_edge-fields :
    (o : Edge) (t : GhsState)
    → (waiting_count (take_edge o t) ≡ waiting_count t)
      × ((take_edge o t).best_edge.metric_val ≡ min t.best_edge.metric_val o.metric_val)
take_edge-fields o t = elim (Bool-cases (ltb o.metric_val t.best_edge.metric_val)) [
  | inl y ↦ rw y (refl, ground arith)
  | inr y ↦ rw y (refl, ground arith)
]

index-take_edge :
    (o : Edge) (t : GhsState) (who : Agent)
    → checked_index_of (take_edge o t) who ≡ checked_index_of t who
unfolding checked_index_of
index-take_edge o t who =
    if_post (λ (u : GhsState). checked_index_of u who ≡ checked_index_of t who)
      (ltb o.metric_val t.best_edge.metric_val) refl refl

index-edges :
    (t : GhsState) (es : List Edge) (who : Agent)
    → checked_index_of (record t { outgoing_edges = es }) who ≡ checked_index_of t who
unfolding checked_index_of
index-edges t es who = refl

-- From the state that the status check finds.
Awaits-after :
    (c : Ctx) (best : Metric) (p : Result (Unit {0}) × Ctx) (t : GhsState)
    → 2 ≤ waiting_count c.state
    → p ≡ check_search_status (record c { state = t })
    → waiting_count t + 1 ≡ waiting_count c.state
    → t.best_edge.metric_val ≡ best
    → Awaits c best p
Awaits-after c best p t more e fewer b =
    rw (e, waits (record c { state = t }) (omega arith)) (refl, refl, refl, fewer, b)

module _ (c : Ctx) (from : Agent) (h : is_waiting_for c.state from ≡ done true)
    (more : 2 ≤ waiting_count c.state) where
  pub process_srch_ret-Awaits :
      (pld : SrchRetPayload)
      → Awaits c (min c.state.best_edge.metric_val pld.metric) (process_srch_ret from pld c)
  unfolding process_srch_ret steps set_waiting_for
  process_srch_ret-Awaits pld =
      let (idx, f, one_less) = awaited c.state from h in
      let (same, best) = take_report-fields pld (answered c.state idx) in
      let some_left : (waiting_count c.state == 0) ≡ false = ground arith in
      Awaits-after c _ (process_srch_ret from pld c) (take_report pld (answered c.state idx)) more
        (rw (some_left, h, f) refl) (omega arith) best

  pub process_nack_part-Awaits :
      (e : Edge)
      → get_edge c.state from ≡ done e
      → Awaits c (min c.state.best_edge.metric_val e.metric_val) (process_nack_part from c)
  unfolding process_nack_part steps set_waiting_for
  process_nack_part-Awaits e g =
      let (idx, f, one_less) = awaited c.state from h in
      let (same, best) = take_edge-fields e c.state in
      Awaits-after c _ (process_nack_part from c) (answered (take_edge e c.state) idx) more
        (rw (h, g, index-take_edge e c.state from, f) refl)
        (if_post (λ (u : GhsState). waiting_count (answered u idx) + 1 ≡ waiting_count c.state)
          (ltb e.metric_val c.state.best_edge.metric_val) one_less one_less)
        best

  pub process_ack_part-Awaits : Awaits c c.state.best_edge.metric_val (process_ack_part from c)
  unfolding process_ack_part steps set_waiting_for set_edge_status
  process_ack_part-Awaits =
      let (idx, f, one_less) = awaited c.state from h in
      let closed = update c.state.outgoing_edges idx (λ e. record e { status = deleted }) in
      Awaits-after c _ (process_ack_part from c)
        (answered (record c.state { outgoing_edges = closed }) idx) more
        (rw (h, f, index-edges c.state closed from, f) refl) one_less refl

-- Where `from` is one of at least two agents that are awaited, each of its three answers is accepted,
-- sends nothing, reports a count of 0, and leaves one agent fewer to wait for. The metric of the best
-- edge becomes the smaller one of its own and of the reported one (SRCH_RET) or that of the edge to
-- `from` (NACK_PART), and stays for an ACK_PART.
pub answers_count_down :
    (c : Ctx) (from : Agent) (pld : SrchRetPayload) (e : Edge)
    → is_waiting_for c.state from ≡ done true
    → 2 ≤ waiting_count c.state
    → get_edge c.state from ≡ done e
    → Awaits c (min c.state.best_edge.metric_val pld.metric) (process_srch_ret from pld c)
      × Awaits c (min c.state.best_edge.metric_val e.metric_val) (process_nack_part from c)
      × Awaits c c.state.best_edge.metric_val (process_ack_part from c)
answers_count_down c from pld e h more g = (
  process_srch_ret-Awaits c from h more pld,
  process_nack_part-Awaits c from h more e g,
  process_ack_part-Awaits c from h more,
)
