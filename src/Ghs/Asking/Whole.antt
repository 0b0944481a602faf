-- ===== src/Ghs/Asking/Whole.antt =====
-- A SRCH that is taken, from the handler's start to its end.
use distributed_leader_elect.Prelude.{
  ℕ, ◌+◌, ◌≤◌, ◌<◌, ◌≡◌, refl, ◌∙◌, sym, ap, List, ◌++◌, Bool, false, ◌||◌, ◌&&◌, ◌==◌, ==_iff,
  length, length-append, get_or, arith,
}
use mathlib.Core.Path.{subst}
use distributed_leader_elect.Edge.{Agent, Edge, unknown, mst, eqb_status, worst_edge}
use distributed_leader_elect.Msg.{Msg, MsgType, SrchPayload, srch_data, in_part_data}
use distributed_leader_elect.Seque.{size}
use distributed_leader_elect.Seque.Inv.{IsValid}
use distributed_leader_elect.Seque.Refine.{contents}
use distributed_leader_elect.Seque.Run.{
  push_all, push_all-append, push_all-IsValid, contents-push_all_first,
}
use distributed_leader_elect.Ghs.State.{GhsState, Ctx, Result, done, steps}
use distributed_leader_elect.Ghs.Peers.{set_parent_id, delayed_count, waiting_count}
use distributed_leader_elect.Ghs.Frame.{Keeps, Keeps-trans, Keeps-view, set_parent_id-Keeps}
use distributed_leader_elect.Ghs.WellFormed.{WellFormed, peer_at, edge_at, Keeps-WellFormed}
use distributed_leader_elect.Ghs.Contract.{Ready, Own, Sum}
use distributed_leader_elect.Ghs.Handlers.{check_new_level-Sums}
use distributed_leader_elect.Ghs.Invariant.Handlers.{check_new_level-Keeping}
use distributed_leader_elect.Ghs.Search.{search_from, known_sender, process_srch}
use distributed_leader_elect.Ghs.Asking.Flags.{
  flag_at, await_all, await_all-flag, mentions-append, mentions-status,
}
use distributed_leader_elect.Ghs.Asking.Kept.{
  Shows, Shows-ClosedByAnswers, await_all-edges, await_all-Keeps, idle_flag,
  set_parent_id-SameFlags,
}
use distributed_leader_elect.Ghs.Asking.Search.{
  to_children, to_unknown, asked, check_new_level-done,
}
use distributed_leader_elect.Ghs.Asking.Sent.{search_from_lem, moved_to, answered_from}

-- Whether the edge leads to a child (MST) or is UNKNOWN: not to the parent, and not deleted.
abbrev pub is_asked : Edge → Bool
is_asked e = eqb_status e.status mst || eqb_status e.status unknown

-- The flags of the peers after the messages are addressed.
asked-flag :
    (s : GhsState) (j : ℕ)
    → WellFormed s
    → j < s.n_peers
    → flag_at s j ≡ false
    → flag_at (await_all s (asked s)) j ≡ is_asked (edge_at s j)
asked-flag s j w b idle =
    await_all-flag s (asked s) j w b
    ∙ rw
        (
          idle,
          mentions-append (peer_at s j) (to_children s) (to_unknown s),
          mentions-status s mst MsgType.srch
              (srch_data (record { your_leader = s.my_leader; your_level = s.my_level })) j w b,
          mentions-status s unknown MsgType.in_part
              (in_part_data (record { leader = s.my_leader; level = s.my_level })) j w b,
        )
        refl

-- The object once the SRCH is taken: the new view and parent, and no best edge.
abbrev pub viewed : GhsState → SrchPayload → GhsState
viewed s pld = record s { my_leader = pld.your_leader; my_level = pld.your_level }

abbrev pub taken_over : GhsState → Agent → SrchPayload → GhsState
taken_over s from pld =
    let t = (set_parent_id (viewed s pld) from).1 in
    record t { best_edge = record worst_edge { root = t.my_id } }

-- The call succeeds, pushes `ms` and then answers of this agent to delayed IN_PARTs, one `push` after
-- another, and counts all of them; `ms` is in the queue then, behind what was there, and in front of what
-- is kept of the answers. Who is waited for then are the peers along MST and UNKNOWN edges, and no others.
abbrev pub Asks : Ctx → List Msg → Result (Unit {0}) × Ctx → Type 0
Asks c ms p =
    (p.0 ≡ done tt)
    × ((answers : List Msg) × (p.1.buf ≡ push_all c.buf (ms ++ answers))
        × (p.1.qsz ≡ length (ms ++ answers))
        × Own c.state.my_id answers)
    × ((kept : List Msg) × (contents p.1.buf ≡ contents c.buf ++ (ms ++ kept)))
    × ((j : ℕ) → j < c.state.n_peers → flag_at p.1.state j ≡ is_asked (edge_at p.1.state j))

module _ (c : Ctx) (w : WellFormed c.state) (v : IsValid c.buf)
    (room : size c.buf + length (asked c.state) ≤ c.buf.capacity) where
  abbrev after_answers : Ctx
  after_answers = (answered_from (moved_to c (asked c.state))).1

  shown :
      Shows
        (await_all c.state (asked c.state)).waiting_for_response
        c.state.outgoing_edges
        after_answers.state
  shown =
      (check_new_level-Keeping (Shows-ClosedByAnswers _ _)).kept
        (record (moved_to c (asked c.state)) { qsz = 0 })
        (record { same_flags = refl; same_edges = await_all-edges c.state (asked c.state) })

  ready : Ready c.state.my_id (moved_to c (asked c.state))
  ready = record {
    of_agent = (await_all-Keeps c.state (asked c.state)).same_id;
    queue = push_all-IsValid c.buf (asked c.state) v;
  }

  search_from-Asks :
      (length (asked c.state) == 0 && delayed_count c.state == 0) ≡ false
      → ((j : ℕ) → j < c.state.n_peers → flag_at c.state j ≡ false)
      → Asks c (asked c.state) (search_from c)
  search_from-Asks some_work idle =
      let ms = asked c.state in
      let (answers, g, t) = check_new_level-Sums (moved_to c ms) ready in
      let total =
        subst (λ r. Sum r 0 after_answers.qsz (length answers))
          (check_new_level-done (record (moved_to c ms) { qsz = 0 })) t in
      let (kept, appended) = contents-push_all_first c.buf ms answers v room in
      rw (search_from_lem c w v room some_work) (
        refl,
        (
          answers,
          g.pushed ∙ sym (push_all-append c.buf ms answers),
          omega (arith, total, length-append ms answers),
          g.own,
        ),
        (kept, ap (λ b. contents b) (g.pushed ∙ sym (push_all-append c.buf ms answers)) ∙ appended),
        λ j b.
            ap (λ bs. get_or bs j false) shown.same_flags
            ∙ asked-flag c.state j w b (idle j b)
            ∙ ap (λ es. is_asked (get_or es j worst_edge)) (sym shown.same_edges),
      )

taken_over-Keeps :
    (s : GhsState) (from : Agent) (pld : SrchPayload) → Keeps s (taken_over s from pld)
taken_over-Keeps s from pld =
    let t = (set_parent_id (viewed s pld) from).1 in
    Keeps-trans (Keeps-view s pld.your_leader pld.your_level s.algorithm_converged s.best_edge) (
      Keeps-trans (set_parent_id-Keeps (viewed s pld) from) (
        Keeps-view t t.my_leader t.my_level t.algorithm_converged
          (record worst_edge { root = t.my_id })))

process_srch_lem :
    (from : Agent) (pld : SrchPayload) (c : Ctx)
    → known_sender c.state from ≡ done tt
    → waiting_count c.state ≡ 0
    → (set_parent_id (viewed c.state pld) from).0 ≡ done tt
    → process_srch from pld c ≡ search_from (record c { state = taken_over c.state from pld })
unfolding process_srch steps
process_srch_lem from pld c known idle parent = rw (known, (==_iff _ _).1 idle, parent) refl

-- On a well-formed object and queue, for a sender that is this agent or has an edge, can be made the
-- parent, and finds no answer outstanding: with room in the queue for a SRCH along each child edge and an
-- IN_PART along each UNKNOWN edge, and at least one of them to send or an answer delayed, the call
-- succeeds, appends these messages in this order, pushes answers of this agent behind them, one `push`
-- after another, and counts all of them, also the answers that no room is left for, which are dropped. Awaited
-- are then exactly the peers along MST edges, which lead to children, and UNKNOWN edges: not the parent,
-- whose edge is MST_PARENT, nor a peer behind a deleted edge. The edges are those after the new parent is
-- set.
pub process_srch-Asks :
    (from : Agent) (pld : SrchPayload) (c : Ctx)
    → let s = taken_over c.state from pld in
      WellFormed c.state
      → IsValid c.buf
      → known_sender c.state from ≡ done tt
      → waiting_count c.state ≡ 0
      → (set_parent_id (viewed c.state pld) from).0 ≡ done tt
      → size c.buf + length (asked s) ≤ c.buf.capacity
      → (length (asked s) == 0 && delayed_count s == 0) ≡ false
      → Asks c (asked s) (process_srch from pld c)
process_srch-Asks from pld c w v known idle parent room work =
    let s = taken_over c.state from pld in
    let k = taken_over-Keeps c.state from pld in
    let d = record c { state = s } in
    let (fine, (answers, pushed, total, own), kept, flags) =
      search_from-Asks d (Keeps-WellFormed k w) v room work
        (λ j b. idle_flag s.n_peers s.waiting_for_response j (still_idle k) b) in
    let used : (j : ℕ) → j < c.state.n_peers → j < s.n_peers =
      λ j b. omega (arith, b, k.same_count) in
    rw (process_srch_lem from pld c known idle parent) (
      fine,
      (answers, pushed, total, subst (λ id. Own id answers) k.same_id own),
      kept,
      λ j b. flags j (used j b),
    )
  where
    still_idle :
        Keeps c.state (taken_over c.state from pld)
        → waiting_count (taken_over c.state from pld) ≡ 0
    still_idle k = rw (k.same_count, set_parent_id-SameFlags (viewed c.state pld) from) idle
