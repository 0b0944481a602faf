-- ===== src/Ghs/OneParent.antt =====
-- At most one edge of an agent leads to a parent, so that a convergecast goes to that parent alone.
pub mod Construct
use distributed_leader_elect.Prelude.{
  ℕ, zero, suc, ◌+◌, ◌≤◌, ◌<◌, ◌≡◌, refl, ◌∙◌, ap, List, [], ◌∷◌, Bool, true, false, not,
  Bool-cases, inl, inr, length, take, update, set, get_or, map, eqb_ℤ, eqb_ℤ_refl, if_post,
  if_split, if◌then◌else◌, ◌||◌, ◌==◌, leb, replicate, u32_mod, ◌*◌, arith,
}
use distributed_leader_elect.Edge.{
  Agent, Edge, Status, unknown, mst, mst_parent, deleted, eqb_status, worst_edge, worst_metric,
  no_agent, is_valid_edge,
}
use distributed_leader_elect.Msg.{Msg, MsgType, Payload, msg_typed}
use distributed_leader_elect.Seque.Run.{push_all}
use distributed_leader_elect.Ghs.State.{GhsState, Buf, Result, done, fail}
use distributed_leader_elect.Ghs.Peers.{
  checked_index_of, respond_later, set_parent_id, set_edge_status, set_waiting_for, clear_parents,
  cleared, mark_parent, first_parent, get_parent_id, has_edge, get_edge,
}
use distributed_leader_elect.Ghs.Casts.{mst_convergecast}
use distributed_leader_elect.Ghs.Casts.Addressed.{addressed, edges_in_use, Reached, casts_reach}
use distributed_leader_elect.Ghs.Frame.{write_on-post}
use distributed_leader_elect.Ghs.Invariant.{ClosedByAnswers, Closed}
use distributed_leader_elect.Ghs.WellFormed.{WellFormed, WellFormed-Rooted}

-- How many edges lead to a parent.
unfoldable pub count_parents : List Edge → ℕ
count_parents [] = 0
count_parents (e ∷ es) = (if eqb_status e.status mst_parent then 1 else 0) + count_parents es

abbrev pub OneParent : GhsState → Type 0
OneParent s = count_parents (edges_in_use s) ≤ 1

abbrev pub weight : Status → ℕ
weight st = if eqb_status st mst_parent then 1 else 0

count_parents-update :
    (n : ℕ) (es : List Edge) (idx : ℕ) (st : Status)
    → count_parents (take n (update es idx (λ e. record e { status = st })))
      ≤ count_parents (take n es) + weight st
unfolding count_parents
count_parents-update zero es idx st = omega arith
count_parents-update (suc n) [] idx st = omega arith
count_parents-update (suc n) (e ∷ es) zero st = omega arith
count_parents-update (suc n) (e ∷ es) (suc idx) st = omega (arith, count_parents-update n es idx st)

count_parents-clear_parents :
    (n : ℕ) (es : List Edge) → count_parents (take n (clear_parents n es)) ≡ 0
unfolding count_parents clear_parents
count_parents-clear_parents zero es = refl
count_parents-clear_parents (suc n) [] = refl
count_parents-clear_parents (suc n) (e ∷ es) = ground (arith, count_parents-clear_parents n es)

set_edge_status-count :
    (s : GhsState) (to : Agent) (st : Status)
    → count_parents (edges_in_use (set_edge_status s to st).1)
      ≤ count_parents (edges_in_use s) + weight st
unfolding set_edge_status
set_edge_status-count s to st =
    write_on-post (λ t. count_parents (edges_in_use t) ≤ count_parents (edges_in_use s) + weight st)
      (checked_index_of s to) s _ (omega arith)
      (λ idx. count_parents-update s.n_peers s.outgoing_edges idx st)

abbrev OneParentOf : Result (Unit {0}) × GhsState → Type 0
OneParentOf p = OneParent p.1

cleared_none : (s : GhsState) → count_parents (edges_in_use (cleared s)) ≡ 0
cleared_none s = count_parents-clear_parents s.n_peers s.outgoing_edges

mark_parent-OneParent :
    (s : GhsState) (id : Agent) (r : Result Edge)
    → count_parents (edges_in_use s) ≡ 0
    → OneParent (mark_parent s id r).1
unfolding mark_parent
mark_parent-OneParent s id (fail e) h = omega arith
mark_parent-OneParent s id (done peer) h =
    if_post OneParentOf (eqb_status peer.status mst)
      (omega (arith, set_edge_status-count s id mst_parent)) (omega arith)

set_parent_id-OneParent : (s : GhsState) (id : Agent) → OneParent (set_parent_id s id).1
unfolding set_parent_id
set_parent_id-OneParent s id =
    let none = cleared_none s in
    if_post OneParentOf (eqb_ℤ id s.my_id) (omega arith) (
      if_post OneParentOf (not (has_edge (cleared s) id)) (omega arith)
        (mark_parent-OneParent (cleared s) id (get_edge (cleared s) id) none))

OneParent-ClosedByAnswers : ClosedByAnswers OneParent
unfolding respond_later
OneParent-ClosedByAnswers = record {
  later = λ s from m p. write_on-post OneParent (checked_index_of s from) s _ p (λ idx. p);
  answered = λ s idx p. p;
}

-- No call gives an agent a second parent.
pub OneParent-Closed : Closed OneParent
unfolding set_waiting_for
OneParent-Closed = record {
  by_answers = OneParent-ClosedByAnswers;
  by_view = λ s leader level converged best p. p;
  by_parent = λ s id p. set_parent_id-OneParent s id;
  by_join = λ s to p. omega (arith, set_edge_status-count s to mst);
  by_drop = λ s to p. omega (arith, set_edge_status-count s to deleted);
  by_waiting = λ s who b p. write_on-post OneParent (checked_index_of s who) s _ p (λ idx. p);
}

-- No edge leads to the agent itself.
abbrev Foreign : Agent → List Edge → Type 0
Foreign id [] = Unit {0}
Foreign id (e ∷ es) = (eqb_ℤ e.peer id ≡ false) × Foreign id es

each-Foreign :
    (id : Agent) (n : ℕ) (es : List Edge)
    → ((j : ℕ) → j < n → eqb_ℤ (get_or es j worst_edge).peer id ≡ false)
    → Foreign id (take n es)
each-Foreign id zero es h = tt
each-Foreign id (suc n) [] h = tt
each-Foreign id (suc n) (e ∷ es) h =
    (h 0 (omega arith), each-Foreign id n es (λ j b. h (suc j) (omega arith)))

-- The message to the parent, if there is one.
abbrev pub to_parent : Agent → Agent → MsgType → Payload → List Msg
to_parent parent id t d = if eqb_ℤ parent id then [] else msg_typed parent id t d ∷ []

addressed-none :
    (id : Agent) (t : MsgType) (d : Payload) (es : List Edge)
    → count_parents es ≡ 0
    → addressed id mst_parent t d es ≡ []
unfolding addressed count_parents
addressed-none id t d [] h = refl
addressed-none id t d (e ∷ es) h = ground (arith, addressed-none id t d es)

addressed-to_parent :
    (id : Agent) (t : MsgType) (d : Payload) (es : List Edge)
    → Foreign id es
    → count_parents es ≤ 1
    → addressed id mst_parent t d es ≡ to_parent (first_parent id es) id t d
unfolding addressed count_parents first_parent
addressed-to_parent id t d [] f h = rw (eqb_ℤ_refl id) refl
addressed-to_parent id t d (e ∷ es) f h = elim (Bool-cases (eqb_status e.status mst_parent)) [
  | inl y ↦ rw (y, f.0, addressed-none id t d es (ground arith)) refl
  | inr y ↦ rw y (addressed-to_parent id t d es f.1 (ground arith))
]

-- On a well-formed object with at most one parent, a convergecast sends one message to the parent, and
-- none if there is no parent.
pub mst_convergecast_lem :
    (s : GhsState) (t : MsgType) (d : Payload) (buf : Buf)
    → WellFormed s
    → OneParent s
    → let up = to_parent (get_parent_id s) s.my_id t d in
      mst_convergecast s t d buf ≡ (done (length up), push_all buf up)
unfolding get_parent_id
mst_convergecast_lem s t d buf w one =
    let (_, _, all) = casts_reach s unknown t d buf (WellFormed-Rooted s w) in
    let foreign =
      each-Foreign s.my_id s.n_peers s.outgoing_edges λ j b. rw (w.matched j b) (w.foreign j b) in
    all
    ∙ ap (λ (up : List Msg). (done (length up), push_all buf up))
        (addressed-to_parent s.my_id t d (edges_in_use s) foreign one)
