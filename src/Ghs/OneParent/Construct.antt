-- ===== src/Ghs/OneParent/Construct.antt =====
-- The constructor marks no parent, if none of its edges is marked.
use distributed_leader_elect.Prelude.{
  ℕ, zero, suc, ◌+◌, ◌≤◌, ◌≡◌, refl, List, [], ◌∷◌, false, not, inl, inr, take, update, set, eqb_ℤ,
  if_post, ◌||◌, ◌==◌, leb, arith,
}
use mathlib.Core.Path.{subst}
use distributed_leader_elect.Errno.{is_no_such_peer}
use distributed_leader_elect.Edge.{
  Agent, Edge, mst_parent, eqb_status, worst_metric, no_agent, is_valid_edge,
}
use distributed_leader_elect.Ghs.State.{GhsState, Result}
use distributed_leader_elect.Ghs.Peers.{
  checked_index_of, append_edge, set_edge, add_if_valid, stops, add_edges, reset, allocate,
  construct,
}
use distributed_leader_elect.Ghs.Lookup.{Result-cases}
use distributed_leader_elect.Ghs.Casts.Addressed.{edges_in_use}
use distributed_leader_elect.Ghs.OneParent.{count_parents, weight, OneParent}

-- No edge of a list is marked as the parent's.
abbrev pub Unmarked : List Edge → Type 0
Unmarked [] = Unit {0}
Unmarked (e ∷ es) = (eqb_status e.status mst_parent ≡ false) × Unmarked es

count_parents-set :
    (n : ℕ) (es : List Edge) (e : Edge)
    → count_parents (take (suc n) (set es n e)) ≤ count_parents (take n es) + weight e.status
unfolding count_parents
count_parents-set n [] e = omega arith
count_parents-set zero (o ∷ es) e = omega arith
count_parents-set (suc n) (o ∷ es) e = omega (arith, count_parents-set n es e)

count_parents-rate :
    (n : ℕ) (es : List Edge) (idx : ℕ) (e : Edge)
    → count_parents
        (take n (update es idx (λ o. record o { metric_val = e.metric_val; status = e.status })))
      ≤ count_parents (take n es) + weight e.status
unfolding count_parents
count_parents-rate zero es idx e = omega arith
count_parents-rate (suc n) [] idx e = omega arith
count_parents-rate (suc n) (o ∷ es) zero e = omega arith
count_parents-rate (suc n) (o ∷ es) (suc idx) e = omega (arith, count_parents-rate n es idx e)

-- The new count is at most the old one and one more for a marked edge.
abbrev Raised : GhsState → Edge → Result (Unit {0}) × GhsState → Type 0
Raised s e p = count_parents (edges_in_use p.1) ≤ count_parents (edges_in_use s) + weight e.status

append_edge-Raised : (s : GhsState) (e : Edge) → Raised s e (append_edge s e)
unfolding append_edge
append_edge-Raised s e = if_post (Raised s e) (leb s.max_agents s.n_peers) (omega arith) (
    subst
      (λ k.
        count_parents (take k (set s.outgoing_edges s.n_peers e))
        ≤ count_parents (edges_in_use s) + weight e.status)
      (next s.n_peers) (count_parents-set s.n_peers s.outgoing_edges e))
  where
    next : (n : ℕ) → suc n ≡ n + 1
    next n = omega arith

set_edge-Raised : (s : GhsState) (e : Edge) → Raised s e (set_edge s e)
unfolding set_edge
set_edge-Raised s e =
    if_post (Raised s e) (eqb_ℤ e.root no_agent || eqb_ℤ e.peer no_agent) (omega arith) (
      if_post (Raised s e) (e.metric_val == worst_metric) (omega arith) (
        if_post (Raised s e) (not (eqb_ℤ e.root s.my_id)) (omega arith) (
          if_post (Raised s e) (eqb_ℤ e.peer s.my_id) (omega arith)
            (elim (Result-cases (checked_index_of s e.peer)) [
              | inl (idx, h) ↦ rw h (count_parents-rate s.n_peers s.outgoing_edges idx e)
              | inr (er, h) ↦
                  rw h (
                    if_post (Raised s e) (is_no_such_peer er) (append_edge-Raised s e)
                      (omega arith))
            ]))))

abbrev NoParent : GhsState → Type 0
NoParent s = count_parents (edges_in_use s) ≡ 0

add_if_valid-NoParent :
    (s : GhsState) (e : Edge)
    → eqb_status e.status mst_parent ≡ false
    → NoParent s
    → NoParent (add_if_valid s e).1
unfolding add_if_valid
add_if_valid-NoParent s e m h =
    if_post (λ (p : Result (Unit {0}) × GhsState). NoParent p.1) (is_valid_edge e)
      (ground (arith, set_edge-Raised s e)) h

add_edges-NoParent :
    (s : GhsState) (es : List Edge) → Unmarked es → NoParent s → NoParent (add_edges s es)
unfolding add_edges
add_edges-NoParent s [] u h = h
add_edges-NoParent s (e ∷ es) u h =
    if_post NoParent (stops (add_if_valid s e).0) (add_if_valid-NoParent s e u.0 h)
      (add_edges-NoParent (add_if_valid s e).1 es u.1 (add_if_valid-NoParent s e u.0 h))

pub construct-OneParent :
    (n : ℕ) (my_id : Agent) (edges : List Edge)
    → Unmarked edges
    → OneParent (construct n my_id edges)
unfolding construct reset count_parents
construct-OneParent n my_id edges u =
    omega (arith, add_edges-NoParent (reset (allocate n my_id)) edges u refl)
