-- ===== src/Ghs/Parents.antt =====
-- `set_parent_id` and `get_parent_id`: what is set is found again.
use distributed_leader_elect.Prelude.{
  ℕ, zero, suc, ◌<◌, ◌≡◌, refl, ◌∙◌, sym, List, [], ◌∷◌, Bool-cases, inl, inr, length, get_or,
  update, take, eqb_ℤ, eqb_ℤ-sound, arith,
}
use distributed_leader_elect.Edge.{Agent, Edge, mst_parent, eqb_status, worst_edge}
use distributed_leader_elect.Ghs.State.{GhsState, done}
use distributed_leader_elect.Ghs.Peers.{
  clear_parents, cleared, first_parent, get_parent_id, set_parent_id, mark_parent, set_edge_status,
  has_edge, get_edge, checked_index_of,
}
use distributed_leader_elect.Ghs.Lookup.{Result-cases, checked_index_of-found}
use distributed_leader_elect.Ghs.WellFormed.{WellFormed}

-- No parent is left after the first loop.
first_parent-clear_parents :
    (id : Agent) (n : ℕ) (es : List Edge) → first_parent id (take n (clear_parents n es)) ≡ id
unfolding first_parent clear_parents
first_parent-clear_parents id zero es = refl
first_parent-clear_parents id (suc n) [] = refl
first_parent-clear_parents id (suc n) (e ∷ es) =
    elim (Bool-cases (eqb_status e.status mst_parent)) [
      | inl y ↦ rw y (first_parent-clear_parents id n es)
      | inr y ↦ rw y (rw y (first_parent-clear_parents id n es))
    ]

abbrev marked : Edge → Edge
marked e = record e { status = mst_parent }

-- The one edge that is marked then is the one that is found.
first_parent-update :
    (id : Agent) (n : ℕ) (es : List Edge) (idx : ℕ)
    → idx < n
    → idx < length es
    → first_parent id (take n (update (clear_parents n es) idx marked))
      ≡ (get_or es idx worst_edge).peer
unfolding first_parent clear_parents
first_parent-update id zero es idx h l = absurd (omega arith)
first_parent-update id (suc n) [] idx h l = absurd (omega arith)
first_parent-update id (suc n) (e ∷ es) zero h l =
    elim (Bool-cases (eqb_status e.status mst_parent)) [ inl y ↦ rw y refl | inr y ↦ rw y refl ]
first_parent-update id (suc n) (e ∷ es) (suc idx) h l =
    elim (Bool-cases (eqb_status e.status mst_parent)) [
      | inl y ↦ rw y (first_parent-update id n es idx (omega arith) (omega arith))
      | inr y ↦ rw y (rw y (first_parent-update id n es idx (omega arith) (omega arith)))
    ]

found_parent :
    (s : GhsState) (id : Agent) (idx : ℕ)
    → WellFormed s
    → checked_index_of s id ≡ done idx
    → first_parent s.my_id
        (take s.n_peers (update (clear_parents s.n_peers s.outgoing_edges) idx marked))
      ≡ id
found_parent s id idx w h =
    let (used, inside, holds, other) = checked_index_of-found s id idx h in
    first_parent-update s.my_id s.n_peers s.outgoing_edges idx used
      (omega (arith, w.peers_size, w.edges_size))
    ∙ w.matched idx used
    ∙ holds

cleared_index :
    (s : GhsState) (id : Agent) → checked_index_of (cleared s) id ≡ checked_index_of s id
unfolding checked_index_of
cleared_index s id = refl

-- Where `set_parent_id` succeeds on a well-formed object, `get_parent_id` returns the id that was set,
-- be it a peer's or the agent's own: no earlier parent is left.
pub get_parent_id-set_parent_id :
    (s : GhsState) (id : Agent)
    → WellFormed s
    → (set_parent_id s id).0 ≡ done tt
    → get_parent_id (set_parent_id s id).1 ≡ id
unfolding get_parent_id set_parent_id mark_parent set_edge_status has_edge get_edge
get_parent_id-set_parent_id s id w ok = elim (Bool-cases (eqb_ℤ id s.my_id)) [
  | inl y ↦ rw y (
      first_parent-clear_parents s.my_id s.n_peers s.outgoing_edges
      ∙ sym (eqb_ℤ-sound id s.my_id y))
  | inr y ↦ elim (Result-cases (checked_index_of s id)) [
    | inl (idx, h) ↦ ground (arith, cleared_index s id, found_parent s id idx w h)
    | inr (e, h) ↦ ground (arith, cleared_index s id)
  ]
]
