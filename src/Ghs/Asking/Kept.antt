-- ===== src/Ghs/Asking/Kept.antt =====
-- Flags and edges: what the steps of a search leave alone.
use distributed_leader_elect.Prelude.{
  ℕ, zero, suc, ◌<◌, ◌≡◌, refl, ◌∙◌, List, [], ◌∷◌, Bool, true, false, if_post, not, get_or, take,
  eqb_ℤ, arith,
}
use distributed_leader_elect.Edge.{Agent, Edge, mst, eqb_status}
use distributed_leader_elect.Msg.{Msg}
use distributed_leader_elect.Ghs.State.{GhsState, Result, done, fail}
use distributed_leader_elect.Ghs.Peers.{
  respond_later, has_edge, get_edge, cleared, mark_parent, set_edge_status, checked_index_of,
  set_waiting_for, set_parent_id, count_true,
}
use distributed_leader_elect.Ghs.Frame.{
  Keeps, Keeps-refl, Keeps-trans, write_on-post, set_waiting_for-Keeps,
}
use distributed_leader_elect.Ghs.Invariant.{ClosedByAnswers}
use distributed_leader_elect.Ghs.Asking.Flags.{await_all}

-- The object has these flags and edges.
pub record Shows (flags : List Bool) (edges : List Edge) (s : GhsState) : Type 0 where
  pub same_flags : s.waiting_for_response ≡ flags
  pub same_edges : s.outgoing_edges ≡ edges

-- To answer an IN_PART changes neither.
pub Shows-ClosedByAnswers :
    (flags : List Bool) (edges : List Edge) → ClosedByAnswers (Shows flags edges)
unfolding respond_later
Shows-ClosedByAnswers flags edges = record {
  later = λ s from m h.
      write_on-post (Shows flags edges) (checked_index_of s from) s _ h
        (λ idx. record { same_flags = h.same_flags; same_edges = h.same_edges });
  answered = λ s idx h. record { same_flags = h.same_flags; same_edges = h.same_edges };
}

set_waiting_for-edges :
    (s : GhsState) (who : Agent) (b : Bool)
    → (set_waiting_for s who b).1.outgoing_edges ≡ s.outgoing_edges
unfolding set_waiting_for
set_waiting_for-edges s who b =
    write_on-post (λ t. t.outgoing_edges ≡ s.outgoing_edges) (checked_index_of s who) s _ refl
      (λ idx. refl)

pub await_all-edges :
    (s : GhsState) (ms : List Msg) → (await_all s ms).outgoing_edges ≡ s.outgoing_edges
unfolding await_all
await_all-edges s [] = refl
await_all-edges s (m ∷ ms) =
    await_all-edges (set_waiting_for s m.to true).1 ms ∙ set_waiting_for-edges s m.to true

pub await_all-Keeps : (s : GhsState) (ms : List Msg) → Keeps s (await_all s ms)
unfolding await_all
await_all-Keeps s [] = Keeps-refl s
await_all-Keeps s (m ∷ ms) =
    Keeps-trans (set_waiting_for-Keeps s m.to true)
      (await_all-Keeps (set_waiting_for s m.to true).1 ms)

-- Where nobody is waited for, no flag is set.
pub idle_flag :
    (n : ℕ) (bs : List Bool) (j : ℕ)
    → count_true (take n bs) ≡ 0
    → j < n
    → get_or bs j false ≡ false
unfolding count_true
idle_flag zero bs j h b = absurd (omega arith)
idle_flag (suc n) [] j h b = refl
idle_flag (suc n) (true ∷ bs) j h b = absurd (omega arith)
idle_flag (suc n) (false ∷ bs) zero h b = refl
idle_flag (suc n) (false ∷ bs) (suc j) h b = idle_flag n bs j (omega arith) (omega arith)

-- The flags are the same after a new parent is set.
abbrev pub SameFlags : GhsState → Result (Unit {0}) × GhsState → Type 0
SameFlags s p = p.1.waiting_for_response ≡ s.waiting_for_response

pub set_parent_id-SameFlags : (s : GhsState) (id : Agent) → SameFlags s (set_parent_id s id)
unfolding set_parent_id mark_parent set_edge_status
set_parent_id-SameFlags s id =
    if_post (SameFlags s) (eqb_ℤ id s.my_id) refl (
      if_post (SameFlags s) (not (has_edge (cleared s) id)) refl (marked (get_edge (cleared s) id)))
  where
    marked : (r : Result Edge) → SameFlags s (mark_parent (cleared s) id r)
    marked (fail e) = refl
    marked (done peer) =
        if_post (SameFlags s) (eqb_status peer.status mst)
          (write_on-post (λ t. t.waiting_for_response ≡ s.waiting_for_response)
            (checked_index_of (cleared s) id) (cleared s) _ refl (λ idx. refl))
          refl
