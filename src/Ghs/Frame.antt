-- ===== src/Ghs/Frame.antt =====
-- What no handler changes, and what every handler may do: a relation between the contexts before
-- and after a call, with a rule for each construct of the handlers.
use distributed_leader_elect.Prelude.{
  ℕ, zero, suc, ◌≡◌, refl, ◌∙◌, ap, List, [], ◌∷◌, Bool, true, length, length-set, length-update,
  field-update, get_or, update, set, if◌then◌else◌, eqb_ℤ, Bool-cases, if_post, not, inl, inr,
}
use distributed_leader_elect.Edge.{
  Agent, Level, Edge, Status, mst, mst_parent, eqb_status, worst_edge,
}
use distributed_leader_elect.Msg.{InPartPayload}
use distributed_leader_elect.Ghs.State.{GhsState, Result, done, fail}
use distributed_leader_elect.Ghs.Peers.{
  checked_index_of, set_edge_status, set_waiting_for, respond_later, clear_parents, set_parent_id,
  has_edge, get_edge, write_on, mark_parent, cleared,
}

-- The two objects have the same id, the same peers in the same cells, and edges with the same ends
-- and metrics: only the statuses, the flags and the view of the partition may differ.
pub record Keeps (s t : GhsState) : Type 0 where
  pub same_max : t.max_agents ≡ s.max_agents
  pub same_id : t.my_id ≡ s.my_id
  pub same_count : t.n_peers ≡ s.n_peers
  pub same_peers : t.peers ≡ s.peers
  pub same_waiting_size : length t.waiting_for_response ≡ length s.waiting_for_response
  pub same_edges_size : length t.outgoing_edges ≡ length s.outgoing_edges
  pub same_prompt_size : length t.response_prompt ≡ length s.response_prompt
  pub same_required_size : length t.response_required ≡ length s.response_required
  pub same_root :
      (j : ℕ)
      → (get_or t.outgoing_edges j worst_edge).root ≡ (get_or s.outgoing_edges j worst_edge).root
  pub same_peer :
      (j : ℕ)
      → (get_or t.outgoing_edges j worst_edge).peer ≡ (get_or s.outgoing_edges j worst_edge).peer
  pub same_metric :
      (j : ℕ)
      → (get_or t.outgoing_edges j worst_edge).metric_val
        ≡ (get_or s.outgoing_edges j worst_edge).metric_val

pub Keeps-refl : (s : GhsState) → Keeps s s
Keeps-refl s = record {
  same_max = refl;
  same_id = refl;
  same_count = refl;
  same_peers = refl;
  same_waiting_size = refl;
  same_edges_size = refl;
  same_prompt_size = refl;
  same_required_size = refl;
  same_root = λ j. refl;
  same_peer = λ j. refl;
  same_metric = λ j. refl;
}

pub Keeps-trans : {s t u : GhsState} → Keeps s t → Keeps t u → Keeps s u
Keeps-trans h k = record {
  same_max = k.same_max ∙ h.same_max;
  same_id = k.same_id ∙ h.same_id;
  same_count = k.same_count ∙ h.same_count;
  same_peers = k.same_peers ∙ h.same_peers;
  same_waiting_size = k.same_waiting_size ∙ h.same_waiting_size;
  same_edges_size = k.same_edges_size ∙ h.same_edges_size;
  same_prompt_size = k.same_prompt_size ∙ h.same_prompt_size;
  same_required_size = k.same_required_size ∙ h.same_required_size;
  same_root = λ j. k.same_root j ∙ h.same_root j;
  same_peer = λ j. k.same_peer j ∙ h.same_peer j;
  same_metric = λ j. k.same_metric j ∙ h.same_metric j;
}

-- The setters.
pub write_on-post {ℓ} :
    (P : GhsState → Type ℓ) (r : Result ℕ) (s : GhsState) (f : ℕ → GhsState)
    → P s
    → ((idx : ℕ) → P (f idx))
    → P (write_on r s f).1
write_on-post P (done idx) s f h k = k idx
write_on-post P (fail e) s f h k = h

-- A new view of the partition.
pub Keeps-view :
    (s : GhsState) (leader : Agent) (level : Level) (converged : Bool) (best : Edge)
    → Keeps s (record s {
      my_leader = leader;
      my_level = level;
      algorithm_converged = converged;
      best_edge = best;
    })
Keeps-view s leader level converged best = record {
  same_max = refl;
  same_id = refl;
  same_count = refl;
  same_peers = refl;
  same_waiting_size = refl;
  same_edges_size = refl;
  same_prompt_size = refl;
  same_required_size = refl;
  same_root = λ j. refl;
  same_peer = λ j. refl;
  same_metric = λ j. refl;
}

-- New flags, or new edges with the same ends and metrics.
pub Keeps-flags :
    (s : GhsState) (ws rs : List Bool) (ps : List InPartPayload)
    → length ws ≡ length s.waiting_for_response
    → length rs ≡ length s.response_required
    → length ps ≡ length s.response_prompt
    → Keeps s (record s { waiting_for_response = ws; response_required = rs; response_prompt = ps })
Keeps-flags s ws rs ps hw hr hp = record {
  same_max = refl;
  same_id = refl;
  same_count = refl;
  same_peers = refl;
  same_waiting_size = hw;
  same_edges_size = refl;
  same_prompt_size = hp;
  same_required_size = hr;
  same_root = λ j. refl;
  same_peer = λ j. refl;
  same_metric = λ j. refl;
}

Keeps-edges :
    (s : GhsState) (es : List Edge)
    → length es ≡ length s.outgoing_edges
    → ((B : Type 0) (p : Edge → B)
        → ((e : Edge) (st : Status) → p (record e { status = st }) ≡ p e)
        → (j : ℕ) → p (get_or es j worst_edge) ≡ p (get_or s.outgoing_edges j worst_edge))
    → Keeps s (record s { outgoing_edges = es })
Keeps-edges s es hl hp = record {
  same_max = refl;
  same_id = refl;
  same_count = refl;
  same_peers = refl;
  same_waiting_size = refl;
  same_edges_size = hl;
  same_prompt_size = refl;
  same_required_size = refl;
  same_root = hp _ (λ e. e.root) (λ e st. refl);
  same_peer = hp _ (λ e. e.peer) (λ e st. refl);
  same_metric = hp _ (λ e. e.metric_val) (λ e st. refl);
}

update-Keeps :
    (s : GhsState) (idx : ℕ) (st : Status)
    → Keeps s
        (record s { outgoing_edges = update s.outgoing_edges idx (λ e. record e { status = st }) })
update-Keeps s idx st =
    Keeps-edges s _ (length-update s.outgoing_edges idx _)
      λ B p h j. field-update p _ (λ e. h e st) s.outgoing_edges idx j worst_edge

pub set_edge_status-Keeps :
    (s : GhsState) (to : Agent) (st : Status) → Keeps s (set_edge_status s to st).1
unfolding set_edge_status
set_edge_status-Keeps s to st =
    write_on-post (Keeps s) (checked_index_of s to) s _ (Keeps-refl s)
      (λ idx. update-Keeps s idx st)

pub set_waiting_for-Keeps :
    (s : GhsState) (who : Agent) (b : Bool) → Keeps s (set_waiting_for s who b).1
unfolding set_waiting_for
set_waiting_for-Keeps s who b =
    write_on-post (Keeps s) (checked_index_of s who) s _ (Keeps-refl s) λ idx.
      Keeps-flags s (set s.waiting_for_response idx b) s.response_required s.response_prompt
        (length-set s.waiting_for_response idx b) refl refl

pub respond_later-Keeps :
    (s : GhsState) (from : Agent) (m : InPartPayload) → Keeps s (respond_later s from m).1
unfolding respond_later
respond_later-Keeps s from m =
    write_on-post (Keeps s) (checked_index_of s from) s _ (Keeps-refl s) λ idx.
      Keeps-flags s s.waiting_for_response (set s.response_required idx true)
        (set s.response_prompt idx m) refl (length-set s.response_required idx true)
        (length-set s.response_prompt idx m)

length-clear_parents : (n : ℕ) (es : List Edge) → length (clear_parents n es) ≡ length es
unfolding clear_parents
length-clear_parents n [] = refl
length-clear_parents zero (e ∷ es) = refl
length-clear_parents (suc n) (e ∷ es) = ap suc (length-clear_parents n es)

-- Clearing a parent mark leaves every other field of an edge alone.
field-clear_parents {κ} :
    {B : Type κ} (p : Edge → B)
    → ((e : Edge) → p (record e { status = mst }) ≡ p e)
    → (n : ℕ) (es : List Edge) (j : ℕ)
    → p (get_or (clear_parents n es) j worst_edge) ≡ p (get_or es j worst_edge)
unfolding clear_parents
field-clear_parents p h n [] j = refl
field-clear_parents p h zero (e ∷ es) j = refl
field-clear_parents p h (suc n) (e ∷ es) zero = elim (Bool-cases (eqb_status e.status mst_parent)) [
  | inl t ↦ rw (t, if◌then◌else◌) (h e)
  | inr t ↦ rw (t, if◌then◌else◌) refl
]
field-clear_parents p h (suc n) (e ∷ es) (suc j) = field-clear_parents p h n es j

clear-Keeps :
    (s : GhsState)
    → Keeps s (record s { outgoing_edges = clear_parents s.n_peers s.outgoing_edges })
clear-Keeps s =
    Keeps-edges s _ (length-clear_parents s.n_peers s.outgoing_edges)
      λ B p h j. field-clear_parents p (λ e. h e mst) s.n_peers s.outgoing_edges j

-- The object that a setter returns.
abbrev KeepsBy : GhsState → Result (Unit {0}) × GhsState → Type 0
KeepsBy s p = Keeps s p.1

mark_parent-Keeps : (s : GhsState) (id : Agent) (r : Result Edge) → Keeps s (mark_parent s id r).1
unfolding mark_parent
mark_parent-Keeps s id (fail e) = Keeps-refl s
mark_parent-Keeps s id (done peer) =
    if_post (KeepsBy s) (eqb_status peer.status mst) (set_edge_status-Keeps s id mst_parent)
      (Keeps-refl s)

pub set_parent_id-Keeps : (s : GhsState) (id : Agent) → Keeps s (set_parent_id s id).1
unfolding set_parent_id
set_parent_id-Keeps s id = if_post (KeepsBy s) (eqb_ℤ id s.my_id) (clear-Keeps s) (
    if_post (KeepsBy s) (not (has_edge (cleared s) id)) (clear-Keeps s)
      (Keeps-trans (clear-Keeps s) (mark_parent-Keeps (cleared s) id (get_edge (cleared s) id))))
