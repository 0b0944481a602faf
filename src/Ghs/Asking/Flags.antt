-- ===== src/Ghs/Asking/Flags.antt =====
-- The waiting flags that the loop over the cached messages sets.
use distributed_leader_elect.Prelude.{
  ℕ, zero, suc, ◌<◌, ◌≡◌, ◌≢◌, refl, ◌∙◌, sym, ap, ◌⊎◌, inl, inr, List, [], ◌∷◌, ◌++◌, Bool, true,
  false, ◌||◌, Bool-cases, length, get_or, get_or-set_self, get_or-set_ne, get_or-take, length-take,
  eqb_ℤ, eqb_ℤ_sym, eqb_ℤ_refl, eqb_ℤ-sound, arith,
}
use distributed_leader_elect.Errno.{Errno}
use distributed_leader_elect.Edge.{Agent, Edge, Status, eqb_status, worst_edge}
use distributed_leader_elect.Msg.{Msg, MsgType, Payload}
use distributed_leader_elect.Ghs.State.{GhsState, fail}
use distributed_leader_elect.Ghs.Peers.{checked_index_of, set_waiting_for}
use distributed_leader_elect.Ghs.Lookup.{
  Result-cases, checked_index_of-found, checked_index_of-absent,
}
use distributed_leader_elect.Ghs.Frame.{set_waiting_for-Keeps}
use distributed_leader_elect.Ghs.Casts.Addressed.{addressed, edges_in_use}
use distributed_leader_elect.Ghs.WellFormed.{
  WellFormed, peer_kept, Keeps-WellFormed, peer_at, edge_at,
}

abbrev pub flag_at : GhsState → ℕ → Bool
flag_at s j = get_or s.waiting_for_response j false

-- The object after the flags of all receivers are set.
unfoldable pub await_all : GhsState → List Msg → GhsState
await_all s [] = s
await_all s (m ∷ ms) = await_all (set_waiting_for s m.to true).1 ms

-- Some message goes to the agent.
unfoldable pub mentions : Agent → List Msg → Bool
mentions p [] = false
mentions p (m ∷ ms) = eqb_ℤ m.to p || mentions p ms

or_assoc : (a b c : Bool) → ((a || b) || c) ≡ (a || (b || c))
or_assoc true b c = refl
or_assoc false b c = refl

or_false : (a : Bool) → (a || false) ≡ a
or_false true = refl
or_false false = refl

or_true : (a : Bool) → (a || true) ≡ true
or_true true = refl
or_true false = refl

pub mentions-append :
    (p : Agent) (xs ys : List Msg) → mentions p (xs ++ ys) ≡ (mentions p xs || mentions p ys)
unfolding mentions
mentions-append p [] ys = refl
mentions-append p (x ∷ xs) ys =
    ap (◌||◌ (eqb_ℤ x.to p)) (mentions-append p xs ys)
    ∙ sym (or_assoc (eqb_ℤ x.to p) (mentions p xs) (mentions p ys))

ne_cases : (i j : ℕ) → (i ≡ j) ⊎ ((i < j) ⊎ (j < i))
ne_cases i j = ground arith

-- Different cells hold different peers.
distinct_cells :
    (s : GhsState) (i j : ℕ)
    → WellFormed s
    → i < s.n_peers
    → j < s.n_peers
    → i ≢ j
    → eqb_ℤ (peer_at s i) (peer_at s j) ≡ false
distinct_cells s i j w a b ne = elim (ne_cases i j) [
  | inl same ↦ absurd (ne same)
  | inr (inl less) ↦ w.distinct i j less b
  | inr (inr more) ↦ eqb_ℤ_sym (peer_at s i) (peer_at s j) ∙ w.distinct j i more a
]

-- One flag after the flag of `to` is set.
set_waiting_for-flag :
    (s : GhsState) (to : Agent) (j : ℕ)
    → WellFormed s
    → j < s.n_peers
    → flag_at (set_waiting_for s to true).1 j ≡ (flag_at s j || eqb_ℤ to (peer_at s j))
unfolding set_waiting_for
set_waiting_for-flag s to j w b = elim (Result-cases (checked_index_of s to)) [
  | inl (idx, h) ↦
      let (used, inside, holds, _) = checked_index_of-found s to idx h in
      elim (ne_cases idx j) [
        | inl same ↦
            rw (h, same, ← holds, same, eqb_ℤ_refl (peer_at s j), or_true (flag_at s j))
              (get_or-set_self s.waiting_for_response j true false
                (omega (arith, w.waiting_size, w.in_room)))
        | inr other ↦
            rw
              (
                h,
                ← holds,
                distinct_cells s idx j w used b (apart idx j other),
                or_false (flag_at s j),
              )
              (get_or-set_ne s.waiting_for_response idx j true false (apart idx j other))
      ]
  | inr (e, h) ↦ rw (h, absent e h, or_false (flag_at s j)) refl
]
  where
    apart : (a b : ℕ) → (a < b) ⊎ (b < a) → a ≢ b
    apart a b h e = ground arith

    absent : (e : Errno) → checked_index_of s to ≡ fail e → eqb_ℤ to (peer_at s j) ≡ false
    absent e h = elim (Bool-cases (eqb_ℤ to s.my_id)) [
      | inl me ↦
          eqb_ℤ_sym to (peer_at s j)
          ∙ ap (eqb_ℤ (peer_at s j)) (eqb_ℤ-sound to s.my_id me)
          ∙ w.foreign j b
      | inr other ↦
          eqb_ℤ_sym to (peer_at s j)
          ∙ checked_index_of-absent s to e j h other b (omega (arith, w.peers_size, w.in_room))
    ]

-- Who was waited for, and who gets one of the messages: they are waited for then.
pub await_all-flag :
    (s : GhsState) (ms : List Msg) (j : ℕ)
    → WellFormed s
    → j < s.n_peers
    → flag_at (await_all s ms) j ≡ (flag_at s j || mentions (peer_at s j) ms)
unfolding await_all mentions
await_all-flag s [] j w b = sym (or_false (flag_at s j))
await_all-flag s (m ∷ ms) j w b =
    let k = set_waiting_for-Keeps s m.to true in
    let t = (set_waiting_for s m.to true).1 in
    await_all-flag t ms j (Keeps-WellFormed k w) (omega (arith, k.same_count))
    ∙ rw (peer_kept k j, set_waiting_for-flag s m.to j w b)
        (or_assoc (flag_at s j) (eqb_ℤ m.to (peer_at s j)) (mentions (peer_at s j) ms))

-- No edge of the list leads to `p`.
abbrev Avoids : Agent → List Edge → Type 0
Avoids p es = (i : ℕ) → i < length es → eqb_ℤ (get_or es i worst_edge).peer p ≡ false

mentions-none :
    (id p : Agent) (st : Status) (t : MsgType) (d : Payload) (es : List Edge)
    → Avoids p es
    → mentions p (addressed id st t d es) ≡ false
unfolding addressed mentions
mentions-none id p st t d [] h = refl
mentions-none id p st t d (e ∷ es) h =
    let rest = mentions-none id p st t d es (λ i b. h (suc i) (omega arith)) in
    elim (Bool-cases (eqb_status e.status st)) [
      | inl y ↦ rw (y, h 0 (omega arith)) rest
      | inr y ↦ rw y rest
    ]

-- Where one edge alone leads to `p`, its status says whether `p` gets a message.
mentions-addressed :
    (id p : Agent) (st : Status) (t : MsgType) (d : Payload) (es : List Edge) (j : ℕ)
    → j < length es
    → (get_or es j worst_edge).peer ≡ p
    → ((i : ℕ) → i < length es → i ≢ j → eqb_ℤ (get_or es i worst_edge).peer p ≡ false)
    → mentions p (addressed id st t d es) ≡ eqb_status (get_or es j worst_edge).status st
unfolding addressed mentions
mentions-addressed id p st t d [] j b y h = absurd (omega arith)
mentions-addressed id p st t d (e ∷ es) zero b y h =
    let rest = mentions-none id p st t d es (λ i c. h (suc i) (omega arith) (omega arith)) in
    elim (Bool-cases (eqb_status e.status st)) [
      | inl z ↦ rw (z, y, eqb_ℤ_refl p) refl
      | inr z ↦ rw z rest
    ]
mentions-addressed id p st t d (e ∷ es) (suc j) b y h =
    let rest =
      mentions-addressed id p st t d es j (omega arith) y
        (λ i c ne. h (suc i) (omega arith) (omega arith)) in
    elim (Bool-cases (eqb_status e.status st)) [
      | inl z ↦ rw (z, h 0 (omega arith) (omega arith)) rest
      | inr z ↦ rw z rest
    ]

-- A peer gets a message along the edges of a status exactly if its edge has that status.
pub mentions-status :
    (s : GhsState) (st : Status) (t : MsgType) (d : Payload) (j : ℕ)
    → WellFormed s
    → j < s.n_peers
    → mentions (peer_at s j) (addressed s.my_id st t d (edges_in_use s))
      ≡ eqb_status (edge_at s j).status st
mentions-status s st t d j w b =
    mentions-addressed s.my_id (peer_at s j) st t d (edges_in_use s) j (omega (arith, used))
      (ap (λ (e : Edge). e.peer) (cell j b) ∙ w.matched j b)
      (λ i c ne.
        let below : i < s.n_peers = omega (arith, used) in
        ap (λ (e : Edge). eqb_ℤ e.peer (peer_at s j)) (cell i below)
        ∙ ap (λ q. eqb_ℤ q (peer_at s j)) (w.matched i below)
        ∙ distinct_cells s i j w below b ne)
    ∙ ap (λ (e : Edge). eqb_status e.status st) (cell j b)
  where
    used : length (edges_in_use s) ≡ s.n_peers
    used = omega (arith, length-take s.n_peers s.outgoing_edges, w.edges_size, w.in_room)

    cell : (i : ℕ) → i < s.n_peers → get_or (edges_in_use s) i worst_edge ≡ edge_at s i
    cell i h = get_or-take s.n_peers s.outgoing_edges i worst_edge h
