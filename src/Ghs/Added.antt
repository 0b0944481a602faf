-- ===== src/Ghs/Added.antt =====
-- The constructor: which edges the object has, where all that it is given can be added.
use distributed_leader_elect.Prelude.{
  ℕ, zero, suc, ◌+◌, ◌≤◌, ◌<◌, ◌≡◌, refl, ◌∙◌, ap, sym, List, [], ◌∷◌, ◌++◌, map, true, false,
  Bool-cases, inl, inr, eqb_ℤ, eqb_ℤ_refl, ◌==◌, leb, length, length-append, length-map, length-set,
  get_or, get_or-take, set, take, replicate, length-replicate, if◌then◌else◌, arith,
}
use mathlib.Core.List.{append-nil, append_assoc}
use distributed_leader_elect.Errno.{Errno, no_such_peer}
use distributed_leader_elect.Edge.{Agent, Edge, no_agent, worst_edge, worst_metric, is_valid_edge}
use distributed_leader_elect.Ghs.State.{GhsState, Result, done, fail}
use distributed_leader_elect.Ghs.Peers.{
  construct, reset, allocate, add_edges, add_if_valid, set_edge, append_edge, checked_index_of,
  index_from, get_edge, read_on,
}
use distributed_leader_elect.Ghs.Lookup.{fail_ne_done}

-- The first edge of the list to an agent.
unfoldable pub find_edge : Agent → List Edge → Result Edge
find_edge who [] = fail no_such_peer
find_edge who (e ∷ es) = if eqb_ℤ e.peer who then done e else find_edge who es

abbrev peers_of : List Edge → List Agent
peers_of es = map (λ (e : Edge). e.peer) es

-- The object has these edges, in order, and cells for `max_agents`.
record Holds (s : GhsState) (es : List Edge) : Type 0 where
  count : s.n_peers ≡ length es
  peers_size : length s.peers ≡ s.max_agents
  edges_size : length s.outgoing_edges ≡ s.max_agents
  same_peers : take s.n_peers s.peers ≡ peers_of es
  same_edges : take s.n_peers s.outgoing_edges ≡ es

-- The index that is found is that of the edge.
index_find :
    (who : Agent) (i : ℕ) (es : List Edge) (f : ℕ → Edge)
    → ((j : ℕ) → j < length es → f (i + j) ≡ get_or es j worst_edge)
    → read_on (index_from who i (peers_of es)) f ≡ find_edge who es
unfolding index_from find_edge
index_find who i [] f h = refl
index_find who i (e ∷ es) f h = elim (Bool-cases (eqb_ℤ e.peer who)) [
  | inl y ↦ rw y (ap done (ap f (sym (add_zero i)) ∙ h 0 (omega arith)))
  | inr y ↦
      rw y (index_find who (suc i) es f (λ j b. ap f (add_suc i j) ∙ h (suc j) (omega (arith, b))))
]
  where
    add_zero : (n : ℕ) → n + 0 ≡ n
    add_zero n = omega arith

    add_suc : (n j : ℕ) → suc n + j ≡ n + suc j
    add_suc n j = omega arith

get_or-of-take :
    (n : ℕ) (xs : List Edge) (j : ℕ)
    → j < n
    → get_or (take n xs) j worst_edge ≡ get_or xs j worst_edge
get_or-of-take n xs j b = get_or-take n xs j worst_edge b

zero_plus : (j : ℕ) → 0 + j ≡ j
zero_plus j = omega arith

-- So `get_edge` finds the first edge to another agent.
get_edge-Holds :
    (s : GhsState) (es : List Edge) (who : Agent)
    → Holds s es
    → eqb_ℤ who s.my_id ≡ false
    → get_edge s who ≡ find_edge who es
unfolding get_edge checked_index_of
get_edge-Holds s es who h y =
    rw (y, h.same_peers)
      (index_find who 0 es _ λ j b.
        ap (λ k. get_or s.outgoing_edges k worst_edge) (zero_plus j)
        ∙ sym (get_or-of-take s.n_peers s.outgoing_edges j (omega (arith, b, h.count)))
        ∙ ap (λ xs. get_or xs j worst_edge) h.same_edges)

take-set :
    {A : Type 0} (n : ℕ) (xs : List A) (a : A)
    → n < length xs
    → take (suc n) (set xs n a) ≡ take n xs ++ (a ∷ [])
take-set zero [] a h = absurd (omega arith)
take-set zero (x ∷ xs) a h = refl
take-set (suc n) [] a h = absurd (omega arith)
take-set (suc n) (x ∷ xs) a h = ap (◌∷◌ x) (take-set n xs a (omega arith))

peers_of-append :
    (xs : List Edge) (e : Edge) → peers_of (xs ++ (e ∷ [])) ≡ peers_of xs ++ (e.peer ∷ [])
peers_of-append [] e = refl
peers_of-append (x ∷ xs) e = ap (◌∷◌ x.peer) (peers_of-append xs e)

-- An edge that the constructor adds behind the edges `seen`.
pub record Addable (id : Agent) (seen : List Edge) (e : Edge) : Type 0 where
  pub valid : is_valid_edge e ≡ true
  pub rooted : e.root ≡ id
  pub foreign : eqb_ℤ e.peer id ≡ false
  pub root_set : eqb_ℤ e.root no_agent ≡ false
  pub peer_set : eqb_ℤ e.peer no_agent ≡ false
  pub metric_set : (e.metric_val == worst_metric) ≡ false
  pub unseen : find_edge e.peer seen ≡ fail no_such_peer

abbrev pub AllAddable : Agent → List Edge → List Edge → Type 0
AllAddable id seen [] = Unit {0}
AllAddable id seen (e ∷ es) = Addable id seen e × AllAddable id (seen ++ (e ∷ [])) es

-- No peer is found where no edge is.
lost_index : (r : Result ℕ) (f : ℕ → Edge) → read_on r f ≡ fail no_such_peer → r ≡ fail no_such_peer
lost_index (done i) f h = absurd (fail_ne_done (sym h))
lost_index (fail e) f h = ap fail (fail_inj h)
  where
    fail_inj : {a b : Errno} → ◌≡◌ {A = Result Edge} (fail a) (fail b) → a ≡ b
    fail_inj k = cc

unseen_index :
    (s : GhsState) (seen : List Edge) (who : Agent)
    → Holds s seen
    → eqb_ℤ who s.my_id ≡ false
    → find_edge who seen ≡ fail no_such_peer
    → checked_index_of s who ≡ fail no_such_peer
unfolding get_edge
unseen_index s seen who h y u =
    lost_index (checked_index_of s who) _ (get_edge-Holds s seen who h y ∙ u)

abbrev appended : GhsState → Edge → GhsState
appended s e = record s {
  peers = set s.peers s.n_peers e.peer;
  outgoing_edges = set s.outgoing_edges s.n_peers e;
  n_peers = s.n_peers + 1;
}

add_if_valid-Addable :
    (s : GhsState) (seen : List Edge) (e : Edge)
    → Holds s seen
    → Addable s.my_id seen e
    → length seen < s.max_agents
    → add_if_valid s e ≡ (done tt, appended s e)
unfolding add_if_valid set_edge append_edge
add_if_valid-Addable s seen e h a room =
    let own : eqb_ℤ e.root s.my_id ≡ true =
      ap (λ r. eqb_ℤ r s.my_id) a.rooted ∙ eqb_ℤ_refl s.my_id in
    let free : leb s.max_agents s.n_peers ≡ false = ground (arith, h.count) in
    rw
      (
        a.valid,
        a.root_set,
        a.peer_set,
        a.metric_set,
        own,
        a.foreign,
        unseen_index s seen e.peer h a.foreign a.unseen,
        free,
      )
      refl

appended-Holds :
    (s : GhsState) (seen : List Edge) (e : Edge)
    → Holds s seen
    → length seen < s.max_agents
    → Holds (appended s e) (seen ++ (e ∷ []))
appended-Holds s seen e h room =
    let one_more : s.n_peers + 1 ≡ suc s.n_peers = omega arith in
    record {
      count = omega (arith, h.count, length-append seen (e ∷ []));
      peers_size = length-set s.peers s.n_peers e.peer ∙ h.peers_size;
      edges_size = length-set s.outgoing_edges s.n_peers e ∙ h.edges_size;
      same_peers =
          ap (λ n. take n (set s.peers s.n_peers e.peer)) one_more
          ∙ take-set s.n_peers s.peers e.peer (omega (arith, h.count, h.peers_size))
          ∙ ap (λ ps. ps ++ (e.peer ∷ [])) h.same_peers
          ∙ sym (peers_of-append seen e);
      same_edges =
          ap (λ n. take n (set s.outgoing_edges s.n_peers e)) one_more
          ∙ take-set s.n_peers s.outgoing_edges e (omega (arith, h.count, h.edges_size))
          ∙ ap (λ es. es ++ (e ∷ [])) h.same_edges;
    }

-- All of them are added, in order.
add_edges-Holds :
    (s : GhsState) (seen es : List Edge)
    → Holds s seen
    → AllAddable s.my_id seen es
    → length seen + length es ≤ s.max_agents
    → Holds (add_edges s es) (seen ++ es) × ((add_edges s es).my_id ≡ s.my_id)
unfolding add_edges
add_edges-Holds s seen [] h a room = (rw (append-nil seen) h, refl)
add_edges-Holds s seen (e ∷ es) h a room =
    let below : length seen < s.max_agents = omega (arith, room) in
    let (rest, id) =
      add_edges-Holds (appended s e) (seen ++ (e ∷ [])) es (appended-Holds s seen e h below) (a.1)
        (omega (arith, room, length-append seen (e ∷ []))) in
    rw (add_if_valid-Addable s seen e h a.0 below) (rw (← append_assoc seen (e ∷ []) es) rest, id)

reset-Holds : (n : ℕ) (id : Agent) → Holds (reset (allocate n id)) []
unfolding reset
reset-Holds n id = record {
  count = refl;
  peers_size = length-replicate n no_agent;
  edges_size = length-map _ (replicate n worst_edge) ∙ length-replicate n worst_edge;
  same_peers = refl;
  same_edges = refl;
}

-- What the constructor builds from edges that can all be added finds each of them.
pub construct-finds :
    (n : ℕ) (id : Agent) (es : List Edge) (who : Agent)
    → AllAddable id [] es
    → length es ≤ n
    → eqb_ℤ who id ≡ false
    → get_edge (construct n id es) who ≡ find_edge who es
unfolding construct
construct-finds n id es who a room y =
    let (h, same) =
      add_edges-Holds (reset (allocate n id)) [] es (reset-Holds n id) (unfold reset in a)
        (unfold reset in omega (arith, room)) in
    get_edge-Holds (add_edges (reset (allocate n id)) es) es who h
      (ap (eqb_ℤ who) (same ∙ unfold reset in refl) ∙ y)
