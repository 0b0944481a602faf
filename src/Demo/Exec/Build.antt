-- ===== src/Demo/Exec/Build.antt =====
-- `initialize_ghs`: the edges of the object that it builds.
use distributed_leader_elect.Prelude.{
  ℕ, zero, suc, ◌+◌, ◌*◌, ◌%◌, ◌^◌, ◌≤◌, ◌<◌, ◌≡◌, ◌≢◌, refl, ◌∙◌, ap, sym, List, [], ◌∷◌, ◌++◌,
  true, false, Bool-cases, if_post, ◌⊎◌, inl, inr, pos, eqb_ℤ, eqb_ℤ_refl, min, ◌==◌, length,
  if◌then◌else◌, arith,
}
use mathlib.Core.Path.{subst}
use distributed_leader_elect.Errno.{no_such_peer}
use distributed_leader_elect.Edge.{
  Edge, no_agent, worst_metric, metric_not_set, is_valid_edge, is_valid_agent, is_valid_metric,
}
use distributed_leader_elect.Ghs.State.{Result, done, fail}
use distributed_leader_elect.Ghs.Peers.{get_edge}
use distributed_leader_elect.Demo.Metric.{larger, ids_part}
use distributed_leader_elect.Demo.Config.{Config, max_n}
use distributed_leader_elect.Demo.Wire.{to_u16}
use distributed_leader_elect.Demo.Comms.{Comms}
use distributed_leader_elect.Demo.Comms.Measure.{kbps_to, unique_link_metric_to}
use distributed_leader_elect.Demo.Exec.{edge_towards, live_edges, initialize_ghs}
use distributed_leader_elect.Ghs.Added.{find_edge, Addable, AllAddable, construct-finds}

-- The edges lead to agents below `j`.
abbrev Below : ℕ → List Edge → Type 0
Below j [] = Unit {0}
Below j (e ∷ es) = ((p : ℕ) × (e.peer ≡ pos p) × (p < j)) × Below j es

Below-more : (j : ℕ) (es : List Edge) → Below j es → Below (suc j) es
Below-more j [] b = tt
Below-more j (e ∷ es) ((p, h, l), b) = ((p, h, omega (arith, l)), Below-more j es b)

Below-append :
    (j : ℕ) (es : List Edge) (e : Edge)
    → Below j es
    → e.peer ≡ pos j
    → Below (suc j) (es ++ (e ∷ []))
Below-append j [] e b h = ((j, h, omega arith), tt)
Below-append j (x ∷ es) e ((p, k, l), b) h = ((p, k, omega (arith, l)), Below-append j es e b h)

pos_ne : (p j : ℕ) → p < j → eqb_ℤ (pos p) (pos j) ≡ false
unfolding eqb_ℤ
pos_ne p j h = ground arith

Below-unseen : (j : ℕ) (es : List Edge) → Below j es → find_edge (pos j) es ≡ fail no_such_peer
unfolding find_edge
Below-unseen j [] b = refl
Below-unseen j (e ∷ es) ((p, h, l), b) =
    rw (ap (λ q. eqb_ℤ q (pos j)) h ∙ pos_ne p j l) (Below-unseen j es b)

ne_test : (m x : ℕ) → m ≢ x → (m == x) ≡ false
ne_test m x h = ground arith

-- A number whose low half has two small ids is neither of the two special metrics.
metric_valid :
    (m l k : ℕ)
    → m % 2 ^ 32 ≡ l * 2 ^ 16 + k
    → 0 < l
    → l < max_n
    → k ≤ l
    → ((m == metric_not_set) ≡ false) × ((m == worst_metric) ≡ false)
metric_valid m l k e h b d = (
  ne_test m metric_not_set (λ z. omega (arith, e, h, z)),
  ne_test m worst_metric (λ z. omega (arith, e, b, d, z)),
)

pos_valid : (j : ℕ) → is_valid_agent (pos j) ≡ true
unfolding is_valid_agent
pos_valid j = ground arith

pos_set : (j : ℕ) → eqb_ℤ (pos j) no_agent ≡ false
unfolding eqb_ℤ
pos_set j = ground arith

pos_apart : (i j : ℕ) → i ≢ j → eqb_ℤ (pos i) (pos j) ≡ false
unfolding eqb_ℤ
pos_apart i j h = ground arith

at_or_above : (j i : ℕ) → j ≤ i → (j ≡ i) ⊎ (suc j ≤ i)
at_or_above j i h = ground arith

false_ne_true : false ≡ true → ⊥
false_ne_true h = cc

-- The edge to an agent whose link is alive.
module _ (quotient : ℕ → ℕ) {F : Type 0} (cfg : Config F) (c : Comms F) where
  abbrev pub Link : ℕ → Result Edge → Type 0
  Link i r =
      r ≡ (if kbps_to c i == 0 then fail no_such_peer else done (edge_towards quotient cfg c i))

module _ (quotient : ℕ → ℕ) {F : Type 0} (cfg : Config F) (c : Comms F) (a : ℕ) (small : a < max_n)
    (my_id : cfg.my_id ≡ pos a) (same : c.ghs_cfg.my_id ≡ pos a) where
  own_id : to_u16 c.ghs_cfg.my_id ≡ a
  own_id = ap to_u16 same ∙ in_u16 a small
    where
      in_u16 : (n : ℕ) → n < max_n → to_u16 (pos n) ≡ n
      in_u16 n h = omega arith

  -- The metric of a link is neither of the two special values.
  metric_low :
      (j : ℕ)
      → j < max_n
      → j ≢ a
      → (unique_link_metric_to quotient c j % 2 ^ 32 ≡ larger j a * 2 ^ 16 + min j a)
        × (0 < larger j a)
        × (larger j a < max_n)
  unfolding unique_link_metric_to
  metric_low j b ne = (
    rw own_id (ids_part quotient j a (kbps_to c j) (omega arith) (omega arith)),
    ground arith,
    ground arith,
  )

  edge_towards-Addable :
      (j : ℕ) (seen : List Edge)
      → j < max_n
      → j ≢ a
      → Below j seen
      → Addable cfg.my_id seen (edge_towards quotient cfg c j)
  unfolding edge_towards is_valid_edge is_valid_metric
  edge_towards-Addable j seen b ne below =
      let (low, some, few) = metric_low j b ne in
      let (set_up, not_worst) =
        metric_valid (unique_link_metric_to quotient c j) (larger j a) (min j a) low some few
          (ground arith) in
      record {
        valid = rw (my_id, pos_valid j, pos_valid a, set_up, not_worst) refl;
        rooted = refl;
        foreign = rw my_id (pos_apart j a ne);
        root_set = rw my_id (pos_set a);
        peer_set = pos_set j;
        metric_set = not_worst;
        unseen = Below-unseen j seen below;
      }

  live_edges-AllAddable :
      (k j : ℕ) (seen : List Edge)
      → Below j seen
      → j + k ≤ max_n
      → AllAddable cfg.my_id seen (live_edges quotient cfg c k j)
  unfolding live_edges
  live_edges-AllAddable zero j seen below b = tt
  live_edges-AllAddable (suc k) j seen below b =
      let skip =
        live_edges-AllAddable k (suc j) seen (Below-more j seen below) (omega (arith, b)) in
      let e = edge_towards quotient cfg c j in
      let more =
        live_edges-AllAddable k (suc j) (seen ++ (e ∷ []))
          (Below-append j seen e below (unfold edge_towards in refl)) (omega (arith, b)) in
      elim (Bool-cases (eqb_ℤ (pos j) cfg.my_id)) [
        | inl own ↦ rw own skip
        | inr other ↦ rw other (elim (Bool-cases (kbps_to c j == 0)) [
          | inl dead ↦ rw dead skip
          | inr live ↦
              rw live (edge_towards-Addable j seen (omega (arith, b)) (apart j other) below, more)
        ])
      ]
    where
      apart : (j : ℕ) → eqb_ℤ (pos j) cfg.my_id ≡ false → j ≢ a
      apart j h e = false_ne_true (
          sym h
          ∙ ap (eqb_ℤ (pos j)) my_id
          ∙ ap (λ n. eqb_ℤ (pos j) (pos n)) (sym e)
          ∙ eqb_ℤ_refl (pos j))

  live_edges-short : (k j : ℕ) → length (live_edges quotient cfg c k j) ≤ k
  unfolding live_edges
  live_edges-short zero j = omega arith
  live_edges-short (suc k) j =
      let rest = live_edges-short k (suc j) in
      if_post (λ (es : List Edge). length es ≤ suc k) (eqb_ℤ (pos j) cfg.my_id)
        (omega (arith, rest))
        (if_post (λ (es : List Edge). length es ≤ suc k) (kbps_to c j == 0) (omega (arith, rest))
          (omega (arith, rest)))

  -- No edge to an agent that the loop has passed.
  find-passed :
      (k j i : ℕ) → i < j → find_edge (pos i) (live_edges quotient cfg c k j) ≡ fail no_such_peer
  unfolding live_edges find_edge edge_towards
  find-passed zero j i h = refl
  find-passed (suc k) j i h =
      let rest = find-passed k (suc j) i (omega (arith, h)) in
      let other = pos_apart j i (λ e. omega (arith, h, e)) in
      if_post (λ (es : List Edge). find_edge (pos i) es ≡ fail no_such_peer)
        (eqb_ℤ (pos j) cfg.my_id) rest
        (if_post (λ (es : List Edge). find_edge (pos i) es ≡ fail no_such_peer) (kbps_to c j == 0)
          rest (rw other rest))

  find-here :
      (k i : ℕ)
      → i ≢ a
      → Link quotient cfg c i (find_edge (pos i) (live_edges quotient cfg c (suc k) i))
  unfolding live_edges find_edge
  find-here k i ne =
      let rest = find-passed k (suc i) i (omega arith) in
      let found : eqb_ℤ (edge_towards quotient cfg c i).peer (pos i) ≡ true =
        unfold edge_towards in eqb_ℤ_refl (pos i) in
      let other : eqb_ℤ (pos i) cfg.my_id ≡ false = rw my_id (pos_apart i a ne) in
      rw other (elim (Bool-cases (kbps_to c i == 0)) [
        | inl dead ↦ rw dead rest
        | inr live ↦ rw (live, found) refl
      ])

  find-later :
      (k j i : ℕ)
      → j ≤ i
      → i < j + k
      → i ≢ a
      → Link quotient cfg c i (find_edge (pos i) (live_edges quotient cfg c k j))
  unfolding live_edges find_edge edge_towards
  find-later zero j i h b ne = absurd (omega (arith, h, b))
  find-later (suc k) j i h b ne = elim (at_or_above j i h) [
    | inl here ↦
        subst (λ n. Link quotient cfg c i (find_edge (pos i) (live_edges quotient cfg c (suc k) n)))
          (sym here) (find-here k i ne)
    | inr above ↦
        let rest = find-later k (suc j) i above (omega (arith, b)) ne in
        let other = pos_apart j i (λ e. omega (arith, above, e)) in
        if_post (λ (es : List Edge). Link quotient cfg c i (find_edge (pos i) es))
          (eqb_ℤ (pos j) cfg.my_id) rest
          (if_post (λ (es : List Edge). Link quotient cfg c i (find_edge (pos i) es))
            (kbps_to c j == 0) rest (rw other rest))
  ]

  -- With at most 8 agents and an own id below 8, which is the same in the configuration and in the
  -- communication: the object has an edge to another agent exactly if the throughput to it is not 0, and
  -- this is the UNKNOWN edge from the agent itself with the link's metric; if the throughput is 0, the
  -- lookup fails with NO_SUCH_PEER.
  pub initialize_ghs-Link :
      (i : ℕ)
      → cfg.n_agents ≤ max_n
      → i < cfg.n_agents
      → i ≢ a
      → Link quotient cfg c i (get_edge (initialize_ghs quotient cfg c) (pos i))
  unfolding initialize_ghs
  initialize_ghs-Link i few b ne =
      construct-finds max_n cfg.my_id (live_edges quotient cfg c cfg.n_agents 0) (pos i)
        (live_edges-AllAddable cfg.n_agents 0 [] tt (omega (arith, few)))
        (omega (arith, live_edges-short cfg.n_agents 0, few)) (rw my_id (pos_apart i a ne))
      ∙ find-later cfg.n_agents 0 i (omega arith) (omega (arith, b)) ne
