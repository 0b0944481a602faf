-- ===== src/Tools/MiddleLeader/Ends.antt =====
-- The loop of src/tools/middle-leader.cpp has less to do in every round.
use distributed_leader_elect.Prelude.{
  ℕ, zero, suc, ◌+◌, ◌*◌, ◌≤◌, ◌<◌, ◌≡◌, ◌≢◌, refl, ap, true, false, List, [], ◌∷◌, none, some,
  length, replicate, get_or, set, get_or-set_self, ◌==◌, Bool-cases, inl, inr, arith, Option-cases,
  ◌⊎◌, ℤ, pos, eqb_ℤ_refl, Option,
}
use distributed_leader_elect.Tools.{Line}
use distributed_leader_elect.Tools.MiddleLeader.{
  Note, CommsApi, Poll, Outcome, rooted, wrong_type, past_the_end, slot, erase, heard, take_note,
  poll, neighbours, insert_all, start_leaf, start_node, start_nodes, opt_out, unheard,
}

-- What `Comms` is used for: `send` adds at most one message, and `get` takes one away and returns it.
-- `Waits` tells the messages that were sent and not taken away yet.
pub record IsQueue (c : CommsApi) : Type 1 where
  pub Waits : Note → c.State → Type 0
  pub send_one : (m : Note) (s : c.State) → c.waiting (c.send m s) ≤ c.waiting s + 1
  pub get_one : (s : c.State) → c.waiting s ≢ 0 → c.waiting (c.get s).1 < c.waiting s
  pub none_waits : (m : Note) (s : c.State) → c.waiting s ≡ 0 → ¬ Waits m s
  pub sent : (m n : Note) (s : c.State) → Waits n (c.send m s) → (n ≡ m) ⊎ Waits n s
  pub got : (s : c.State) → c.waiting s ≢ 0 → Waits (c.get s).0 s
  pub left_over : (n : Note) (s : c.State) → Waits n (c.get s).1 → Waits n s

-- The nodes that were not heard from, counted for each node.
abbrev pub total : List (List ℤ) → ℕ
total [] = 0
total (xs ∷ nr) = length xs + total nr

length-erase : (a : ℤ) (xs : List ℤ) → length (erase a xs) ≤ length xs
unfolding erase
length-erase a [] = omega arith
length-erase a (x ∷ xs) = ground (arith, length-erase a xs)

total-set :
    (nr : List (List ℤ)) (i : ℕ) (xs : List ℤ)
    → total (set nr i xs) + length (get_or nr i []) ≤ total nr + length xs
total-set [] i xs = omega arith
total-set (ys ∷ nr) zero xs = omega arith
total-set (ys ∷ nr) (suc i) xs = omega (arith, total-set nr i xs)

inside : (nr : List (List ℤ)) (i : ℕ) → length (get_or nr i []) ≢ 0 → i < length nr
inside [] i h = absurd (h refl)
inside (ys ∷ nr) zero h = omega arith
inside (ys ∷ nr) (suc i) h = omega (arith, inside nr i h)

module _ {c : CommsApi} (q : IsQueue c) where
  abbrev pub work : Poll c → ℕ
  work p = c.waiting p.box + 2 * total p.not_received

  -- A node that opts out adds a message, and is not waited for any more.
  work-opt_out :
      (node : ℕ) (stuckee : ℤ) (p : Poll c)
      → unheard c p.not_received node ≡ stuckee ∷ []
      → work (opt_out c node stuckee p) ≤ work p
  unfolding erase
  work-opt_out node stuckee p h = omega (
    arith,
    q.send_one (record { to = stuckee; from = pos node; not_it = true }) p.box,
    total-set p.not_received node (erase stuckee (unheard c p.not_received node)),
    ap length h,
    ap (λ xs. length (erase stuckee xs)) h,
    erased,
  )
    where
      erased : length (erase stuckee (stuckee ∷ [])) ≡ 0
      erased = rw (eqb_ℤ_refl stuckee) refl

  work-heard :
      (node : ℕ) (left : List ℤ) (p : Poll c)
      → unheard c p.not_received node ≡ left
      → work (heard c node left p).1 ≤ work p
  unfolding heard
  work-heard node [] p h = omega arith
  work-heard node (stuckee ∷ []) p h = work-opt_out node stuckee p h
  work-heard node (a ∷ b ∷ left) p h = omega arith

  work-take_note :
      (node : ℕ) (sender : ℤ) (p : Poll c) → work (take_note c node sender p).1 ≤ work p
  unfolding take_note
  work-take_note node sender p = elim (Bool-cases (length (unheard c p.not_received node) == 0)) [
    | inl y ↦ rw y (omega arith)
    | inr y ↦
        let nr = p.not_received in
        let left : List ℤ = erase sender (unheard c nr node) in
        rw y (
          omega (
            arith,
            work-heard node left (record p { not_received = set nr node left })
                (get_or-set_self nr node left [] (inside nr node (ground arith))),
            total-set nr node left,
            length-erase sender (unheard c nr node),
          ))
  ]

  abbrev pub note : Poll c → Note
  note p = (c.get p.box).0

  -- The object once the receiver has taken the oldest message.
  abbrev pub taken : ℕ → Poll c → Option ℤ × Poll c
  taken node p = take_note c node (note p).from (record p { box = (c.get p.box).1 })

  -- A round that goes on.
  poll_on :
      (fuel node : ℕ) (p : Poll c)
      → (c.waiting p.box == 0) ≡ false
      → (note p).not_it ≡ true
      → slot (length p.not_received) (note p).to ≡ some node
      → (taken node p).0 ≡ none
      → poll c (suc fuel) p ≡ poll c fuel (taken node p).1
  unfolding poll
  poll_on fuel node p more ours there on = ground (arith, more, ours, there, on)

  -- One round: the loop ends, or goes on with less work. It ends outside the vector only where the
  -- oldest message is to a node that has no set.
  pub poll_round :
      (fuel : ℕ) (p : Poll c)
      → ((o : Outcome) × (poll c (suc fuel) p ≡ some o)
          × ((o ≢ past_the_end)
              ⊎ ((c.waiting p.box ≢ 0) × (slot (length p.not_received) (note p).to ≡ none))))
        ⊎ ((node : ℕ) × (poll c (suc fuel) p ≡ poll c fuel (taken node p).1)
            × (work (taken node p).1 < work p))
  unfolding poll
  poll_round fuel p = elim (Bool-cases (c.waiting p.box == 0)) [
    | inl empty ↦ inl (rooted none, rw empty refl, inl (λ h. cc))
    | inr more ↦ elim (Bool-cases (note p).not_it) [
      | inr other ↦ inl (wrong_type, rw (more, other) refl, inl (λ h. cc))
      | inl ours ↦ elim (Option-cases (slot (length p.not_received) (note p).to)) [
        | inl outside ↦
            inl (past_the_end, rw (more, ours, outside) refl, inr (ground (arith, more), outside))
        | inr (node, there) ↦ elim (Option-cases (taken node p).0) [
          | inr (r, found) ↦
              inl (rooted (some r), rw (more, ours, there, found) refl, inl (λ h. cc))
          | inl on ↦ inr (
            node,
            poll_on fuel node p more ours there on,
            omega (
              arith,
              work-take_note node (note p).from (record p { box = (c.get p.box).1 }),
              q.get_one p.box (ground arith),
            ),
          )
        ]
      ]
    ]
  ]

length-insert_all : (xs ys : List ℤ) → length (insert_all xs ys) ≤ length xs + length ys
unfolding insert_all
length-insert_all [] ys = omega arith
length-insert_all (x ∷ xs) ys =
    omega (arith, length-insert_all xs (x ∷ erase x ys), length-erase x ys)

length-neighbours : (i : ℤ) (lines : List Line) → length (neighbours i lines) ≤ length lines
unfolding neighbours
length-neighbours i [] = omega arith
length-neighbours i (l ∷ ls) = ground (arith, length-neighbours i ls)

total-replicate : (n : ℕ) → total (replicate n []) ≡ 0
total-replicate zero = refl
total-replicate (suc n) = omega (arith, total-replicate n)

module _ {c : CommsApi} (q : IsQueue c) where
  -- Where nothing is known of the node, an opt-out adds at most its message.
  opt_out-Adds :
      (node : ℕ) (stuckee : ℤ) (p : Poll c) → work q (opt_out c node stuckee p) ≤ work q p + 1
  opt_out-Adds node stuckee p = omega (
    arith,
    q.send_one (record { to = stuckee; from = pos node; not_it = true }) p.box,
    total-set p.not_received node (erase stuckee (unheard c p.not_received node)),
    length-erase stuckee (unheard c p.not_received node),
  )

  start_leaf-Adds :
      (i : ℕ) (near : List ℤ) (p : Poll c) → work q (start_leaf c i near p) ≤ work q p + 1
  unfolding start_leaf
  start_leaf-Adds i [] p = omega arith
  start_leaf-Adds i (parent ∷ []) p = opt_out-Adds i parent p
  start_leaf-Adds i (a ∷ b ∷ near) p = omega arith

  start_node-Adds :
      (lines : List Line) (i : ℕ) (p : Poll c)
      → work q (start_node c lines i p) ≤ work q p + (2 * length lines + 1)
  unfolding start_node
  start_node-Adds lines i p =
      let near = neighbours (pos i) lines in
      let known : List ℤ = insert_all near (unheard c p.not_received i) in
      omega (
        arith,
        start_leaf-Adds i near (record p { not_received = set p.not_received i known }),
        total-set p.not_received i known,
        length-insert_all near (unheard c p.not_received i),
        length-neighbours (pos i) lines,
      )

  start_nodes-Adds :
      (lines : List Line) (k i : ℕ) (p : Poll c)
      → work q (start_nodes c lines k i p) ≤ work q p + k * (2 * length lines + 1)
  unfolding start_nodes
  start_nodes-Adds lines zero i p = omega arith
  start_nodes-Adds lines (suc k) i p =
      grind (
        arith,
        start_nodes-Adds lines k (suc i) (start_node c lines i p),
        start_node-Adds lines i p,
      )

  pub start_nodes-work :
      (empty : c.State) (lines : List Line)
      → c.waiting empty ≡ 0
      → work q (
          start_nodes c lines
            (length lines)
            0
            (record { box = empty; not_received = replicate (length lines) [] }))
        ≤ length lines * (2 * length lines + 1)
  start_nodes-work empty lines e =
      let p0 : Poll c = record { box = empty; not_received = replicate (length lines) [] } in
      omega (arith, start_nodes-Adds lines (length lines) 0 p0, total-replicate (length lines))
