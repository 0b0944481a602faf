-- ===== src/Tools/MiddleLeader/Inside.antt =====
-- The loop of src/tools/middle-leader.cpp ends, and stays inside its vector.
use distributed_leader_elect.Prelude.{
  ℕ, zero, suc, ◌+◌, ◌*◌, ◌<◌, ◌≡◌, ◌≢◌, ◌∙◌, Bool-cases, List, [], ◌∷◌, none, some, length,
  length-set, replicate, length-replicate, get_or, set, ℤ, pos, eqb_ℤ, ◌==◌, inl, inr, arith, true,
  sym,
}
use distributed_leader_elect.Tools.{Line}
use distributed_leader_elect.Tools.MiddleLeader.{
  Note, CommsApi, Poll, Outcome, past_the_end, neighbours, erase, insert_all, slot, unheard,
  opt_out, start_leaf, start_node, start_nodes, heard, take_note, poll, elect,
}
use distributed_leader_elect.Tools.MiddleLeader.Ends.{
  IsQueue, work, note, taken, poll_round, start_nodes-work,
}
use mathlib.Core.Path.{subst}

-- A node that has one of `n` sets.
abbrev pub IsNode : ℕ → ℤ → Type 0
IsNode n a = (i : ℕ) × (a ≡ pos i) × (i < n)

-- Every line names two such nodes.
abbrev pub Within : ℕ → List Line → Type 0
Within n [] = Unit {0}
Within n (l ∷ ls) = IsNode n l.from × IsNode n l.to × Within n ls

abbrev AllNodes : ℕ → List ℤ → Type 0
AllNodes n [] = Unit {0}
AllNodes n (x ∷ xs) = IsNode n x × AllNodes n xs

abbrev AllSets : ℕ → List (List ℤ) → Type 0
AllSets n [] = Unit {0}
AllSets n (xs ∷ nr) = AllNodes n xs × AllSets n nr

slot-IsNode : (n : ℕ) (a : ℤ) → IsNode n a → slot n a ≢ none
unfolding slot
slot-IsNode n a (i, e, b) h = ground (arith, e, b, h)

erase-AllNodes : (n : ℕ) (a : ℤ) (xs : List ℤ) → AllNodes n xs → AllNodes n (erase a xs)
unfolding erase
erase-AllNodes n a [] h = tt
erase-AllNodes n a (x ∷ xs) (b, h) = elim (Bool-cases (eqb_ℤ x a)) [
  | inl y ↦ rw y (erase-AllNodes n a xs h)
  | inr y ↦ rw y (b, erase-AllNodes n a xs h)
]

insert_all-AllNodes :
    (n : ℕ) (xs ys : List ℤ) → AllNodes n xs → AllNodes n ys → AllNodes n (insert_all xs ys)
unfolding insert_all
insert_all-AllNodes n [] ys h k = k
insert_all-AllNodes n (x ∷ xs) ys (b, h) k =
    insert_all-AllNodes n xs (x ∷ erase x ys) h (b, erase-AllNodes n x ys k)

neighbours-AllNodes :
    (n : ℕ) (i : ℤ) (lines : List Line) → Within n lines → AllNodes n (neighbours i lines)
unfolding neighbours
neighbours-AllNodes n i [] w = tt
neighbours-AllNodes n i (l ∷ ls) (a, b, w) = elim (Bool-cases (eqb_ℤ l.from l.to)) [
  | inl loops ↦ rw loops (neighbours-AllNodes n i ls w)
  | inr apart ↦ elim (Bool-cases (eqb_ℤ l.to i)) [
    | inl here ↦ rw (apart, here) (a, neighbours-AllNodes n i ls w)
    | inr other ↦ elim (Bool-cases (eqb_ℤ l.from i)) [
      | inl here ↦ rw (apart, other, here) (b, neighbours-AllNodes n i ls w)
      | inr none_here ↦ rw (apart, other, none_here) (neighbours-AllNodes n i ls w)
    ]
  ]
]

get_or-AllSets : (n : ℕ) (nr : List (List ℤ)) (i : ℕ) → AllSets n nr → AllNodes n (get_or nr i [])
get_or-AllSets n [] i h = tt
get_or-AllSets n (xs ∷ nr) zero (b, h) = b
get_or-AllSets n (xs ∷ nr) (suc i) (b, h) = get_or-AllSets n nr i h

set-AllSets :
    (n : ℕ) (nr : List (List ℤ)) (i : ℕ) (xs : List ℤ)
    → AllSets n nr
    → AllNodes n xs
    → AllSets n (set nr i xs)
set-AllSets n [] i xs h k = tt
set-AllSets n (ys ∷ nr) zero xs (b, h) k = (k, h)
set-AllSets n (ys ∷ nr) (suc i) xs (b, h) k = (b, set-AllSets n nr i xs h k)

replicate-AllSets : (n k : ℕ) → AllSets n (replicate k [])
replicate-AllSets n zero = tt
replicate-AllSets n (suc k) = (tt, replicate-AllSets n k)

module _ {c : CommsApi} (q : IsQueue c) (n : ℕ) where
  -- There are `n` sets, and every node in them, and every receiver of a message, has one.
  record Safe (p : Poll c) : Type 0 where
    size : length p.not_received ≡ n
    sets : AllSets n p.not_received
    mail : (m : Note) → q.Waits m p.box → IsNode n m.to

  -- A set is replaced.
  replaced-Safe :
      (node : ℕ) (xs : List ℤ) (p : Poll c)
      → Safe p
      → AllNodes n xs
      → Safe (record p { not_received = set p.not_received node xs })
  replaced-Safe node xs p s h = record {
    size = length-set p.not_received node xs ∙ s.size;
    sets = set-AllSets n p.not_received node xs s.sets h;
    mail = s.mail;
  }

  opt_out-Safe :
      (node : ℕ) (to : ℤ) (p : Poll c) → Safe p → IsNode n to → Safe (opt_out c node to p)
  opt_out-Safe node to p s b =
      let left : List ℤ = erase to (unheard c p.not_received node) in
      let kept = replaced-Safe node left p s (
        erase-AllNodes n to (unheard c p.not_received node)
          (get_or-AllSets n p.not_received node s.sets)) in
      record {
        size = kept.size;
        sets = kept.sets;
        mail = λ m h. elim (q.sent (record { to = to; from = pos node; not_it = true }) m p.box h) [
          | inl e ↦ subst (λ (x : Note). IsNode n x.to) (sym e) b
          | inr h' ↦ s.mail m h'
        ];
      }

  start_leaf-Safe :
      (i : ℕ) (near : List ℤ) (p : Poll c) → Safe p → AllNodes n near → Safe (start_leaf c i near p)
  unfolding start_leaf
  start_leaf-Safe i [] p s h = s
  start_leaf-Safe i (parent ∷ []) p s (b, h) = opt_out-Safe i parent p s b
  start_leaf-Safe i (_ ∷ _ ∷ _) p s h = s

  start_node-Safe :
      (lines : List Line) (i : ℕ) (p : Poll c)
      → Within n lines
      → Safe p
      → Safe (start_node c lines i p)
  unfolding start_node
  start_node-Safe lines i p w s =
      let near = neighbours (pos i) lines in
      let fine = neighbours-AllNodes n (pos i) lines w in
      let known : List ℤ = insert_all near (unheard c p.not_received i) in
      start_leaf-Safe i near (record p { not_received = set p.not_received i known })
        (replaced-Safe i known p s (
          insert_all-AllNodes n near (unheard c p.not_received i) fine
            (get_or-AllSets n p.not_received i s.sets)))
        fine

  start_nodes-Safe :
      (lines : List Line) (k i : ℕ) (p : Poll c)
      → Within n lines
      → Safe p
      → Safe (start_nodes c lines k i p)
  unfolding start_nodes
  start_nodes-Safe lines zero i p w s = s
  start_nodes-Safe lines (suc k) i p w s =
      start_nodes-Safe lines k (suc i) (start_node c lines i p) w (start_node-Safe lines i p w s)

  heard-Safe :
      (node : ℕ) (left : List ℤ) (p : Poll c)
      → Safe p
      → AllNodes n left
      → Safe (heard c node left p).1
  unfolding heard
  heard-Safe node [] p s h = s
  heard-Safe node (stuckee ∷ []) p s (b, h) = opt_out-Safe node stuckee p s b
  heard-Safe node (_ ∷ _ ∷ _) p s h = s

  take_note-Safe :
      (node : ℕ) (sender : ℤ) (p : Poll c) → Safe p → Safe (take_note c node sender p).1
  unfolding take_note
  take_note-Safe node sender p s = elim (Bool-cases (length (unheard c p.not_received node) == 0)) [
    | inl y ↦ rw y s
    | inr y ↦
        let left : List ℤ = erase sender (unheard c p.not_received node) in
        let fine =
          erase-AllNodes n sender (unheard c p.not_received node)
            (get_or-AllSets n p.not_received node s.sets) in
        rw y (
          heard-Safe node left (record p { not_received = set p.not_received node left })
            (replaced-Safe node left p s fine) fine)
  ]

  taken-Safe : (node : ℕ) (p : Poll c) → Safe p → Safe (taken q node p).1
  taken-Safe node p s =
      take_note-Safe node (note q p).from (record p { box = (c.get p.box).1 })
        (record { size = s.size; sets = s.sets; mail = λ m h. s.mail m (q.left_over m p.box h) })

  -- With enough fuel the loop ends, and not outside the vector.
  poll-Safe :
      (fuel : ℕ) (p : Poll c)
      → Safe p
      → work q p < fuel
      → (o : Outcome) × (poll c fuel p ≡ some o) × (o ≢ past_the_end)
  poll-Safe zero p s h = absurd (omega arith)
  poll-Safe (suc fuel) p s h = elim (poll_round q fuel p) [
    | inl (o, ends, inl other) ↦ (o, ends, other)
    | inl (o, ends, inr (more, outside)) ↦ absurd (
        slot-IsNode n (note q p).to (s.mail (note q p) (q.got p.box more))
          (subst (λ k. slot k (note q p).to ≡ none) s.size outside))
    | inr (node, on, less) ↦
        let (o, ends, other) =
          poll-Safe fuel (taken q node p).1 (taken-Safe node p s) (omega arith) in
        (o, on ∙ ends, other)
  ]

module _ {c : CommsApi} (q : IsQueue c) where
  -- On n lines that name no other nodes than 0 to n - 1: where `send` adds at most its message, `get`
  -- takes away and returns one that was sent, and none waits at the start, the election ends after at
  -- most n * (2 * n + 1) messages, with a root, with no message left, or at a message of another type,
  -- and never looks for a node outside the vector of the sets.
  pub elect_ends :
      (fuel : ℕ) (empty : c.State) (lines : List Line)
      → c.waiting empty ≡ 0
      → Within (length lines) lines
      → length lines * (2 * length lines + 1) < fuel
      → (o : Outcome) × (elect c fuel empty lines ≡ some o) × (o ≢ past_the_end)
  unfolding elect
  elect_ends fuel empty lines e w h =
      let n = length lines in
      let p0 : Poll c = record { box = empty; not_received = replicate n [] } in
      poll-Safe q n fuel (start_nodes c lines n 0 p0)
        (start_nodes-Safe q n lines n 0 p0 w (record {
          size = length-replicate n [];
          sets = replicate-AllSets n n;
          mail = λ m waits. absurd (q.none_waits m empty e waits);
        }))
        (omega (arith, start_nodes-work q empty lines e))
