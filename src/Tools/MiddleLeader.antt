-- ===== src/Tools/MiddleLeader.antt =====
-- src/tools/middle-leader.cpp: the leader in the middle of a tree. The class `Comms` (comms.hpp, which
-- is not in the repository) is a parameter.
pub mod Ends
pub mod Inside
use distributed_leader_elect.Prelude.{
  ℕ, zero, suc, Bool, true, false, List, [], ◌∷◌, ◌++◌, Option, none, some, length, get_or, set,
  replicate, ltb, ◌==◌, if◌then◌else◌, not, ℤ, pos, negsuc, eqb_ℤ, max_ℤ,
}
use distributed_leader_elect.Tools.{Line}

-- A message; `not_it` says that its type is NOT_IT.
pub record Note : Type 0 where
  pub to : ℤ
  pub from : ℤ
  pub not_it : Bool

-- `Comms`. `get` is called only where a message waits.
pub record CommsApi : Type 1 where
  pub State : Type 0
  pub send : Note → State → State
  pub waiting : State → ℕ
  pub get : State → Note × State

-- `edges[i]`: the node's neighbours, in the order of the lines. A line from a node to itself has none.
unfoldable pub neighbours : ℤ → List Line → List ℤ
neighbours i [] = []
neighbours i (l ∷ ls) =
    (if eqb_ℤ l.from l.to
      then []
      else if eqb_ℤ l.to i
      then l.from ∷ []
      else if eqb_ℤ l.from i
      then l.to ∷ []
      else [])
    ++ neighbours i ls

-- `std::unordered_set<int>`: `insert`, `erase`.
unfoldable pub erase : ℤ → List ℤ → List ℤ
erase a [] = []
erase a (x ∷ xs) = if eqb_ℤ x a then erase a xs else x ∷ erase a xs

unfoldable pub insert : ℤ → List ℤ → List ℤ
unfolding erase
insert a xs = a ∷ erase a xs

unfoldable pub insert_all : List ℤ → List ℤ → List ℤ
unfolding insert
insert_all [] xs = xs
insert_all (a ∷ as') xs = insert_all as' (insert a xs)

-- The index of a node in `not_received`, which has `count` sets: none where the subscript of the
-- vector is out of range, which C++ leaves undefined.
unfoldable pub slot : ℕ → ℤ → Option ℕ
slot count (pos i) = if ltb i count then some i else none
slot count (negsuc _) = none

-- How the loop ends: with a root or with none (-1), by a message of another type, or where it reads
-- past `not_received`.
pub data Outcome : Type 0 where
  rooted : Option ℤ → Outcome
  wrong_type past_the_end : Outcome

module _ (c : CommsApi) where
  open c use {State, send, waiting, get}

  pub record Poll : Type 0 where
    pub box : State
    pub not_received : List (List ℤ)

  -- `not_received[i]`, for an index that is in range.
  abbrev pub unheard : List (List ℤ) → ℕ → List ℤ
  unheard nr i = get_or nr i []

  abbrev pub opt_out : ℕ → ℤ → Poll → Poll
  opt_out node to p = record {
    box = send (record { to = to; from = pos node; not_it = true }) p.box;
    not_received = set p.not_received node (erase to (unheard p.not_received node));
  }

  -- The start of node `i`: a leaf opts out.
  unfoldable pub start_leaf : ℕ → List ℤ → Poll → Poll
  unfolding erase
  start_leaf i (parent ∷ []) p = opt_out i parent p
  start_leaf i _ p = p

  unfoldable pub start_node : List Line → ℕ → Poll → Poll
  unfolding neighbours insert_all start_leaf
  start_node lines i p =
      let near = neighbours (pos i) lines in
      start_leaf i near (record p {
        not_received = set p.not_received i (insert_all near (unheard p.not_received i));
      })

  unfoldable pub start_nodes : List Line → ℕ → ℕ → Poll → Poll
  unfolding start_node
  start_nodes lines zero i p = p
  start_nodes lines (suc k) i p = start_nodes lines k (suc i) (start_node lines i p)

  -- What a node does that has now heard from a sender.
  unfoldable pub heard : ℕ → List ℤ → Poll → Option ℤ × Poll
  unfolding erase
  heard node [] p = (some (pos node), p)
  heard node (stuckee ∷ []) p = (none, opt_out node stuckee p)
  heard node (_ ∷ _ ∷ _) p = (none, p)

  -- The body of the loop, behind the test of the type, for a receiver that is in range.
  unfoldable pub take_note : ℕ → ℤ → Poll → Option ℤ × Poll
  unfolding heard max_ℤ
  take_note node sender p =
      if length (unheard p.not_received node) == 0
      then (some (max_ℤ (pos node) sender), p)
      else (let left = erase sender (unheard p.not_received node) in
          heard node left (record p { not_received = set p.not_received node left }))

  -- The loop, with fuel: `none` means that it ran out.
  unfoldable pub poll : ℕ → Poll → Option Outcome
  unfolding take_note slot
  poll zero p = none
  poll (suc fuel) p =
      if waiting p.box == 0
      then some (rooted none)
      else (let (m, box) = get p.box in
          if not m.not_it then some wrong_type else elim (slot (length p.not_received) m.to) [
            | none ↦ some past_the_end
            | some node ↦
                let (root, q) = take_note node m.from (record p { box = box }) in
                let rest = poll fuel q in
                elim root [ some r ↦ some (rooted (some r)) | none ↦ rest ]
          ])

  -- The part of `main` between the input and the output; `empty` is the new `Comms`.
  unfoldable pub elect : ℕ → State → List Line → Option Outcome
  unfolding poll start_nodes
  elect fuel empty lines = poll fuel (
      start_nodes lines (length lines) 0
        (record { box = empty; not_received = replicate (length lines) [] }))

-- The mark that is printed for node `i`: a leaf, the root, or neither.
unfoldable pub mark_of : List Line → Option ℤ → ℕ → ℕ
unfolding neighbours
mark_of lines root i =
    if length (neighbours (pos i) lines) == 1
    then b'L'
    else elim root [ none ↦ b'T' | some r ↦ if eqb_ℤ r (pos i) then b'R' else b'T' ]
