-- ===== src/Tools/Tests.antt =====
-- src/tools: a path of three nodes, and a random graph of three.
use distributed_leader_elect.Prelude.{
  ◌+◌, ◌≤◌, ◌<◌, ◌≡◌, ◌≢◌, refl, List, [], ◌∷◌, ◌++◌, true, some, length, arith, ◌⊎◌, inl, inr, pos,
  negsuc, eqb_ℤ,
}
use distributed_leader_elect.Tools.{Line}
use distributed_leader_elect.Tools.MiddleLeader.{
  Note, CommsApi, Outcome, rooted, past_the_end, elect, mark_of,
}
use distributed_leader_elect.Tools.MiddleLeader.Ends.{IsQueue}
use distributed_leader_elect.Tools.MiddleLeader.Inside.{Within, elect_ends}
use distributed_leader_elect.Tools.RandomGraph.{line, random_graph}

abbrev first_of : List Note → Note × List Note
first_of [] = (record { to = pos 0; from = pos 0; not_it = true }, [])
first_of (m ∷ ms) = (m, ms)

-- Messages in the order in which they were sent.
abbrev fifo : CommsApi
fifo = record {
  State = List Note;
  send = λ m ms. ms ++ (m ∷ []);
  waiting = λ ms. length ms;
  get = λ ms. first_of ms;
}

sent_one : (m : Note) (ms : List Note) → length (ms ++ (m ∷ [])) ≤ length ms + 1
sent_one m [] = omega arith
sent_one m (n ∷ ms) = omega (arith, sent_one m ms)

taken_one : (ms : List Note) → length ms ≢ 0 → length (first_of ms).1 < length ms
taken_one [] h = absurd (h refl)
taken_one (m ∷ ms) h = omega arith

abbrev Among : Note → List Note → Type 0
Among n [] = ⊥
Among n (m ∷ ms) = (n ≡ m) ⊎ Among n ms

Among-sent : (m n : Note) (ms : List Note) → Among n (ms ++ (m ∷ [])) → (n ≡ m) ⊎ Among n ms
Among-sent m n [] h = h
Among-sent m n (k ∷ ms) (inl e) = inr (inl e)
Among-sent m n (k ∷ ms) (inr h) = elim (Among-sent m n ms h) [ inl e ↦ inl e | inr i ↦ inr (inr i) ]

none-Among : (n : Note) (ms : List Note) → length ms ≡ 0 → ¬ Among n ms
none-Among n [] e h = h
none-Among n (m ∷ ms) e h = absurd (omega (arith, e))

first-Among : (ms : List Note) → length ms ≢ 0 → Among (first_of ms).0 ms
first-Among [] h = absurd (h refl)
first-Among (m ∷ ms) h = inl refl

Among-rest : (n : Note) (ms : List Note) → Among n (first_of ms).1 → Among n ms
Among-rest n [] h = h
Among-rest n (m ∷ ms) h = inr h

fifo-IsQueue : IsQueue fifo
fifo-IsQueue = record {
  Waits = Among;
  send_one = sent_one;
  get_one = taken_one;
  none_waits = none-Among;
  sent = Among-sent;
  got = first-Among;
  left_over = Among-rest;
}

abbrev path : List Line
path =
    record { from = pos 0; to = pos 1; weight = pos 4; mark = b'?' }
    ∷ record { from = pos 1; to = pos 1; weight = pos 0; mark = b'?' }
    ∷ record { from = pos 2; to = pos 1; weight = pos 6; mark = b'?' }
    ∷ []

-- Nodes 1 and 2 opt out to each other, and the larger one is the root; it is a leaf.
larger_of_two : elect fifo 9 [] path ≡ some (rooted (some (pos 2)))
unfolding elect eqb_ℤ
larger_of_two = refl

marks :
    (mark_of path (some (pos 2)) 0 ≡ b'L')
    × (mark_of path (some (pos 2)) 1 ≡ b'T')
    × (mark_of path (some (pos 2)) 2 ≡ b'L')
unfolding mark_of eqb_ℤ
marks = (refl, refl, refl)

-- One line has one set: a node 5 or a node -1 has none.
far_away :
    (elect fifo 9 [] (record { from = pos 0; to = pos 5; weight = pos 1; mark = b'?' } ∷ [])
      ≡ some past_the_end)
    × (elect fifo 9 [] (record { from = pos 0; to = negsuc 0; weight = pos 1; mark = b'?' } ∷ [])
        ≡ some past_the_end)
unfolding elect eqb_ℤ
far_away = (refl, refl)

path-Within : Within 3 path
path-Within = (
  (0, refl, omega arith),
  (1, refl, omega arith),
  (
    (1, refl, omega arith),
    (1, refl, omega arith),
    ((2, refl, omega arith), (1, refl, omega arith), tt),
  ),
)

elect_ends_example : (o : Outcome) × (elect fifo 22 [] path ≡ some o) × (o ≢ past_the_end)
elect_ends_example = elect_ends fifo-IsQueue 22 [] path refl path-Within (omega arith)

three_nodes :
    random_graph (λ n. 150 + n) 3
    ≡ line 0 0 0
      ∷ line 0 1 51
      ∷ line 1 0 51
      ∷ line 0 2 52
      ∷ line 2 0 52
      ∷ line 1 1 0
      ∷ line 1 2 53
      ∷ line 2 1 53
      ∷ line 2 2 0
      ∷ []
unfolding random_graph
three_nodes = refl
