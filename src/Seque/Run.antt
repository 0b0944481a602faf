-- ===== src/Seque/Run.antt =====
-- Whole histories of calls on a queue, and batches of pushes.
use mathlib.Core.List.{append-nil, append_assoc}
use distributed_leader_elect.Prelude.{
  ℕ, ◌+◌, ◌≤◌, ◌<◌, ◌≡◌, refl, ◌∙◌, ap, sym, List, [], ◌∷◌, ◌++◌, Option, none, some, length,
  length-append, ◌⊎◌, inl, inr, arith,
}
use distributed_leader_elect.Errno.{Errno, ok}
use distributed_leader_elect.Seque.{StaticQueue, push, pop_item, clear}
use distributed_leader_elect.Seque.Fifo
use distributed_leader_elect.Seque.Inv.{IsValid, push-IsValid, pop-IsValid, clear-IsValid}
use distributed_leader_elect.Seque.Refine.{
  contents, length-contents, push_refines, pop_item_refines,
}

-- The calls that change a queue.
pub data Op (A : Type 0) : Type 0 where
  puts : A → Op A
  gets clears : Op A

module _ {A : Type 0} where
  unfoldable pub run : StaticQueue A → List (Op A) → List (Errno × Option A)
  run q [] = []
  run q (puts x ∷ ops) = let (e, q') = push q x in (e, none) ∷ run q' ops
  run q (gets ∷ ops) = let (e, x, q') = pop_item q in (e, x) ∷ run q' ops
  run q (clears ∷ ops) = let (e, q') = clear q in (e, none) ∷ run q' ops

  -- The same calls on a list of at most `cap` items.
  unfoldable pub run_fifo : ℕ → List A → List (Op A) → List (Errno × Option A)
  run_fifo cap xs [] = []
  run_fifo cap xs (puts x ∷ ops) =
      let (e, xs') = Fifo.push cap xs x in (e, none) ∷ run_fifo cap xs' ops
  run_fifo cap xs (gets ∷ ops) = let (e, x, xs') = Fifo.pop_item xs in (e, x) ∷ run_fifo cap xs' ops
  run_fifo cap xs (clears ∷ ops) = (ok, none) ∷ run_fifo cap [] ops

  pub pop_item-IsValid : (q : StaticQueue A) → IsValid q → IsValid (pop_item q).2
  unfolding pop_item
  pop_item-IsValid q v = ground (arith, pop-IsValid q v)

  -- The pop of a queue whose oldest item is known.
  pub pop_item-cons :
      (q : StaticQueue A) (x : A) (xs : List A)
      → IsValid q
      → contents q ≡ x ∷ xs
      → ((pop_item q).1 ≡ some x) × (contents (pop_item q).2 ≡ xs)
  unfolding Fifo.pop_item
  pop_item-cons q x xs v e = ground (arith, pop_item_refines q v)

  pub pop_item-ok :
      (q : StaticQueue A) (x : A) (xs : List A)
      → IsValid q
      → contents q ≡ x ∷ xs
      → (pop_item q).0 ≡ ok
  unfolding Fifo.pop_item
  pop_item-ok q x xs v e = ground (arith, pop_item_refines q v)

  -- An item that was popped stood in front of the rest.
  pub contents-pop_item :
      (q : StaticQueue A) (x : A)
      → IsValid q
      → (pop_item q).1 ≡ some x
      → contents q ≡ x ∷ contents (pop_item q).2
  unfolding Fifo.pop_item
  contents-pop_item q x v e = popped (contents q) refl
    where
      popped : (xs : List A) → contents q ≡ xs → xs ≡ x ∷ contents (pop_item q).2
      popped [] h = ground (arith, pop_item_refines q v)
      popped (y ∷ ys) h = let (f, r) = pop_item-cons q y ys v h in cc

  pub capacity-push : (q : StaticQueue A) (x : A) → (push q x).1.capacity ≡ q.capacity
  unfolding push
  capacity-push q x = ground arith

  pub capacity-pop_item : (q : StaticQueue A) → (pop_item q).2.capacity ≡ q.capacity
  unfolding pop_item
  capacity-pop_item q = ground arith

  -- No history of pushes, pops and clears tells a valid queue from the bounded list of its items:
  -- every call returns the same code and the same item.
  pub run_refines :
      (ops : List (Op A)) (q : StaticQueue A)
      → IsValid q
      → run q ops ≡ run_fifo q.capacity (contents q) ops
  unfolding run run_fifo clear
  run_refines [] q v = refl
  run_refines (puts x ∷ ops) q v =
      rw (run_refines ops (push q x).1 (push-IsValid q x v), ← push_refines q x v, capacity-push)
  run_refines (gets ∷ ops) q v = rw (
    run_refines ops (pop_item q).2 (pop_item-IsValid q v),
    ← pop_item_refines q v,
    capacity-pop_item,
  )
  run_refines (clears ∷ ops) q v =
      ap (◌∷◌ (ok, none)) (run_refines ops (clear q).1 (clear-IsValid q v))

  -- Pushes in order, their codes dropped, as every caller in ghs_impl.hpp does.
  unfoldable pub push_all : StaticQueue A → List A → StaticQueue A
  push_all q [] = q
  push_all q (x ∷ xs) = push_all (push q x).1 xs

  pub push_all-append :
      (q : StaticQueue A) (xs ys : List A) → push_all q (xs ++ ys) ≡ push_all (push_all q xs) ys
  unfolding push_all
  push_all-append q [] ys = refl
  push_all-append q (x ∷ xs) ys = push_all-append (push q x).1 xs ys

  pub push_all-IsValid : (q : StaticQueue A) (xs : List A) → IsValid q → IsValid (push_all q xs)
  unfolding push_all
  push_all-IsValid q [] v = v
  push_all-IsValid q (x ∷ xs) v = push_all-IsValid (push q x).1 xs (push-IsValid q x v)

  pub capacity-push_all : (q : StaticQueue A) (xs : List A) → (push_all q xs).capacity ≡ q.capacity
  unfolding push_all
  capacity-push_all q [] = refl
  capacity-push_all q (x ∷ xs) = capacity-push_all (push q x).1 xs ∙ capacity-push q x

  pub contents-push :
      (q : StaticQueue A) (x : A)
      → IsValid q
      → q.count < q.capacity
      → contents (push q x).1 ≡ contents q ++ (x ∷ [])
  unfolding Fifo.push
  contents-push q x v h = ground (arith, push_refines q x v, length-contents q v)

  -- A push keeps the items, and adds its own if there is room.
  pub push-cases :
      (q : StaticQueue A) (x : A)
      → IsValid q
      → (contents (push q x).1 ≡ contents q) ⊎ (contents (push q x).1 ≡ contents q ++ (x ∷ []))
  unfolding Fifo.push
  push-cases q x v = ground (arith, push_refines q x v)

  pub count-push :
      (q : StaticQueue A) (x : A)
      → IsValid q
      → q.count < q.capacity
      → (push q x).1.count ≡ q.count + 1
  unfolding push
  count-push q x v h = ground arith

  -- With room for all of them, the items are appended in order.
  pub contents-push_all :
      (q : StaticQueue A) (xs : List A)
      → IsValid q
      → q.count + length xs ≤ q.capacity
      → contents (push_all q xs) ≡ contents q ++ xs
  unfolding push_all
  contents-push_all q [] v h = sym (append-nil (contents q))
  contents-push_all q (x ∷ xs) v h =
      let v' = push-IsValid q x v in
      let room : q.count < q.capacity = omega arith in
      contents-push_all (push q x).1 xs v'
        (ground (arith, count-push q x v room, capacity-push q x))
      ∙ rw (contents-push q x v room) (append_assoc (contents q) (x ∷ []) xs)

  pub count-push_all :
      (q : StaticQueue A) (xs : List A)
      → IsValid q
      → q.count + length xs ≤ q.capacity
      → (push_all q xs).count ≡ q.count + length xs
  count-push_all q xs v h = omega (
    arith,
    length-contents (push_all q xs) (push_all-IsValid q xs v),
    length-contents q v,
    ap length (contents-push_all q xs v h),
    length-append (contents q) xs,
  )

  -- Whatever is pushed, and whatever of it is dropped, the items that were there stay in front.
  pub push_all-keeps :
      (q : StaticQueue A) (xs : List A)
      → IsValid q
      → (kept : List A) × (contents (push_all q xs) ≡ contents q ++ kept)
  unfolding push_all
  push_all-keeps q [] v = ([], sym (append-nil (contents q)))
  push_all-keeps q (x ∷ xs) v =
      let (kept, e) = push_all-keeps (push q x).1 xs (push-IsValid q x v) in
      elim (push-cases q x v) [
        | inl same ↦ (kept, e ∙ ap (λ ys. ys ++ kept) same)
        | inr added ↦
            (x ∷ kept, e ∙ ap (λ ys. ys ++ kept) added ∙ append_assoc (contents q) (x ∷ []) kept)
      ]

  -- With room for the first ones, they are appended, and what is pushed behind them stays behind them.
  pub contents-push_all_first :
      (q : StaticQueue A) (xs ys : List A)
      → IsValid q
      → q.count + length xs ≤ q.capacity
      → (kept : List A) × (contents (push_all q (xs ++ ys)) ≡ contents q ++ (xs ++ kept))
  contents-push_all_first q xs ys v h =
      let (kept, e) = push_all-keeps (push_all q xs) ys (push_all-IsValid q xs v) in
      (
        kept,
        ap (λ p. contents p) (push_all-append q xs ys)
            ∙ e
            ∙ ap (λ zs. zs ++ kept) (contents-push_all q xs v h)
            ∙ append_assoc (contents q) xs kept,
      )
