-- ===== src/Seque/Refine.antt =====
-- A valid queue behaves as the bounded FIFO of the items that it holds.
use distributed_leader_elect.Prelude.{
  ℕ, ◌+◌, ◌-◌, ◌<◌, ◌≡◌, ◌≢◌, refl, List, [], none, length, get_elem?, get_elem?-beyond, Bool-cases,
  inl, inr, ◌==◌, ltb, arith,
}
use distributed_leader_elect.Errno.{ok, err_queue_empty}
use distributed_leader_elect.Seque.{StaticQueue, advance, make, push, at, pop_item, clear}
use distributed_leader_elect.Seque.Fifo
use distributed_leader_elect.Seque.Inv.{IsValid}
use distributed_leader_elect.Seque.Window.{
  window, length-window, get_elem?-window, window-set, window_of_pos, Reaches,
}

module _ {A : Type 0} where
  -- The items, oldest first.
  abbrev pub contents : StaticQueue A → List A
  contents q = window q.circle_buf q.capacity q.idx_front q.count

  pub length-contents : (q : StaticQueue A) → IsValid q → length (contents q) ≡ q.count
  length-contents q v =
      length-window q.circle_buf q.capacity v.storage v.small q.idx_front q.count v.front_in

  pub contents-make : (blank : A) (n : ℕ) → contents (make blank n) ≡ []
  unfolding make
  contents-make blank n = refl

  pub contents-clear : (q : StaticQueue A) → contents (clear q).1 ≡ []
  unfolding clear
  contents-clear q = refl

  -- `push` answers as the FIFO does, and leaves the queue holding what the FIFO holds.
  pub push_refines :
      (q : StaticQueue A) (x : A)
      → IsValid q
      → let (e, q') = push q x in (e, contents q') ≡ Fifo.push q.capacity (contents q) x
  unfolding push Fifo.push
  push_refines q x v = ground (
    arith,
    length-contents q v,
    window-set q.circle_buf q.capacity v.storage v.small x q.idx_front q.count q.idx_back v.front_in
        v.back_in,
  )

  pop_item-empty : (q : StaticQueue A) → q.count ≡ 0 → pop_item q ≡ (err_queue_empty, none, q)
  unfolding pop_item
  pop_item-empty q e = ground arith

  pop_item-some :
      (q : StaticQueue A)
      → IsValid q
      → 0 < q.count
      → pop_item q ≡ (
        ok,
        get_elem? q.circle_buf q.idx_front,
        record q { count = q.count - 1; idx_front = advance q.capacity q.idx_front },
      )
  unfolding pop_item
  pop_item-some q v h = ground arith

  -- `pop(out)` hands over the oldest item, as the FIFO does.
  pub pop_item_refines :
      (q : StaticQueue A)
      → IsValid q
      → let (e, x, q') = pop_item q in (e, x, contents q') ≡ Fifo.pop_item (contents q)
  unfolding Fifo.pop_item
  pop_item_refines q v = elim (Bool-cases (q.count == 0)) [
    | inl e ↦
        let none_left : q.count ≡ 0 = ground arith in rw (pop_item-empty q none_left, none_left)
    | inr e ↦
        let some_left : 0 < q.count = ground arith in
        let (x, at_front, items) =
          window_of_pos q.circle_buf q.capacity v.storage v.small q.idx_front q.count v.front_in
            some_left in
        rw (pop_item-some q v some_left, items, at_front)
  ]

  reads :
      (q : StaticQueue A) (k : ℕ)
      → IsValid q
      → k < q.count
      → (i : ℕ) → i < q.capacity
      → Reaches q.capacity q.idx_front k i
      → get_elem? (contents q) k ≡ get_elem? q.circle_buf i
  reads q k v h i hi r =
      get_elem?-window q.circle_buf q.capacity v.storage v.small q.idx_front q.count k i v.front_in
        hi v.count_in h r

  -- `at(k)` reads the item at place `k` of a valid queue, unless that item lies in the cell where
  -- the buffer goes round.
  pub at_lem :
      (q : StaticQueue A) (k : ℕ)
      → IsValid q
      → k < q.count
      → q.idx_front + k ≢ q.capacity
      → at q k ≡ (ok, get_elem? (contents q) k)
  unfolding at
  at_lem q k v h ne = elim (Bool-cases (ltb (q.idx_front + k) q.capacity)) [
    | inl before ↦
        let inside : q.idx_front + k < q.capacity = ground arith in
        ground (arith, reads q k v h (q.idx_front + k) inside (inl refl))
    | inr past ↦
        let inside : q.idx_front + k - q.capacity < q.capacity = ground arith in
        ground (arith, reads q k v h (q.idx_front + k - q.capacity) inside (inr (ground arith)))
  ]

  -- Where the item at place `k` lies in the first cell after the end of the buffer, `at(k)` reports
  -- success, and reads one cell past the array.
  pub at_overruns :
      (q : StaticQueue A) (k : ℕ)
      → IsValid q
      → k < q.count
      → q.idx_front + k ≡ q.capacity
      → at q k ≡ (ok, none)
  unfolding at
  at_overruns q k v h e = ground (arith, get_elem?-beyond q.circle_buf q.capacity)
