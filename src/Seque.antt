-- ===== src/Seque.antt =====
-- include/seque/static_queue.h and static_queue_impl.hpp: a queue of at most N items in a circular
-- buffer. An operation that changes the queue returns the new queue beside its code.
pub mod Fifo
pub mod Inv
pub mod Window
pub mod Refine
pub mod Run
mod Tests
use distributed_leader_elect.Prelude.{
  ℕ, Bool, List, Option, none, some, get_elem?, set, replicate, add_u32, sub_u32, ltb, leb, ◌==◌,
  if◌then◌else◌,
}
use distributed_leader_elect.Errno.{
  Errno, is_ok, ok, err_queue_full, err_queue_empty, err_bad_idx, err_no_such_element,
}

-- `StaticQueue<T, N>`: `capacity` is the template's N, and `circle_buf` has N cells.
pub record StaticQueue {ℓ} (A : Type ℓ) : Type ℓ where
  pub circle_buf : List A
  pub capacity : ℕ
  pub idx_front : ℕ
  pub idx_back : ℕ
  pub count : ℕ

-- `idx++; if (idx >= N) idx = 0;`
abbrev pub advance : ℕ → ℕ → ℕ
advance n i = if leb n (add_u32 i 1) then 0 else add_u32 i 1

module _ {ℓ} {A : Type ℓ} where
  -- The constructor; `blank` is a default-constructed item.
  unfoldable pub make : A → ℕ → StaticQueue A
  make blank n = record {
    circle_buf = replicate n blank;
    capacity = n;
    idx_front = 0;
    idx_back = 0;
    count = 0;
  }

  abbrev pub size : StaticQueue A → ℕ
  size q = q.count

  abbrev pub is_full : StaticQueue A → Bool
  is_full q = size q == q.capacity

  abbrev pub is_empty : StaticQueue A → Bool
  is_empty q = size q == 0

  unfoldable pub push : StaticQueue A → A → Errno × StaticQueue A
  push q item = if is_full q then (err_queue_full, q) else (
    ok,
    record q {
      circle_buf = set q.circle_buf q.idx_back item;
      count = add_u32 q.count 1;
      idx_back = advance q.capacity q.idx_back;
    },
  )

  -- `at(idx, out_item)`. The option is what is written to `out_item`: `(ok, none)` is a read
  -- outside the array, and with an error nothing is written.
  unfoldable pub at : StaticQueue A → ℕ → Errno × Option A
  at q idx =
      if size q == 0
      then (err_queue_empty, none)
      else if leb q.capacity idx
      then (err_bad_idx, none)
      else if leb (size q) idx
      then (err_no_such_element, none)
      else (
        ok,
        get_elem? q.circle_buf (
            if ltb q.capacity (add_u32 idx q.idx_front)
            then sub_u32 (add_u32 idx q.idx_front) q.capacity
            else add_u32 idx q.idx_front),
      )

  unfoldable pub front : StaticQueue A → Errno × Option A
  unfolding at
  front q = at q 0

  -- `pop()`.
  unfoldable pub pop : StaticQueue A → Errno × StaticQueue A
  pop q =
      if is_empty q
      then (err_queue_empty, q)
      else (ok, record q { count = sub_u32 q.count 1; idx_front = advance q.capacity q.idx_front })

  -- `pop(out_item)`: the front item, then `pop()`.
  unfoldable pub pop_item : StaticQueue A → Errno × Option A × StaticQueue A
  unfolding front pop
  pop_item q =
      let (r, item) = front q in if is_ok r then ((pop q).0, item, (pop q).1) else (r, none, q)

  unfoldable pub clear : StaticQueue A → Errno × StaticQueue A
  clear q = (ok, record q { idx_front = 0; idx_back = 0; count = 0 })
