-- ===== src/Seque/Fifo.antt =====
-- What a client of a queue may rely on: a list of at most `cap` items, oldest first.
use distributed_leader_elect.Prelude.{
  ℕ, List, [], ◌∷◌, ◌++◌, Option, none, some, length, ◌==◌, if◌then◌else◌,
}
use distributed_leader_elect.Errno.{Errno, ok, err_queue_full, err_queue_empty}

module _ {ℓ} {A : Type ℓ} where
  unfoldable pub push : ℕ → List A → A → Errno × List A
  push cap xs x = if length xs == cap then (err_queue_full, xs) else (ok, xs ++ (x ∷ []))

  unfoldable pub pop_item : List A → Errno × Option A × List A
  pop_item [] = (err_queue_empty, none, [])
  pop_item (x ∷ xs) = (ok, some x, xs)
