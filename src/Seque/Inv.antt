-- ===== src/Seque/Inv.antt =====
-- The representation invariant of a queue, and that every operation keeps it.
use distributed_leader_elect.Prelude.{
  ℕ, ◌+◌, ◌*◌, ◌≤◌, ◌<◌, ◌≡◌, ◌⊎◌, length, length-set, length-replicate, u32_mod, arith,
}
use distributed_leader_elect.Seque.{StaticQueue, make, push, pop, clear}

-- `idx_back` is `count` places after `idx_front` round the buffer.
pub record IsValid {ℓ} {A : Type ℓ} (q : StaticQueue A) : Type 0 where
  pub storage : length q.circle_buf ≡ q.capacity
  pub some_room : 0 < q.capacity
  pub small : 2 * q.capacity ≤ u32_mod
  pub front_in : q.idx_front < q.capacity
  pub back_in : q.idx_back < q.capacity
  pub count_in : q.count ≤ q.capacity
  pub back_at :
      (q.idx_front + q.count ≡ q.idx_back) ⊎ (q.idx_front + q.count ≡ q.idx_back + q.capacity)

module _ {ℓ} {A : Type ℓ} where
  pub make-IsValid : (blank : A) (n : ℕ) → 0 < n → 2 * n ≤ u32_mod → IsValid (make blank n)
  unfolding make
  make-IsValid blank n h k = omega (arith, length-replicate n blank)

  pub push-IsValid : (q : StaticQueue A) (x : A) → IsValid q → IsValid (push q x).1
  unfolding push
  push-IsValid q x v = ground (arith, length-set q.circle_buf q.idx_back x)

  pub pop-IsValid : (q : StaticQueue A) → IsValid q → IsValid (pop q).1
  unfolding pop
  pop-IsValid q v = ground arith

  pub clear-IsValid : (q : StaticQueue A) → IsValid q → IsValid (clear q).1
  unfolding clear
  clear-IsValid q v = ground arith
