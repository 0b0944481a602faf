-- ===== src/Seque/Tests.antt =====
-- include/seque/static_queue_impl.hpp: the queue on concrete items.
use distributed_leader_elect.Prelude.{ℕ, ◌≡◌, refl, [], ◌∷◌, List, none, get_elem?, inr, arith}
use distributed_leader_elect.Errno.{ok}
use distributed_leader_elect.Seque.{StaticQueue, make, at}
use distributed_leader_elect.Seque.Inv.{IsValid, make-IsValid}
use distributed_leader_elect.Seque.Refine.{contents, at_lem, at_overruns}
use distributed_leader_elect.Seque.Run.{Op, puts, gets, clears, run, run_fifo, run_refines}

-- Its front is the last cell, and its second item the first cell.
abbrev wrapped : StaticQueue ℕ
wrapped = record {
  circle_buf = 20 ∷ 30 ∷ 10 ∷ [];
  capacity = 3;
  idx_front = 2;
  idx_back = 1;
  count = 2;
}

wrapped-IsValid : IsValid wrapped
wrapped-IsValid = record {
  storage = refl;
  some_room = omega arith;
  small = omega arith;
  front_in = omega arith;
  back_in = omega arith;
  count_in = omega arith;
  back_at = inr (omega arith);
}

contents-wrapped : contents wrapped ≡ 10 ∷ 20 ∷ []
contents-wrapped = refl

abbrev new_queue : StaticQueue ℕ
new_queue = make {A = ℕ} 0 2

abbrev history : List (Op ℕ)
history = puts 1 ∷ puts 2 ∷ puts 3 ∷ gets ∷ puts 3 ∷ gets ∷ clears ∷ gets ∷ []

run_refines_example :
    run new_queue history ≡ run_fifo new_queue.capacity (contents new_queue) history
run_refines_example =
    run_refines history new_queue (make-IsValid {A = ℕ} 0 2 (omega arith) (omega arith))

at_lem_example : at wrapped 0 ≡ (ok, get_elem? (contents wrapped) 0)
at_lem_example = at_lem wrapped 0 wrapped-IsValid (omega arith) (omega arith)

at_overruns_example : at wrapped 1 ≡ (ok, none)
at_overruns_example = at_overruns wrapped 1 wrapped-IsValid (omega arith) refl
