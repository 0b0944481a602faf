-- ===== src/Ghs/Invariant.antt =====
-- Predicates of the object that a handler keeps, whatever else it does and whatever its code: a rule
-- for each construct that the handlers are made of.
pub mod Handlers
use distributed_leader_elect.Prelude.{ℕ, Bool, false, if_post, set}
use distributed_leader_elect.Errno.{Errno}
use distributed_leader_elect.Edge.{Agent, Level, Edge, mst, deleted}
use distributed_leader_elect.Msg.{Msg, InPartPayload}
use distributed_leader_elect.Ghs.Peers.{
  respond_later, set_parent_id, set_edge_status, set_waiting_for,
}
use distributed_leader_elect.Ghs.State.{
  GhsState, Buf, Ctx, Result, done, fail, M, and_then, ◌>>=◌, steps, return, raise, check, lift,
  get, modify, set_qsz, add_qsz, buffer, call, send, cast_out, write_count, with_count,
}

-- A handler after which the predicate holds if it did before.
pub record Keeping (P : GhsState → Type 0) {A : Type 0} (m : M A) : Type 0 where
  pub kept : (c : Ctx) → P c.state → P (m c).1.state

module _ {P : GhsState → Type 0} {A B : Type 0} where
  and_then-Keeping :
      (p : Result A × Ctx) (f : A → M B)
      → P p.1.state
      → ((a : A) → Keeping P (f a))
      → P (and_then p f).1.state
  and_then-Keeping (done a, d) f h k = (k a).kept d h
  and_then-Keeping (fail _, d) f h k = h

  pub bind-Keeping :
      (m : M A) (f : A → M B) → Keeping P m → ((a : A) → Keeping P (f a)) → Keeping P (m >>= f)
  unfolding steps
  bind-Keeping m f h k = record { kept = λ c p. and_then-Keeping (m c) f (h.kept c p) k }

write_count-kept :
    (P : GhsState → Type 0) (r : Result ℕ) (c : Ctx) → P c.state → P (write_count r c).1.state
write_count-kept P (done n) c p = p
write_count-kept P (fail e) c p = p

module _ {P : GhsState → Type 0} where
  pub lift-Keeping : {A : Type 0} (r : Result A) → Keeping P (lift r)
  unfolding steps
  lift-Keeping r = record { kept = λ c p. p }

  pub return-Keeping : {A : Type 0} (a : A) → Keeping P (return a)
  unfolding steps
  return-Keeping a = record { kept = λ c p. p }

  pub raise-Keeping : {A : Type 0} (e : Errno) → Keeping P (raise {A = A} e)
  unfolding steps
  raise-Keeping e = record { kept = λ c p. p }

  pub check-Keeping : (b : Bool) (e : Errno) → Keeping P (check b e)
  unfolding steps
  check-Keeping b e = record {
    kept = λ c p. if_post (λ (r : Result (Unit {0}) × Ctx). P r.1.state) b p p;
  }

  pub get-Keeping : Keeping P get
  unfolding steps
  get-Keeping = record { kept = λ c p. p }

  pub buffer-Keeping : Keeping P buffer
  unfolding steps
  buffer-Keeping = record { kept = λ c p. p }

  pub set_qsz-Keeping : (n : ℕ) → Keeping P (set_qsz n)
  unfolding steps
  set_qsz-Keeping n = record { kept = λ c p. p }

  pub add_qsz-Keeping : (n : ℕ) → Keeping P (add_qsz n)
  unfolding steps
  add_qsz-Keeping n = record { kept = λ c p. p }

  pub send-Keeping : (m : Msg) → Keeping P (send m)
  unfolding steps
  send-Keeping m = record { kept = λ c p. p }

  pub modify-Keeping :
      (f : GhsState → GhsState) → ((s : GhsState) → P s → P (f s)) → Keeping P (modify f)
  unfolding steps
  modify-Keeping f h = record { kept = λ c p. h c.state p }

  pub call-Keeping :
      (f : GhsState → Result (Unit {0}) × GhsState)
      → ((s : GhsState) → P s → P (f s).1)
      → Keeping P (call f)
  unfolding steps
  call-Keeping f h = record { kept = λ c p. h c.state p }

  pub cast_out-Keeping : (f : GhsState → Buf → Result ℕ × Buf) → Keeping P (cast_out f)
  unfolding cast_out
  cast_out-Keeping f = record {
    kept = λ c p. let (r, b) = f c.state c.buf in write_count-kept P r (record c { buf = b }) p;
  }

  pub with_count-Keeping : (m : M (Unit {0})) → Keeping P m → Keeping P (with_count m)
  unfolding with_count
  with_count-Keeping m h = record { kept = λ c p. h.kept (record c { qsz = 0 }) p }

-- What the setters that answer an IN_PART keep.
pub record ClosedByAnswers (P : GhsState → Type 0) : Type 0 where
  pub later : (s : GhsState) (from : Agent) (m : InPartPayload) → P s → P (respond_later s from m).1
  pub answered :
      (s : GhsState) (idx : ℕ)
      → P s
      → P (record s { response_required = set s.response_required idx false })

-- What every setter keeps.
pub record Closed (P : GhsState → Type 0) : Type 0 where
  pub by_answers : ClosedByAnswers P
  pub by_view :
      (s : GhsState) (leader : Agent) (level : Level) (converged : Bool) (best : Edge)
      → P s
      → P (record s {
        my_leader = leader;
        my_level = level;
        algorithm_converged = converged;
        best_edge = best;
      })
  pub by_parent : (s : GhsState) (id : Agent) → P s → P (set_parent_id s id).1
  pub by_join : (s : GhsState) (to : Agent) → P s → P (set_edge_status s to mst).1
  pub by_drop : (s : GhsState) (to : Agent) → P s → P (set_edge_status s to deleted).1
  pub by_waiting : (s : GhsState) (who : Agent) (b : Bool) → P s → P (set_waiting_for s who b).1
