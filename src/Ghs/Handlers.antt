-- ===== src/Ghs/Handlers.antt =====
-- Every handler meets the contract: it keeps the topology, pushes messages of this agent only, counts
-- them where its code is OK, and leaves the count alone where it is not.
pub mod Messages
use mathlib.Core.Path.{subst}
use distributed_leader_elect.Prelude.{
  ℕ, zero, suc, ◌+◌, ◌≡◌, refl, ◌∙◌, List, [], ◌∷◌, ◌++◌, true, false, ◌⊎◌, inl, inr, length,
  ==_iff, leb_ℤ, if_post, eqb_ℤ, length-set, set, arith,
}
use distributed_leader_elect.Edge.{Agent, unknown}
use distributed_leader_elect.Msg.{
  Msg, MsgType, blank_msg, InPartPayload, in_part_data, srch_data, ack_part_data, nack_part_data,
}
use distributed_leader_elect.Seque.{size, make, push, pop_item}
use distributed_leader_elect.Seque.Inv.{IsValid, make-IsValid, push-IsValid}
use distributed_leader_elect.Seque.Run.{
  push_all, push_all-IsValid, pop_item-cons, push-cases, pop_item-IsValid,
}
use distributed_leader_elect.Seque.Refine.{contents, contents-make, length-contents}
use distributed_leader_elect.Ghs.State.{
  steps, GhsState, Buf, Ctx, Result, done, fail, set_qsz, cast_out, write_count,
}
use distributed_leader_elect.Ghs.Peers.{set_waiting_for}
use distributed_leader_elect.Ghs.Casts.Addressed.{
  Casts, typecast-Casts, mst_convergecast-Casts, mst_broadcast-Casts,
}
use distributed_leader_elect.Ghs.Search.{
  process_in_part, answer_delayed, level_step, level_loop, check_new_level, respond_no_mwoe, is_due,
  forward_one, forward, send_cached, search_from, cache_srch, cache_in_part,
}
use distributed_leader_elect.Ghs.Frame.{
  Keeps-refl, Keeps-trans, Keeps-flags, respond_later-Keeps, set_waiting_for-Keeps,
}
use distributed_leader_elect.Ghs.Contract.{
  Own, Own-append, Ready, Ready-qsz, Grows, Grows-still, Counts, CountedAt, Sums, SummedAt, Quiet,
  QuietAt,
}
use distributed_leader_elect.Ghs.Rules.{
  buffer-Counts, Quiet-Counts, check-Counts, lift-Counts, bind-Counts, bind-Sums, Still-Sums,
  get-Counts, get-Sums, modify-Still, one-Counts, write-Counts, return-Still,
}
use distributed_leader_elect.Ghs.Rules.Local.{with_count-Sums, with_count-Counts}

module _ {id : Agent} where
  cast_out-go :
      (c : Ctx) (p : Result ℕ × Buf)
      → Casts id c.buf 0 p
      → CountedAt id 0 c (write_count p.0 (record c { buf = p.1 }))
  cast_out-go c (done x, b) (ms, h, o, k) =
      (ms, record { keeps = Keeps-refl c.state; pushed = h; own = o }, k)
  cast_out-go c (fail e, b) (ms, h, o, k) =
      (ms, record { keeps = Keeps-refl c.state; pushed = h; own = o }, refl)

  pub cast_out-Counts :
      (f : GhsState → Buf → Result ℕ × Buf)
      → ((s : GhsState) (b : Buf) → Casts s.my_id b 0 (f s b))
      → Counts id 0 (cast_out f)
  unfolding cast_out
  cast_out-Counts f h = record {
    counts_at = λ c e.
        cast_out-go c (f c.state c.buf)
          (subst (λ i. Casts i c.buf 0 (f c.state c.buf)) e.of_agent (h c.state c.buf));
  }

  pub process_in_part-Counts :
      (from : Agent) (pld : InPartPayload) → Counts id 0 (process_in_part from pld)
  unfolding process_in_part
  process_in_part-Counts from pld = get-Counts _ λ s e.
      if_post (Counts id 0) (leb_ℤ pld.level s.my_level)
        (if_post (Counts id 0) (eqb_ℤ pld.leader s.my_leader)
          (one-Counts from s.my_id ack_part_data e) (one-Counts from s.my_id nack_part_data e))
        (bind-Counts _ _ (modify-Still _ (λ t. respond_later-Keeps t from pld))
          (λ _. write-Counts 0))

  level_step-Sums : (idx : ℕ) → Sums id (level_step idx)
  unfolding level_step answer_delayed
  level_step-Sums idx = get-Sums _ λ s e.
      if_post (Sums id) (is_due s idx)
        (get-Sums _ λ t f. with_count-Sums _ _ (process_in_part-Counts _ _) (
          modify-Still _ λ u.
            Keeps-flags u u.waiting_for_response (set u.response_required idx false)
              u.response_prompt refl (length-set u.response_required idx false) refl))
        (Still-Sums _ (return-Still tt))

  level_loop-Sums : (k idx : ℕ) → Sums id (level_loop k idx)
  unfolding level_loop
  level_loop-Sums zero idx = Still-Sums _ (return-Still tt)
  level_loop-Sums (suc k) idx =
      bind-Sums _ _ (level_step-Sums idx) (λ _. level_loop-Sums k (suc idx))

  pub check_new_level-Sums :
      (c : Ctx)
      → Ready id c
      → SummedAt id (record c { qsz = 0 }) (check_new_level (record c { qsz = 0 }))
  unfolding check_new_level steps
  check_new_level-Sums c e =
      (level_loop-Sums c.state.n_peers 0).sums_at (record c { qsz = 0 }) (Ready-qsz 0 e)

  respond_no_mwoe-Counts : Counts id 0 respond_no_mwoe
  unfolding respond_no_mwoe
  respond_no_mwoe-Counts = cast_out-Counts _ (λ s b. mst_convergecast-Casts s _ _ b refl)

  -- The cached messages of a well-formed queue are pushed in order.
  forward-all :
      (ms : List Msg) (q : Buf) (c : Ctx)
      → IsValid q
      → contents q ≡ ms
      → Own id ms
      → Grows id c (forward (length ms) q c).1 ms
        × ((forward (length ms) q c).0 ≡ done tt)
        × ((forward (length ms) q c).1.qsz ≡ c.qsz)
  unfolding forward forward_one steps push_all
  forward-all [] q c v e o = (Grows-still c c (Keeps-refl c.state) refl, refl, refl)
  forward-all (m ∷ ms) q c v e o =
      let (front, rest) = pop_item-cons q m ms v e in
      let c' = record c { state = (set_waiting_for c.state m.to true).1; buf = (push c.buf m).1 } in
      let (g, d, z) = forward-all ms (pop_item q).2 c' (pop_item-IsValid q v) rest o.2 in
      rw front (
        record {
          keeps = Keeps-trans (set_waiting_for-Keeps c.state m.to true) g.keeps;
          pushed = g.pushed;
          own = o;
        },
        d,
        z,
      )

module _ (id : Agent) where
  pub contents-Own :
      (ms : List Msg) (q : Buf)
      → IsValid q
      → Own id (contents q)
      → Own id ms
      → Own id (contents (push_all q ms))
  unfolding push_all
  contents-Own [] q v h o = h
  contents-Own (m ∷ ms) q v h o =
      contents-Own ms (push q m).1 (push-IsValid q m v) (pushed (push-cases q m v)) o.2
    where
      pushed :
          (contents (push q m).1 ≡ contents q) ⊎ (contents (push q m).1 ≡ contents q ++ (m ∷ []))
          → Own id (contents (push q m).1)
      pushed (inl e) = rw e h
      pushed (inr e) = rw e (Own-append id (contents q) (m ∷ []) h (o.0, o.1, tt))

module _ {id : Agent} where
  send_cached-Counts :
      (q : Buf) (n : ℕ)
      → IsValid q
      → Own id (contents q)
      → size q ≡ n
      → Counts id 0 (send_cached q n)
  unfolding send_cached
  send_cached-Counts q n v o h = buffer-Counts _ λ before _. Quiet-Counts _ _ moved λ _.
      buffer-Counts _ λ after _. check-Counts _ _ _ λ _.
        with_count-Counts _ _ check_new_level-Sums
          λ x. subst (λ k. Counts id k (set_qsz (n + x))) (omega arith) (write-Counts (n + x))
    where
      moved : Quiet id n (forward (size q) q)
      moved = record {
        quiet_at = λ c e.
            let (g, d, z) = forward-all (contents q) q c v refl o in
            subst (λ k. QuietAt id n c (forward k q c)) (length-contents q v)
              (contents q, g, z, length-contents q v ∙ h);
      }

  -- A cast into a queue of this agent's messages leaves such a queue.
  Casts-Own :
      (q : Buf) (p : Result ℕ × Buf)
      → IsValid q × Own id (contents q)
      → Casts id q 0 p
      → IsValid p.1 × Own id (contents p.1)
  Casts-Own q p (v, o) (ms, h, k, _) = rw h (push_all-IsValid q ms v, contents-Own id ms q v o k)

  cache_srch-Casts :
      (s : GhsState) (n : ℕ) → s.my_id ≡ id → Casts id (make blank_msg n) 0 (cache_srch s n)
  unfolding cache_srch
  cache_srch-Casts s n e =
      subst (λ i. Casts i (make blank_msg n) 0 (cache_srch s n)) e
        (mst_broadcast-Casts s MsgType.srch
          (srch_data (record { your_leader = s.my_leader; your_level = s.my_level }))
          (make blank_msg n) refl)

  cache_in_part-Casts : (s : GhsState) (q : Buf) → s.my_id ≡ id → Casts id q 0 (cache_in_part s q)
  unfolding cache_in_part
  cache_in_part-Casts s q e =
      subst (λ i. Casts i q 0 (cache_in_part s q)) e
        (typecast-Casts s MsgType.in_part
          (in_part_data (record { leader = s.my_leader; level = s.my_level })) q refl unknown)

  cached-Own :
      (s : GhsState) (out : Buf)
      → s.my_id ≡ id
      → IsValid out
      → let q = (cache_in_part s (cache_srch s out.capacity).1).1 in IsValid q × Own id (contents q)
  cached-Own s out e v =
      Casts-Own (cache_srch s out.capacity).1 (cache_in_part s (cache_srch s out.capacity).1)
        (Casts-Own (make blank_msg out.capacity) (cache_srch s out.capacity)
          (make-IsValid blank_msg out.capacity v.some_room v.small, fresh)
          (cache_srch-Casts s out.capacity e))
        (cache_in_part-Casts s (cache_srch s out.capacity).1 e)
    where
      fresh : Own id (contents (make blank_msg out.capacity))
      fresh = rw (contents-make blank_msg out.capacity) tt

  pub search_from-Counts : Counts id 0 search_from
  unfolding search_from
  search_from-Counts = get-Counts _ λ s e. buffer-Counts _ λ out v. lift-Counts _ _ λ srch_sent _.
      lift-Counts _ _ λ part_sent _. check-Counts _ _ _ λ full.
        let (w, o) = cached-Own s out e v in
        if_post (Counts id 0) _ respond_no_mwoe-Counts
          (send_cached-Counts _ (srch_sent + part_sent) w o ((==_iff _ _).0 full))
