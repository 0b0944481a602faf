-- ===== src/Ghs/Asking/Sent.antt =====
-- `search_from` and `process_srch`, exactly: the code, the messages, the count and the flags.
use distributed_leader_elect.Prelude.{
  ℕ, ◌+◌, ◌*◌, ◌≤◌, ◌<◌, ◌≡◌, refl, ◌∙◌, sym, ap, List, true, false, ◌&&◌, ◌==◌, ==_iff, length,
  u32_mod, sub_u32, arith,
}
use distributed_leader_elect.Msg.{Msg, blank_msg}
use distributed_leader_elect.Seque.{size, make}
use distributed_leader_elect.Seque.Inv.{IsValid}
use distributed_leader_elect.Seque.Refine.{contents, length-contents}
use distributed_leader_elect.Seque.Run.{push_all, count-push_all}
use distributed_leader_elect.Ghs.State.{Buf, Ctx, Result, done, steps, with_count}
use distributed_leader_elect.Ghs.Peers.{delayed_count}
use distributed_leader_elect.Ghs.WellFormed.{WellFormed}
use distributed_leader_elect.Ghs.Search.{check_new_level, forward, send_cached, search_from}
use distributed_leader_elect.Ghs.Asking.Flags.{await_all}
use distributed_leader_elect.Ghs.Asking.Search.{
  to_children, to_unknown, asked, forward_lem, srchbuf, cache_srch_lem, cache_in_part_lem, parts,
  srchbuf-IsValid, contents-srchbuf, size-srchbuf, check_new_level-done,
}

-- The difference of two sizes of a queue.
sub_u32-sizes : (a b cap : ℕ) → 2 * cap ≤ u32_mod → a + b ≤ cap → 0 < cap → sub_u32 (a + b) a ≡ b
sub_u32-sizes a b cap small h r = omega (arith, small, h, r)

-- Where the cached messages were moved.
abbrev pub moved_to : Ctx → List Msg → Ctx
moved_to c ms = record c { state = await_all c.state ms; buf = push_all c.buf ms }

-- The delayed answers, counted from 0.
abbrev pub answered_from : Ctx → Result (Unit {0}) × Ctx
answered_from c = check_new_level (record c { qsz = 0 })

send_cached_lem :
    (q : Buf) (ms : List Msg) (n : ℕ) (c : Ctx)
    → IsValid q
    → contents q ≡ ms
    → n ≡ length ms
    → IsValid c.buf
    → size c.buf + length ms ≤ c.buf.capacity
    → let d = (answered_from (moved_to c ms)).1 in
      send_cached q n c ≡ (done tt, record d { qsz = n + d.qsz })
unfolding send_cached steps with_count
send_cached_lem q ms n c v e k w room =
    rw
      (
        ap (λ j. forward j q c) (sym (length-contents q v) ∙ ap length e) ∙ forward_lem ms q c v e,
        full,
        check_new_level-done (record (moved_to c ms) { qsz = 0 }),
      )
      refl
  where
    full : (sub_u32 (size (push_all c.buf ms)) (size c.buf) == n) ≡ true
    full = (==_iff _ _).1 (
        ap (λ k. sub_u32 k c.buf.count) (count-push_all c.buf ms w room)
        ∙ sub_u32-sizes c.buf.count (length ms) c.buf.capacity w.small room w.some_room
        ∙ sym k)

module _ (c : Ctx) (w : WellFormed c.state) (v : IsValid c.buf)
    (room : size c.buf + length (asked c.state) ≤ c.buf.capacity) where
  abbrev pub searched : Result (Unit {0}) × Ctx
  searched = (answered_from (moved_to c (asked c.state)))

  pub search_from_lem :
      (length (asked c.state) == 0 && delayed_count c.state == 0) ≡ false
      → search_from c
        ≡ (done tt, record searched.1 { qsz = length (asked c.state) + searched.1.qsz })
  unfolding search_from steps
  search_from_lem some_work =
      let fits : length (asked c.state) ≤ c.buf.capacity = omega (arith, room) in
      let sz = size-srchbuf c.state c.buf.capacity w v.some_room v.small fits in
      let n = parts c.state c.buf.capacity w v.some_room v.small fits in
      let half = push_all (make blank_msg c.buf.capacity) (to_children c.state) in
      rw
        (
          cache_srch_lem c.state c.buf.capacity w,
          cache_in_part_lem c.state c.buf.capacity w half,
          (==_iff _ _).1 (sz ∙ n),
          ap (λ k. k == 0 && delayed_count c.state == 0) sz ∙ some_work,
        )
        (send_cached_lem (srchbuf c.state c.buf.capacity) (asked c.state)
            (length (to_children c.state) + length (to_unknown c.state)) c
            (srchbuf-IsValid c.state c.buf.capacity w v.some_room v.small fits)
            (contents-srchbuf c.state c.buf.capacity w v.some_room v.small fits) (sym n) v room
          ∙ ap (λ k. (done tt, record searched.1 { qsz = k + searched.1.qsz })) (sym n))
