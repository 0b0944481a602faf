-- ===== src/Ghs/Asking/Search.antt =====
-- `search_from` and `process_srch`: the messages of a search, and the flags after it.
use distributed_leader_elect.Prelude.{
  ℕ, zero, suc, ◌+◌, ◌*◌, ◌≤◌, ◌<◌, ◌≡◌, refl, ◌∙◌, sym, ap, List, [], ◌∷◌, ◌++◌, true, length,
  length-append, get_or, if_post, leb_ℤ, eqb_ℤ, u32_mod, arith,
}
use distributed_leader_elect.Edge.{Agent, no_agent, unknown, mst}
use distributed_leader_elect.Msg.{Msg, MsgType, InPartPayload, srch_data, in_part_data, blank_msg}
use distributed_leader_elect.Seque.{make, size, push, pop_item}
use distributed_leader_elect.Seque.Inv.{IsValid, make-IsValid}
use distributed_leader_elect.Seque.Refine.{contents, length-contents, contents-make}
use distributed_leader_elect.Seque.Run.{
  push_all, push_all-append, push_all-IsValid, contents-push_all, pop_item-cons, pop_item-IsValid,
}
use distributed_leader_elect.Ghs.State.{GhsState, Buf, Ctx, done, M, steps, with_count}
use distributed_leader_elect.Ghs.Peers.{set_waiting_for, blank_prompt}
use distributed_leader_elect.Ghs.Casts.Addressed.{addressed, edges_in_use, casts_reach}
use distributed_leader_elect.Ghs.WellFormed.{WellFormed, WellFormed-Rooted}
use distributed_leader_elect.Ghs.Asking.Flags.{await_all}
use distributed_leader_elect.Ghs.Search.{
  process_in_part, answer_delayed, is_due, level_step, level_loop, check_new_level, forward_one,
  forward, cache_srch, cache_in_part,
}

-- The SRCH to each child, and the IN_PART along each edge that is not known yet.
abbrev pub to_children : GhsState → List Msg
to_children s =
    addressed s.my_id mst MsgType.srch
      (srch_data (record { your_leader = s.my_leader; your_level = s.my_level })) (edges_in_use s)

abbrev pub to_unknown : GhsState → List Msg
to_unknown s =
    addressed s.my_id unknown MsgType.in_part
      (in_part_data (record { leader = s.my_leader; level = s.my_level })) (edges_in_use s)

abbrev pub asked : GhsState → List Msg
asked s = to_children s ++ to_unknown s

-- The loop over the cached messages moves them all.
pub forward_lem :
    (ms : List Msg) (q : Buf) (c : Ctx)
    → IsValid q
    → contents q ≡ ms
    → forward (length ms) q c
      ≡ (done tt, record c { state = await_all c.state ms; buf = push_all c.buf ms })
unfolding forward forward_one steps push_all await_all
forward_lem [] q c v e = refl
forward_lem (m ∷ ms) q c v e =
    let (front, rest) = pop_item-cons q m ms v e in
    rw front (
      forward_lem ms (pop_item q).2
        (record c { state = (set_waiting_for c.state m.to true).1; buf = (push c.buf m).1 })
        (pop_item-IsValid q v) rest)

make-room : (n k : ℕ) → k ≤ n → (make blank_msg n).count + k ≤ (make blank_msg n).capacity
unfolding make
make-room n k h = omega (arith, h)

-- `srchbuf` once it is filled.
abbrev pub srchbuf : GhsState → ℕ → Buf
srchbuf s n = push_all (push_all (make blank_msg n) (to_children s)) (to_unknown s)

module _ (s : GhsState) (n : ℕ) (w : WellFormed s) where
  pub cache_srch_lem :
      cache_srch s n ≡ (done (length (to_children s)), push_all (make blank_msg n) (to_children s))
  unfolding cache_srch
  cache_srch_lem = (casts_reach s mst MsgType.srch _ (make blank_msg n) (WellFormed-Rooted s w)).1

  pub cache_in_part_lem :
      (q : Buf) → cache_in_part s q ≡ (done (length (to_unknown s)), push_all q (to_unknown s))
  unfolding cache_in_part
  cache_in_part_lem q = (casts_reach s unknown MsgType.in_part _ q (WellFormed-Rooted s w)).0

  module _ (some_room : 0 < n) (small : 2 * n ≤ u32_mod) (fits : length (asked s) ≤ n) where
    pub parts : length (asked s) ≡ length (to_children s) + length (to_unknown s)
    parts = length-append (to_children s) (to_unknown s)

    empty-IsValid : IsValid (make blank_msg n)
    empty-IsValid = make-IsValid blank_msg n some_room small

    half-IsValid : IsValid (push_all (make blank_msg n) (to_children s))
    half-IsValid = push_all-IsValid (make blank_msg n) (to_children s) empty-IsValid

    pub srchbuf-IsValid : IsValid (srchbuf s n)
    srchbuf-IsValid =
        push_all-IsValid (push_all (make blank_msg n) (to_children s)) (to_unknown s) half-IsValid

    pub contents-srchbuf : contents (srchbuf s n) ≡ asked s
    contents-srchbuf = rw (← push_all-append (make blank_msg n) (to_children s) (to_unknown s)) (
        rw
          (contents-push_all (make blank_msg n) (asked s) empty-IsValid
            (make-room n (length (asked s)) fits))
          (rw (contents-make blank_msg n) refl))

    pub size-srchbuf : size (srchbuf s n) ≡ length (asked s)
    size-srchbuf = sym (length-contents (srchbuf s n) srchbuf-IsValid) ∙ ap length contents-srchbuf

-- A handler that ends without an error.
abbrev pub Succeeds : M (Unit {0}) → Type 0
Succeeds m = (c : Ctx) → (m c).0 ≡ done tt

-- An IN_PART is taken without an error.
process_in_part-done : (from : Agent) (pld : InPartPayload) → Succeeds (process_in_part from pld)
unfolding process_in_part steps
process_in_part-done from pld c =
    if_post (λ (m : M (Unit {0})). (m c).0 ≡ done tt) (leb_ℤ pld.level c.state.my_level)
      (if_post (λ (m : M (Unit {0})). (m c).0 ≡ done tt) (eqb_ℤ pld.leader c.state.my_leader) refl
        refl)
      refl

level_step-done : (idx : ℕ) → Succeeds (level_step idx)
unfolding level_step answer_delayed with_count steps
level_step-done idx c =
    if_post (λ (m : M (Unit {0})). (m c).0 ≡ done tt) (is_due c.state idx)
      (rw
        (process_in_part-done (get_or c.state.peers idx no_agent)
          (get_or c.state.response_prompt idx blank_prompt) (record c { qsz = 0 }))
        refl)
      refl

level_loop-done : (k idx : ℕ) → Succeeds (level_loop k idx)
unfolding level_loop steps
level_loop-done zero idx c = refl
level_loop-done (suc k) idx c =
    rw (level_step-done idx c) (level_loop-done k (suc idx) (level_step idx c).1)

pub check_new_level-done : Succeeds check_new_level
unfolding check_new_level steps
check_new_level-done c = level_loop-done c.state.n_peers 0 (record c { qsz = 0 })
