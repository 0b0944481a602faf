-- ===== src/Ghs/Search.antt =====
-- The search for the minimum weight outgoing edge: `process_in_part`, `check_new_level`,
-- `respond_no_mwoe`, `process_srch` and `start_round`.
use distributed_leader_elect.Prelude.{
  ℕ, zero, suc, ◌+◌, Bool, true, false, ◌&&◌, Option, none, some, pos, eqb_ℤ, leb_ℤ, ◌==◌, sub_u32,
  get_or, set, if◌then◌else◌,
}
use distributed_leader_elect.Errno.{srch_still_waiting, err_queue_msgs}
use distributed_leader_elect.Edge.{Agent, worst_metric, unknown, worst_edge, no_agent}
use distributed_leader_elect.Msg.{
  Msg, SrchPayload, InPartPayload, MsgType, srch_data, srch_ret_data, in_part_data, ack_part_data,
  nack_part_data, msg, blank_msg,
}
use distributed_leader_elect.Seque.{make, size, pop_item}
use distributed_leader_elect.Ghs.State.{
  GhsState, Buf, Result, done, fail, M, ◌>>=◌, ◌>>◌, return, check, lift, get, modify, set_qsz,
  call, send, add_qsz, cast_out, with_count, buffer,
}
use distributed_leader_elect.Ghs.Peers.{
  get_edge, set_parent_id, set_waiting_for, respond_later, waiting_count, delayed_count,
  blank_prompt,
}
use distributed_leader_elect.Ghs.Casts.{typecast, mst_broadcast, mst_convergecast}

-- Answers an IN_PART of an agent that is not ahead of us, and keeps one of an agent that is.
unfoldable pub process_in_part : Agent → InPartPayload → M (Unit {0})
process_in_part from pld = do
  s ← get
  if leb_ℤ pld.level s.my_level
      then (if eqb_ℤ pld.leader s.my_leader
          then (send (msg from s.my_id ack_part_data) >> set_qsz 1)
          else (send (msg from s.my_id nack_part_data) >> set_qsz 1))
      else (modify (λ t. (respond_later t from pld).1) >> set_qsz 0)

-- The body of the loop of `check_new_level`, where the sender at `idx` can be answered now; the
-- context's count is the loop's sum.
unfoldable pub answer_delayed : ℕ → M (Unit {0})
answer_delayed idx = do
  s ← get
  sentsz ←
      with_count
        (process_in_part (get_or s.peers idx no_agent) (get_or s.response_prompt idx blank_prompt))
  add_qsz sentsz
  modify (λ t. record t { response_required = set t.response_required idx false })

-- An answer is due, and its level has been reached.
abbrev pub is_due : GhsState → ℕ → Bool
is_due s idx =
    get_or s.response_required idx false
    && leb_ℤ (get_or s.response_prompt idx blank_prompt).level s.my_level

unfoldable pub level_step : ℕ → M (Unit {0})
level_step idx = do s ← get; if is_due s idx then answer_delayed idx else return tt

unfoldable pub level_loop : ℕ → ℕ → M (Unit {0})
level_loop zero idx = return tt
level_loop (suc k) idx = level_step idx >> level_loop k (suc idx)

unfoldable pub check_new_level : M (Unit {0})
check_new_level = do set_qsz 0; s ← get; level_loop s.n_peers 0

unfoldable pub respond_no_mwoe : M (Unit {0})
respond_no_mwoe = cast_out λ s.
    mst_convergecast s MsgType.srch_ret
      (srch_ret_data (record { to = pos 0; from = pos 0; metric = worst_metric }))

-- One round of the loop that moves the cached messages to the caller's buffer.
unfoldable pub forward_one : Msg → M (Unit {0})
forward_one m = modify (λ t. (set_waiting_for t m.to true).1) >> send m

abbrev pub or_blank : Option Msg → Msg
or_blank none = blank_msg
or_blank (some m) = m

unfoldable pub forward : ℕ → Buf → M (Unit {0})
forward zero q = return tt
forward (suc k) q = forward_one (or_blank (pop_item q).1) >> forward k (pop_item q).2

-- From "at this point, we may not have sent any msgs" on: `cached` is `srchbuf`, and `sent` is
-- `srch_sent + part_sent`.
unfoldable pub send_cached : Buf → ℕ → M (Unit {0})
send_cached cached sent = do
  before ← buffer
  forward (size cached) cached
  after ← buffer
  check (sub_u32 (size after) (size before) == sent) err_queue_msgs
  old ← with_count check_new_level
  set_qsz (sent + old)

-- The SRCH for each child, in a queue of its own (`srchbuf`).
unfoldable pub cache_srch : GhsState → ℕ → Result ℕ × Buf
cache_srch s capacity =
    mst_broadcast s MsgType.srch
      (srch_data (record { your_leader = s.my_leader; your_level = s.my_level }))
      (make blank_msg capacity)

-- The IN_PART for each edge not known yet, behind them.
unfoldable pub cache_in_part : GhsState → Buf → Result ℕ × Buf
cache_in_part s cached =
    typecast s unknown MsgType.in_part
      (in_part_data (record { leader = s.my_leader; level = s.my_level })) cached

-- From `StaticQueue<Msg,BUF_SZ> srchbuf` on.
unfoldable pub search_from : M (Unit {0})
unfolding cache_srch cache_in_part respond_no_mwoe send_cached
search_from = do
  s ← get
  out ← buffer
  let down = cache_srch s out.capacity
  srch_sent ← lift down.0
  let ping = cache_in_part s down.1
  part_sent ← lift ping.0
  check (size ping.1 == srch_sent + part_sent) err_queue_msgs
  if size ping.1 == 0 && delayed_count s == 0
      then respond_no_mwoe
      else send_cached ping.1 (srch_sent + part_sent)

-- The sender must be this agent, or have an edge.
unfoldable pub known_sender : GhsState → Agent → Result (Unit {0})
known_sender s from =
    if eqb_ℤ from s.my_id
    then done tt
    else elim (get_edge s from) [ done e ↦ done tt | fail e ↦ fail e ]

unfoldable pub process_srch : Agent → SrchPayload → M (Unit {0})
unfolding known_sender search_from
process_srch from pld = do
  s ← get
  lift (known_sender s from)
  check (waiting_count s == 0) srch_still_waiting
  modify (λ t. record t { my_leader = pld.your_leader; my_level = pld.your_level })
  call (λ t. set_parent_id t from)
  modify (λ t. record t { best_edge = record worst_edge { root = t.my_id } })
  search_from

unfoldable pub start_round : M (Unit {0})
unfolding process_srch
start_round = do
  s ← get
  if eqb_ℤ s.my_leader s.my_id
      then process_srch s.my_id (record { your_leader = s.my_leader; your_level = s.my_level })
      else set_qsz 0
