-- ===== src/Printer.antt =====
-- src/libtest/msg_printer.cpp and include/ghs/ghs_printer_impl.hpp: messages and objects as text.
-- How the standard library prints an `int` and an unsigned number is a parameter.
mod Tests
use Prim.Native.String.{String, ◌++◌ as ◌<>◌}
use distributed_leader_elect.Prelude.{
  ℕ, zero, suc, Bool, true, false, List, [], ◌∷◌, ℤ, pos, eqb_ℤ, if◌then◌else◌,
}
use distributed_leader_elect.Edge.{Edge, Status, unknown, mst, mst_parent, deleted}
use distributed_leader_elect.Msg.{
  Msg, MsgType, unassigned, noop, srch, srch_ret, in_part, ack_part, nack_part, join_us,
}
use distributed_leader_elect.Ghs.State.{GhsState, Result, done, fail}
use distributed_leader_elect.Ghs.Peers.{get_edge, has_edge, waiting_count, delayed_count}
use distributed_leader_elect.Ghs.Accessors.{is_converged}
use distributed_leader_elect.Ghs.Process.{as_srch, as_srch_ret, as_in_part, as_join_us}

unfoldable pub to_string : MsgType → String
to_string noop = "NOOP"
to_string srch = "SRCH"
to_string srch_ret = "SRCH_RET"
to_string in_part = "IN_PART"
to_string ack_part = "ACK_PART"
to_string nack_part = "NACK_PART"
to_string join_us = "JOIN_US"
to_string unassigned = "??"

-- The text of an edge's status; the two kinds of MST carry a space.
unfoldable pub status_text : Status → String
status_text unknown = "UNK"
status_text mst = "MST+C "
status_text mst_parent = "MST+P "
status_text deleted = "DEL"

module _ (show_int : ℤ → String) (show_unsigned : ℕ → String) where
  -- The switch of `operator<<`: the payload by the type.
  unfoldable pub show_payload : MsgType → Msg → String
  show_payload srch m =
      let p = as_srch m.payload in
      "ldr:" <> show_int p.your_leader <> " " <> "lvl:" <> show_int p.your_level
  show_payload srch_ret m =
      let p = as_srch_ret m.payload in
      "peer"
      <> show_int p.to
      <> " "
      <> "root:"
      <> show_int p.from
      <> " "
      <> "val:"
      <> show_unsigned p.metric
  show_payload in_part m =
      let p = as_in_part m.payload in
      "ldr:" <> show_int p.leader <> " " <> "lvl:" <> show_int p.level
  show_payload join_us m =
      let p = as_join_us m.payload in
      "peer:"
      <> show_int p.join_peer
      <> " "
      <> "root:"
      <> show_int p.join_root
      <> " "
      <> "root-ldr:"
      <> show_int p.proposed_leader
      <> " "
      <> "root-lvl:"
      <> show_int p.proposed_level
  show_payload unassigned m = ""
  show_payload noop m = ""
  show_payload ack_part m = ""
  show_payload nack_part m = ""

  unfoldable pub show_msg : Msg → String
  unfolding show_payload to_string
  show_msg m =
      "("
      <> show_int m.from
      <> "-->"
      <> show_int m.to
      <> ") "
      <> to_string m.type
      <> " {"
      <> show_payload m.type m
      <> "}"

  -- One edge in `dump_edges`; the best edge is marked.
  unfoldable pub show_edge : Edge → Edge → String
  unfolding status_text
  show_edge mwoe e =
      " "
      <> show_int e.root
      <> "-->"
      <> show_int e.peer
      <> " "
      <> status_text e.status
      <> (if eqb_ℤ e.peer mwoe.peer then "m" else "_")
      <> " "
      <> show_unsigned e.metric_val
      <> ";"

  abbrev pub or_error : ℕ → Edge → Result Edge → String
  or_error i mwoe (done e) = show_edge mwoe e
  or_error i mwoe (fail er) = "Err: " <> show_unsigned i

  -- The loop over the ids below the template's number of agents, `k` of them from `i` on.
  unfoldable pub dump_from : GhsState → ℕ → ℕ → String
  unfolding show_edge
  dump_from s zero i = ""
  dump_from s (suc k) i =
      (if has_edge s (pos i) then or_error i s.best_edge (get_edge s (pos i)) else "")
      <> dump_from s k (suc i)

  unfoldable pub dump_edges : GhsState → String
  unfolding dump_from
  dump_edges s =
      "( "
      <> " m:"
      <> show_int s.best_edge.peer
      <> " mw:"
      <> show_unsigned s.best_edge.metric_val
      <> dump_from s s.max_agents 0
      <> ")"

  unfoldable pub show_ghs : GhsState → String
  unfolding dump_edges
  show_ghs s =
      "{id:"
      <> show_int s.my_id
      <> " "
      <> "leader:"
      <> show_int s.my_leader
      <> " "
      <> "level:"
      <> show_int s.my_level
      <> " "
      <> "waiting:"
      <> show_unsigned (waiting_count s)
      <> " "
      <> "delayed:"
      <> show_unsigned (delayed_count s)
      <> " "
      <> "converged:"
      <> (if is_converged s then "1" else "0")
      <> " "
      <> "("
      <> dump_edges s
      <> ")"
      <> "}"
