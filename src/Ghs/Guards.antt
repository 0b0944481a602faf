-- ===== src/Ghs/Guards.antt =====
-- The guards of `process`.
use distributed_leader_elect.Prelude.{
  ◌≡◌, ◌≢◌, refl, Bool, true, false, not, ◌&&◌, Bool-cases, inl, inr, eqb_ℤ, arith,
}
use distributed_leader_elect.Msg.{
  Msg, MsgType, unassigned, noop, srch, srch_ret, in_part, ack_part, nack_part, join_us,
}
use distributed_leader_elect.Ghs.State.{Ctx, Result, done, steps}
use distributed_leader_elect.Ghs.Peers.{has_edge}
use distributed_leader_elect.Ghs.Lookup.{fail_ne_done}
use distributed_leader_elect.Ghs.Process.{process, dispatch}

abbrev pub is_assigned : MsgType → Bool
is_assigned unassigned = false
is_assigned _ = true

-- A message to this agent, from a peer, of a type that there is a handler for.
abbrev pub is_acceptable : Ctx → Msg → Bool
is_acceptable c m =
    not (eqb_ℤ m.from c.state.my_id)
    && eqb_ℤ m.to c.state.my_id
    && has_edge c.state m.from
    && is_assigned m.type

-- The call fails, and nothing has changed.
abbrev pub Rejects : Ctx → Result (Unit {0}) × Ctx → Type 0
Rejects c p = (p.1 ≡ c) × (p.0 ≢ done tt)

dispatch-Rejects :
    (t : MsgType) (m : Msg) (c : Ctx) → is_assigned t ≡ false → Rejects c (dispatch t m c)
unfolding dispatch steps
dispatch-Rejects unassigned m c h = (refl, fail_ne_done)
dispatch-Rejects noop m c h = cc
dispatch-Rejects srch m c h = cc
dispatch-Rejects srch_ret m c h = cc
dispatch-Rejects in_part m c h = cc
dispatch-Rejects ack_part m c h = cc
dispatch-Rejects nack_part m c h = cc
dispatch-Rejects join_us m c h = cc

-- A message that is from this agent, or for another one, or from an agent that is no peer, or of no
-- type, is rejected: the call fails, and the object, the queue and the count are as before.
pub process-Rejects : (m : Msg) (c : Ctx) → is_acceptable c m ≡ false → Rejects c (process m c)
unfolding process steps
process-Rejects m c h = elim (Bool-cases (eqb_ℤ m.from c.state.my_id)) [
  | inl own ↦ rw own (refl, fail_ne_done)
  | inr foreign ↦ elim (Bool-cases (eqb_ℤ m.to c.state.my_id)) [
    | inr elsewhere ↦ rw (foreign, elsewhere) (refl, fail_ne_done)
    | inl mine ↦ elim (Bool-cases (has_edge c.state m.from)) [
      | inr stranger ↦ rw (foreign, mine, stranger) (refl, fail_ne_done)
      | inl peer ↦ rw (foreign, mine, peer) (dispatch-Rejects m.type m c (ground arith))
    ]
  ]
]
