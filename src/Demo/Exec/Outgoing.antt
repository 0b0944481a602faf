-- ===== src/Demo/Exec/Outgoing.antt =====
-- src/demo/ghs-demo.h: the loop of `do_main` over the outgoing messages of the agent.
use distributed_leader_elect.Prelude.{
  ℕ, zero, suc, List, [], ◌++◌, Bool, true, false, ◌&&◌, Option, none, some, ltb, length,
  if◌then◌else◌,
}
use distributed_leader_elect.Errno.{is_ok}
use distributed_leader_elect.Msg.{Msg}
use distributed_leader_elect.Seque.{size, push, pop_item}
use distributed_leader_elect.Ghs.Search.{or_blank}
use distributed_leader_elect.Demo.Wire.{
  CommsErrno, err_hangup, err_nng, WireMessage, ghs, to_u16, overwrite, declared,
}
use distributed_leader_elect.Demo.Comms.Send.{Attempt, Sending, send}
use distributed_leader_elect.Demo.Exec.{Exec, Round}

-- The codes of `send` that lead to another attempt.
abbrev pub connection_lost : CommsErrno → Bool
connection_lost err_nng = true
connection_lost err_hangup = true
connection_lost _ = false

-- `encode` copies the memory of a `Msg` (`to_bytes`); the compiler sets how it looks. `junk` is what
-- is in the memory of a new wire message.
module _ (encode : Msg → List ℕ) (junk : WireMessage) where
  -- The wire message for a message of the agent.
  unfoldable pub wrap : Msg → WireMessage
  wrap m = record {
    control = (declared junk).control;
    header = record {
      agent_to = to_u16 m.to;
      agent_from = to_u16 m.from;
      type = ghs;
      payload_size = length (encode m);
    };
    bytes = overwrite (encode m) junk.bytes;
  }

  module _ {F : Type 0} where
    -- Behind `send`: without a connection the message goes to the end of the queue, or is dropped.
    unfoldable pub settle : Msg → Exec F → Sending F → Round F
    settle m x s =
        let y = record x { comms = s.comms } in
        if connection_lost s.code && x.config.retry_connections
        then record {
          goes_on = false;
          on_wire = s.on_wire;
          after = record y { agent = record y.agent { buf = (push y.agent.buf m).1 } };
        }
        else record { goes_on = true; on_wire = s.on_wire; after = y }

    -- One round: it has none where the program aborts, or reads an endpoint outside of the array.
    unfoldable pub send_one : Attempt → Exec F → Option (Round F)
    unfolding wrap settle
    send_one net x =
        let (e, item, q) = pop_item x.agent.buf in
        let y = record x { agent = record x.agent { buf = q } } in
        let m = or_blank item in
        if is_ok e
        then elim (send y.comms (wrap m) net) [ none ↦ none | some s ↦ some (settle m y s) ]
        else some (record { goes_on = false; on_wire = []; after = record y { wegood = false } })

    abbrev pub then_more :
        List WireMessage → Option (List WireMessage × Exec F) → Option (List WireMessage × Exec F)
    then_more wire none = none
    then_more wire (some (rest, x)) = some (wire ++ rest, x)

    -- The loop, on fuel; the network answers the sending number `i` by `net i`.
    unfoldable pub drain : (ℕ → Attempt) → ℕ → ℕ → Exec F → Option (List WireMessage × Exec F)
    unfolding send_one
    drain net zero i x = some ([], x)
    drain net (suc k) i x = elim (ltb 0 (size x.agent.buf)) [
      | false ↦ some ([], x)
      | true ↦ elim (send_one (net i) x) [
        | none ↦ none
        | some r ↦ elim r.goes_on [
          | false ↦ some (r.on_wire, r.after)
          | true ↦ then_more r.on_wire (drain net k (suc i) r.after)
        ]
      ]
    ]

    -- No round adds to the queue and goes on, so its size is fuel enough.
    unfoldable pub send_all : (ℕ → Attempt) → Exec F → Option (List WireMessage × Exec F)
    unfolding drain
    send_all net x = drain net (size x.agent.buf) 0 x
