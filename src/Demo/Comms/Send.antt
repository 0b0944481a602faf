-- ===== src/Demo/Comms/Send.antt =====
-- src/demo/ghs-demo-comms.cpp: `internal_send` and `send`.
use distributed_leader_elect.Prelude.{
  ℕ, ◌+◌, ◌%◌, ◌^◌, List, [], ◌∷◌, Option, none, some, pos, eqb_ℤ, ◌==◌, get_elem?, if◌then◌else◌,
}
use distributed_leader_elect.Demo.Config.{Text}
use distributed_leader_elect.Demo.Wire.{
  CommsErrno, ok, err_dest_unset, err_no_payload_type, err_unrecognized_payload_type, err_nng,
  WireMessage, PayloadType, not_set, control, metrics, ping, ghs, other, message_dest_unset,
}
use distributed_leader_elect.Demo.Comms.{Comms}

-- What the nng calls of `internal_send` return, 0 for success; the confirmation that is received, by the
-- sequence that is sent; and the microseconds that pass.
pub record Attempt : Type 0 where
  pub created : ℕ
  pub started : ℕ
  pub sent : ℕ
  pub confirmed : ℕ
  pub return_seq : ℕ → ℕ
  pub elapsed : ℕ

-- The code, the message that the caller passed, with its sequence; the round-trip time, if the call
-- writes it; what was handed to the network; and the object.
pub record Sending (F : Type 0) : Type 0 where
  pub code : CommsErrno
  pub message : WireMessage
  pub us_rt : Option ℕ
  pub on_wire : List WireMessage
  pub comms : Comms F

module _ {F : Type 0} where
  abbrev pub numbered : Comms F → WireMessage → WireMessage
  numbered c m = record m { control = record { sequence = c.outgoing_seq } }

  abbrev pub failed : Comms F → WireMessage → List WireMessage → Sending F
  failed c m wire = record { code = err_nng; message = m; us_rt = none; on_wire = wire; comms = c }

  -- It has none where the assertion on the confirmation fails and the program aborts.
  unfoldable pub internal_send : Comms F → WireMessage → Attempt → Option (Sending F)
  internal_send c m a =
      let out = numbered c m in
      if a.created == 0
      then (if a.started == 0
          then (if a.sent == 0
              then (if a.confirmed == 0
                  then (if a.return_seq c.outgoing_seq == c.outgoing_seq
                      then some (record {
                        code = ok;
                        message = out;
                        us_rt = some a.elapsed;
                        on_wire = out ∷ [];
                        comms = record c { outgoing_seq = (c.outgoing_seq + 1) % 2 ^ 64 };
                      })
                      else none)
                  else some (failed c out (out ∷ [])))
              else some (failed c out []))
          else some (failed c out []))
      else some (failed c out [])

  -- A code of `send` itself: nothing has been done.
  abbrev pub refused : Comms F → WireMessage → CommsErrno → Sending F
  refused c m e = record { code = e; message = m; us_rt = none; on_wire = []; comms = c }

  -- The endpoint of the receiver is read from the configuration: none outside of the array.
  abbrev pub to_endpoint : Option Text → Comms F → WireMessage → Attempt → Option (Sending F)
  to_endpoint none c m a = none
  to_endpoint (some endpoint) c m a = internal_send c m a

  unfoldable pub send_typed : PayloadType → Comms F → WireMessage → Attempt → Option (Sending F)
  unfolding internal_send
  send_typed not_set c m a = some (refused c m err_no_payload_type)
  send_typed ghs c m a = to_endpoint (get_elem? c.ghs_cfg.endpoints m.header.agent_to) c m a
  send_typed control c m a = some (refused c m err_unrecognized_payload_type)
  send_typed metrics c m a = some (refused c m err_unrecognized_payload_type)
  send_typed ping c m a = some (refused c m err_unrecognized_payload_type)
  send_typed (other _) c m a = some (refused c m err_unrecognized_payload_type)

  -- `send(msg)`. The destination, 16 bits without a sign, is compared with the `int` -1.
  unfoldable pub send : Comms F → WireMessage → Attempt → Option (Sending F)
  unfolding send_typed
  send c m a =
      if eqb_ℤ (pos m.header.agent_to) message_dest_unset
      then some (refused c m err_dest_unset)
      else send_typed m.header.type c m a
