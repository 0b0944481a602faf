-- ===== src/Demo/Comms/Receive.antt =====
-- src/demo/ghs-demo-comms.cpp: `recv`, `read_loop`, `has_msg` and `get_next`.
use distributed_leader_elect.Prelude.{
  ℕ, List, [], ◌∷◌, Bool, true, false, Option, none, some, ltb, leb, ◌==◌, min, get_elem?, get_or,
  set, take, if◌then◌else◌,
}
use distributed_leader_elect.Errno.{Errno, is_ok, err_queue_empty, err_bad_idx, err_no_such_element}
use distributed_leader_elect.Seque.{size, push, pop_item}
use distributed_leader_elect.Demo.Wire.{
  WireMessage, payload_max_sz, PayloadType, not_set, control, metrics, ping, ghs, other, declared,
  copy_message, word_of,
}
use distributed_leader_elect.Demo.Comms.{Comms}

-- The codes of `nng_recv` that `recv` tells apart.
pub data NngCode : Type 0 where
  success eagain etimedout eclosed einval emsgsize enomem enotsup estate : NngCode
  another : ℕ → NngCode

-- What `recv` returns, by its sign: negative, 0, or the size of a sequence counter.
pub data Received : Type 0 where
  fatal nonfatal taken : Received

unfoldable pub recv_error : NngCode → Option Received
recv_error success = none
recv_error eagain = some nonfatal
recv_error etimedout = some nonfatal
recv_error emsgsize = some nonfatal
recv_error eclosed = some fatal
recv_error einval = some fatal
recv_error enomem = some fatal
recv_error enotsup = some fatal
recv_error estate = some fatal
recv_error (another _) = some fatal

-- The codes of `pop` after which the reader goes on.
abbrev pub is_known_error : Errno → Bool
is_known_error err_queue_empty = true
is_known_error err_bad_idx = true
is_known_error err_no_such_element = true
is_known_error _ = false

module _ {F : Type 0} where
  -- The test of the sequence counter of the sender, `counter`, and the copy to the caller's message. It
  -- has none where the size in the header makes the copy leave the array of bytes.
  unfoldable pub check_sequence :
      ℕ → WireMessage → WireMessage → Comms F → Option (Received × WireMessage × Comms F)
  check_sequence counter msg buf c =
      if ltb msg.control.sequence counter
      then some (nonfatal, buf, c)
      else if counter == msg.control.sequence
      then some (nonfatal, buf, c)
      else if leb msg.header.payload_size payload_max_sz
      then some (
        taken,
        copy_message buf msg,
        record c {
          sequence_counters = set c.sequence_counters msg.header.agent_from msg.control.sequence;
        },
      )
      else none

  -- Behind the confirmation, which is sent for every message. It has none where the counter that is
  -- read lies outside the array.
  unfoldable pub accept :
      WireMessage → WireMessage → Comms F → Option (Received × WireMessage × Comms F)
  unfolding check_sequence
  accept msg buf c =
      if msg.control.sequence == 0
      then some (nonfatal, buf, c)
      else elim (get_elem? c.sequence_counters msg.header.agent_from) [
        | none ↦ none
        | some counter ↦ check_sequence counter msg buf c
      ]

  -- `recv(buf)`, where `nng_recv` returns `code` and leaves `msg` in the local message.
  unfoldable pub recv :
      NngCode → WireMessage → WireMessage → Comms F → Option (Received × WireMessage × Comms F)
  unfolding recv_error accept
  recv code msg buf c = elim (recv_error code) [
    | some r ↦ some (r, buf, c)
    | none ↦ accept msg buf c
  ]

  -- What a message does, by its type.
  unfoldable pub take_message : PayloadType → WireMessage → Comms F → Comms F
  take_message ghs m c = record c { in_q = (push c.in_q m).1 }
  take_message metrics m c = record c {
    kbps =
        set c.kbps m.header.agent_from
          (min (get_or c.kbps m.header.agent_from 0) (word_of (take 4 m.bytes)));
  }
  take_message not_set m c = c
  take_message control m c = c
  take_message ping m c = c
  take_message (other _) m c = c

  abbrev pub after_recv : Received × WireMessage × Comms F → Comms F
  after_recv (fatal, m, c) = record c { read_continues = false }
  after_recv (nonfatal, m, c) = c
  after_recv (taken, m, c) = take_message m.header.type m c

  -- One round of `read_loop`; `junk` is what is in the memory of its message `m`.
  unfoldable pub read_step : WireMessage → NngCode → WireMessage → Comms F → Option (Comms F)
  unfolding recv take_message
  read_step junk code msg c = elim (recv code msg (declared junk) c) [
    | none ↦ none
    | some r ↦ some (after_recv r)
  ]

  -- The loop, over what `nng_recv` delivers.
  unfoldable pub read_loop : WireMessage → List (NngCode × WireMessage) → Comms F → Option (Comms F)
  unfolding read_step
  read_loop junk [] c = some c
  read_loop junk ((code, msg) ∷ es) c = elim c.read_continues [
    | false ↦ some c
    | true ↦ elim (read_step junk code msg c) [ none ↦ none | some d ↦ read_loop junk es d ]
  ]

  unfoldable pub has_msg : Comms F → Bool
  has_msg c = ltb 0 (size c.in_q)

  -- `get_next(m)`: the option is what is written to `m`.
  unfoldable pub get_next : Comms F → Bool × Option WireMessage × Comms F
  get_next c =
      if ltb 0 (size c.in_q)
      then (let (e, item, q) = pop_item c.in_q in
          if is_ok e then (true, item, record c { in_q = q }) else (
            false,
            item,
            record c {
              in_q = q;
              read_continues = if is_known_error e then c.read_continues else false;
            },
          ))
      else (false, none, c)
