-- ===== src/Demo/Tests.antt =====
-- src/demo: concrete links and configurations.
use distributed_leader_elect.Prelude.{
  eqb_ℤ, ℕ, ◌+◌, ◌*◌, ◌^◌, ◌≡◌, refl, [], ◌∷◌, true, false, Option, none, pos, min, length, get_or,
  replicate, arith, ◌⊎◌, if◌then◌else◌, ◌==◌,
}
use distributed_leader_elect.Prelude.{List, ℤ, negsuc, pos_part, some, leb}
use distributed_leader_elect.Msg.{Msg, msg, nack_part_data}
use distributed_leader_elect.Demo.Bytes.{Memory, to_bytes, from_bytes, to_bytes_z, from_bytes_z}
use distributed_leader_elect.Demo.Comms.{Comms}
use distributed_leader_elect.Demo.Comms.Setup.{Nng, Sockets, with_config}
use distributed_leader_elect.Demo.Cli.{letter, read_cfg_cli}
use distributed_leader_elect.Demo.Metric.{
  larger, sym_metric, sym_metric_comm, sym_metric_unique, sym_metric_overflow,
}
use distributed_leader_elect.Demo.Config.{
  Text, text, eqb_text, Config, load, start, read_cfg_item, cfg_is_ok,
}
use distributed_leader_elect.Demo.Config.Bounds.{
  Fits, FitsAfter, read_cfg_item-Fits, IsUsable, cfg_is_ok_decides,
}

-- The quotients of 2 ^ 64 by 2 and by 4, and 2 ^ 40 for any other throughput.
abbrev quotient : ℕ → ℕ
quotient kbps = if kbps == 2 then 2 ^ 63 else if kbps == 4 then 2 ^ 62 else 2 ^ 40

sym_metric_comm_example : sym_metric quotient 3 5 2 ≡ sym_metric quotient 5 3 2
sym_metric_comm_example = sym_metric_comm quotient 3 5 2

sym_metric_unique_example : (larger 3 5 ≡ larger 5 3) × (min 3 5 ≡ min 5 3)
sym_metric_unique_example =
    sym_metric_unique quotient 3 5 5 3 2 2 (omega arith) (omega arith) (omega arith) (omega arith)
      (sym_metric_comm quotient 3 5 2)

sym_metric_overflow_example : sym_metric quotient 3 5 2 ≡ larger 3 5 * 2 ^ 16 + min 3 5
sym_metric_overflow_example =
    sym_metric_overflow quotient 3 5 2 (2 ^ 31) (omega arith) (omega arith) refl

-- No text is a number of seconds.
abbrev no_seconds : Text → Option ℕ
no_seconds t = none

abbrev one_agent : Config ℕ
one_agent = record {
  wait_s = 0;
  n_agents = 1;
  endpoints = text "tcp://a" ∷ replicate 7 [];
  run_test = pos 0;
  my_id = pos 0;
  command = load;
  retry_connections = false;
}

one_agent-Fits : Fits one_agent
one_agent-Fits = record { few = omega arith; size = refl }

read_cfg_item-Fits_example :
    FitsAfter one_agent.n_agents
      (read_cfg_item no_seconds (text "ghs") (text "1") (text "tcp://b") one_agent)
read_cfg_item-Fits_example =
    read_cfg_item-Fits no_seconds (text "ghs") (text "1") (text "tcp://b") one_agent one_agent-Fits

one_agent_ok : cfg_is_ok one_agent ≡ some true
unfolding cfg_is_ok eqb_ℤ
one_agent_ok = refl

-- With nine agents the ninth endpoint is past the array.
past_the_array :
    cfg_is_ok (record one_agent { n_agents = 9; endpoints = replicate 8 (text "tcp://a") }) ≡ none
unfolding cfg_is_ok eqb_ℤ
past_the_array = refl

cfg_is_ok_decides_example :
    ((cfg_is_ok one_agent ≡ some true) × IsUsable one_agent)
    ⊎ ((cfg_is_ok one_agent ≡ some false) × ¬ IsUsable one_agent)
cfg_is_ok_decides_example = cfg_is_ok_decides one_agent one_agent-Fits

-- A `Msg` that has no payload but its type, and a compression that leaves the bytes as they are.
abbrev three_cells : Msg → List ℕ
three_cells m = pos_part m.to ∷ pos_part m.from ∷ 6 ∷ []

abbrev nack_at : List ℕ → Msg
nack_at b = msg (pos (get_or b 0 0)) (pos (get_or b 1 0)) nack_part_data

abbrev if_room : ℕ → List ℕ → Option (List ℕ)
if_room room x = if leb (length x) room then some x else none

abbrev flat : Memory
flat = record {
  max_msg_sz = 3;
  memory_of = three_cells;
  msg_at = nack_at;
  compress = if_room;
  uncompress = if_room;
}

abbrev a_nack : Msg
a_nack = msg (pos 2) (pos 1) nack_part_data

abbrev room_for_five : List ℕ
room_for_five = 0 ∷ 0 ∷ 0 ∷ 9 ∷ 9 ∷ []

copied :
    (to_bytes flat a_nack room_for_five 5 ≡ some (2 ∷ 1 ∷ 6 ∷ 9 ∷ 9 ∷ [], 5))
    × (from_bytes flat (2 ∷ 1 ∷ 6 ∷ 9 ∷ 9 ∷ []) 5 ≡ some a_nack)
unfolding to_bytes from_bytes
copied = (refl, refl)

compressed :
    (to_bytes_z flat a_nack room_for_five 5 ≡ some (2 ∷ 1 ∷ 6 ∷ 9 ∷ 9 ∷ [], 3))
    × (from_bytes_z flat (2 ∷ 1 ∷ 6 ∷ 9 ∷ 9 ∷ []) 3 ≡ some a_nack)
unfolding to_bytes_z from_bytes_z
compressed = (refl, refl)

-- Whatever the size that is passed on, a buffer of two bytes is too short.
too_short :
    (to_bytes flat a_nack (0 ∷ 0 ∷ []) 3 ≡ none)
    × (from_bytes flat (0 ∷ 0 ∷ []) 3 ≡ none)
    × (to_bytes_z flat a_nack (0 ∷ 0 ∷ []) 3 ≡ none)
    × (from_bytes_z flat (0 ∷ 0 ∷ []) 3 ≡ none)
unfolding to_bytes from_bytes to_bytes_z from_bytes_z
too_short = (refl, refl, refl, refl)

-- The value of `-i` is cut to eight bits: -1 becomes 255, and 256 becomes 0.
any_number : Text → ℤ
any_number t = if eqb_text t (text "-1") then negsuc 0 else pos 256

identities :
    (read_cfg_cli any_number (λ t. 0) ((letter b'i', text "-1") ∷ []) one_agent
      ≡ some (record one_agent { my_id = pos 255 }))
    × (read_cfg_cli any_number
          (λ t. 0)
          ((letter b'i', text "256") ∷ (letter b's', []) ∷ [])
          one_agent
        ≡ some (record one_agent { my_id = pos 0; command = start }))
    × (read_cfg_cli any_number (λ t. 0) ((letter b'x', []) ∷ []) one_agent ≡ none)
unfolding read_cfg_cli any_number eqb_text
identities = (refl, refl, refl)

-- No socket is open yet, and every call succeeds.
abbrev willing : Nng
willing = record {
  rep0_open = pos 0;
  req0_open = pos 0;
  set_recv_timeout = pos 0;
  set_send_timeout = pos 0;
  listener_close = pos 0;
  listener_create = λ endpoint. pos 0;
  listener_start = pos 0;
  new_incoming = pos 4;
  new_outgoing = pos 5;
  new_listener = pos 6;
}

abbrev closed : Sockets
closed = record { incoming = negsuc 0; outgoing = negsuc 0; ghs_listener = negsuc 0 }

-- The sockets are opened and the configuration is taken over; an endpoint that is in use stops the
-- program.
set_up :
    (c : Comms ℕ)
    → (with_config willing one_agent (closed, c)
        ≡ some (
          record { incoming = pos 4; outgoing = pos 5; ghs_listener = pos 6 },
          record c { ghs_cfg = one_agent },
        ))
      × (with_config (record willing { listener_create = λ endpoint. pos 10 }) one_agent (closed, c)
          ≡ none)
unfolding with_config cfg_is_ok eqb_ℤ
set_up c = (refl, refl)
