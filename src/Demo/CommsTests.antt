-- ===== src/Demo/CommsTests.antt =====
-- src/demo: concrete messages on the network.
use distributed_leader_elect.Prelude.{
  ℕ, zero, suc, ◌+◌, ◌++◌, length, some, ◌≡◌, refl, none, inl, inr, List, [], ◌∷◌, true, pos,
  replicate, arith,
}
use distributed_leader_elect.Msg.{Msg, msg, noop_data, blank_msg}
use distributed_leader_elect.Seque.{make, push}
use distributed_leader_elect.Seque.Inv.{IsValid, make-IsValid, push-IsValid}
use distributed_leader_elect.Seque.Refine.{contents}
use distributed_leader_elect.Ghs.Peers.{construct, get_edge}
use distributed_leader_elect.Demo.Config.{text, Config, load}
use distributed_leader_elect.Demo.Wire.{
  WireMessage, PayloadType, ghs, not_set, message_dest_unset, to_u16,
}
use distributed_leader_elect.Demo.Comms.{Comms}
use distributed_leader_elect.Demo.Comms.Receive.{
  NngCode, success, etimedout, recv_error, read_loop, read_step,
}
use distributed_leader_elect.Demo.Comms.Send.{Attempt, send}
use distributed_leader_elect.Demo.Comms.Sequence.{is_new}
use distributed_leader_elect.Demo.Comms.Measure.{kbps_to}
use distributed_leader_elect.Demo.Comms.Fresh.{heard, new_messages, written, read_loop-Fresh}
use distributed_leader_elect.Demo.Comms.Lost.{
  Confirmed, Unconfirmed, Sendable, Loses, send-Loses, send_unset,
}
use distributed_leader_elect.Demo.Comms.Agree.{Linked, Agree, report, exchange_agrees}
use distributed_leader_elect.Demo.Exec.{Exec, initialize_ghs}
use distributed_leader_elect.Demo.Exec.Build.{Link, initialize_ghs-Link}
use distributed_leader_elect.Demo.Exec.Outgoing.{drain, send_all}
use distributed_leader_elect.Demo.Exec.Delivery.{drain_enough}
use distributed_leader_elect.Demo.Exec.Retry.{Delivers, send_all_retries}

abbrev message : ℕ → ℕ → PayloadType → WireMessage
message to from type = record {
  control = record { sequence = 1 };
  header = record { agent_to = to; agent_from = from; type = type; payload_size = 2 };
  bytes = 7 ∷ 7 ∷ 0 ∷ 0 ∷ [];
}

abbrev config_of : ℕ → Config ℕ
config_of my_id = record {
  wait_s = 0;
  n_agents = 2;
  endpoints = text "tcp://a" ∷ text "tcp://b" ∷ replicate 6 [];
  run_test = pos 0;
  my_id = pos my_id;
  command = load;
  retry_connections = true;
}

abbrev comms_of : ℕ → Comms ℕ
comms_of my_id = record {
  in_q = make (message 0 0 not_set) 4;
  read_continues = true;
  ghs_cfg = config_of my_id;
  outgoing_seq = 1;
  sequence_counters = replicate 8 0;
  kbps = replicate 8 (my_id + 5);
}

-- A message, the message again, and no message in time.
abbrev arrivals : List (NngCode × WireMessage)
arrivals =
    (success, message 0 1 ghs) ∷ (success, message 0 1 ghs) ∷ (etimedout, message 0 0 not_set) ∷ []

abbrev arrived : List WireMessage
arrived = written (message 0 0 not_set) (new_messages [] (heard arrivals))

arrived_one : length arrived ≡ 1
unfolding heard recv_error new_messages is_new
arrived_one = refl

read_loop-Fresh_example :
    (d : Comms ℕ) × (read_loop (message 0 0 not_set) arrivals (comms_of 0) ≡ some d)
    × (contents d.in_q ≡ contents (comms_of 0).in_q ++ arrived)
unfolding recv_error make
read_loop-Fresh_example =
    read_loop-Fresh (message 0 0 not_set) arrivals (comms_of 0) refl refl
      (inr (refl, omega arith, omega arith), (inr (refl, omega arith, omega arith), (inl refl, tt)))
      (make-IsValid (message 0 0 not_set) 4 (omega arith) (omega arith))
      (omega (arith, arrived_one))

abbrev attempt : ℕ → Attempt
attempt confirmed = record {
  created = 0;
  started = 0;
  sent = 0;
  confirmed = confirmed;
  return_seq = λ n. n;
  elapsed = 100;
}

attempt-Confirmed : Confirmed (attempt 0)
attempt-Confirmed = record {
  creates = refl;
  starts = refl;
  sends = refl;
  receives = refl;
  echoes = λ n. refl;
}

attempt-Unconfirmed : Unconfirmed (attempt 5)
attempt-Unconfirmed = record {
  creates = refl;
  starts = refl;
  sends = refl;
  fails = λ e. omega (arith, e);
}

message-Sendable : Sendable (comms_of 0) (message 1 0 ghs)
message-Sendable = record { for_ghs = refl; known = omega arith }

send-Loses_example :
    Loses
      (comms_of 0)
      (message 1 0 ghs)
      (message 1 0 ghs)
      (attempt 5)
      (attempt 0)
      (comms_of 1)
      (message 0 0 not_set)
send-Loses_example =
    send-Loses (comms_of 0) (message 1 0 ghs) (message 1 0 ghs) (attempt 5) (attempt 0) (comms_of 1)
      (message 0 0 not_set) 0 message-Sendable message-Sendable attempt-Unconfirmed
      attempt-Confirmed refl (omega arith) refl (omega arith)

send_unset_example :
    send (comms_of 0) (message (to_u16 message_dest_unset) 0 ghs) (attempt 0) ≡ none
send_unset_example =
    send_unset (comms_of 0) (message (to_u16 message_dest_unset) 0 ghs) (attempt 0) refl refl
      (omega arith)

ends-Linked : Linked (comms_of 0) 0 1 1 × Linked (comms_of 1) 1 0 1
unfolding kbps_to
ends-Linked = (
  record {
    id = refl;
    small = omega arith;
    cell = omega arith;
    bits = omega arith;
    last = 0;
    counter = refl;
    fresh = omega arith;
  },
  record {
    id = refl;
    small = omega arith;
    cell = omega arith;
    bits = omega arith;
    last = 0;
    counter = refl;
    fresh = omega arith;
  },
)

exchange_agrees_example :
    Agree
      (message 0 0 not_set)
      (λ k. k)
      (comms_of 0)
      (comms_of 1)
      0
      1
      (read_step
        (message 0 0 not_set)
        success
        (report (message 0 0 not_set) (comms_of 1) 0)
        (comms_of 0))
      (read_step
        (message 0 0 not_set)
        success
        (report (message 0 0 not_set) (comms_of 0) 1)
        (comms_of 1))
exchange_agrees_example =
    exchange_agrees (message 0 0 not_set) (λ k. k) (comms_of 0) (comms_of 1) 0 1 ends-Linked.0
      ends-Linked.1

-- An agent with two messages to send.
abbrev outgoing : Exec ℕ
outgoing = record {
  config = config_of 0;
  comms = comms_of 0;
  agent = record {
    state = construct 2 (pos 0) [];
    buf =
        (push (push (make blank_msg 4) (msg (pos 1) (pos 0) noop_data)).1
          (msg (pos 1) (pos 0) noop_data)).1;
    qsz = 0;
  };
  wegood = true;
}

outgoing-IsValid : IsValid outgoing.agent.buf
outgoing-IsValid =
    push-IsValid (push (make blank_msg 4) (msg (pos 1) (pos 0) noop_data)).1
      (msg (pos 1) (pos 0) noop_data)
      (push-IsValid (make blank_msg 4) (msg (pos 1) (pos 0) noop_data)
        (make-IsValid blank_msg 4 (omega arith) (omega arith)))

-- One byte stands for a message; the first sending fails.
abbrev as_byte : Msg → List ℕ
as_byte m = 1 ∷ []

abbrev first_fails : ℕ → Attempt
first_fails zero = attempt 5
first_fails (suc i) = attempt 0

drain_enough_example :
    drain as_byte (message 0 0 not_set) first_fails 9 0 outgoing
    ≡ send_all as_byte (message 0 0 not_set) first_fails outgoing
unfolding make push
drain_enough_example =
    drain_enough as_byte (message 0 0 not_set) first_fails 9 outgoing outgoing-IsValid (omega arith)

send_all_retries_example :
    Delivers as_byte
      (message 0 0 not_set)
      outgoing
      (contents outgoing.agent.buf)
      (send_all as_byte (message 0 0 not_set) first_fails outgoing)
unfolding make push
send_all_retries_example =
    send_all_retries as_byte (message 0 0 not_set) first_fails outgoing honest outgoing-IsValid
      (omega arith) refl (omega arith)
  where
    honest : (i n : ℕ) → (first_fails i).return_seq n ≡ n
    honest zero n = refl
    honest (suc i) n = refl

initialize_ghs-Link_example :
    Link
      (λ k. k)
      (config_of 0)
      (comms_of 0)
      1
      (get_edge (initialize_ghs (λ k. k) (config_of 0) (comms_of 0)) (pos 1))
initialize_ghs-Link_example =
    initialize_ghs-Link (λ k. k) (config_of 0) (comms_of 0) 0 (omega arith) refl refl 1
      (omega arith) (omega arith) (λ e. omega (arith, e))
