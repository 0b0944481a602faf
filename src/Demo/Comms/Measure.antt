-- ===== src/Demo/Comms/Measure.antt =====
-- src/demo/ghs-demo-comms.cpp: the throughput to the other agents: `little_iperf`, `exchange_iperf`,
-- `kbps_to` and `unique_link_metric_to`.
use distributed_leader_elect.Prelude.{
  ℕ, zero, suc, List, [], ◌++◌, true, false, Option, none, some, pos, eqb_ℤ, min, get_or, set,
  replicate,
}
use distributed_leader_elect.Demo.Metric.{sym_metric}
use distributed_leader_elect.Demo.Wire.{
  WireMessage, metrics, ping, payload_max_sz, to_u16, declared, overwrite, kbps_bytes, wire_size,
}
use distributed_leader_elect.Demo.Comms.{Comms}
use distributed_leader_elect.Demo.Comms.Send.{Attempt, Sending, internal_send}

-- The loop that resets the throughputs.
unfoldable pub reset_kbps : ℕ → List ℕ → List ℕ
reset_kbps zero ks = ks
reset_kbps (suc n) ks = set (reset_kbps n ks) n 0

module _ {F : Type 0} where
  -- A read outside the array is undefined in the source; 0 stands for it.
  unfoldable pub kbps_to : Comms F → ℕ → ℕ
  kbps_to c i = get_or c.kbps i 0

  -- The message that `exchange_iperf` sends to the agent `i`; `junk` is what is in its memory.
  unfoldable pub metrics_message : WireMessage → Comms F → ℕ → WireMessage
  metrics_message junk c i = record {
    control = (declared junk).control;
    header = record {
      agent_to = i;
      agent_from = to_u16 c.ghs_cfg.my_id;
      type = metrics;
      payload_size = 4;
    };
    bytes = overwrite (kbps_bytes (kbps_to c i)) junk.bytes;
  }

  -- The messages of two rounds.
  abbrev pub also_sent :
      List WireMessage → Option (Comms F × List WireMessage) → Option (Comms F × List WireMessage)
  also_sent wire none = none
  also_sent wire (some (c, rest)) = some (c, wire ++ rest)

  -- The loop, from the agent `i` on, for `k` agents: the object, and what was handed to the network.
  -- The network answers the sending to `i` by `net i`; the code is dropped.
  unfoldable pub exchange_from :
      WireMessage → (ℕ → Attempt) → ℕ → ℕ → Comms F → Option (Comms F × List WireMessage)
  unfolding metrics_message internal_send
  exchange_from junk net zero i c = some (c, [])
  exchange_from junk net (suc k) i c = elim (eqb_ℤ (pos i) c.ghs_cfg.my_id) [
    | true ↦ exchange_from junk net k (suc i) c
    | false ↦ elim (internal_send c (metrics_message junk c i) (net i)) [
      | none ↦ none
      | some s ↦ also_sent s.on_wire (exchange_from junk net k (suc i) s.comms)
    ]
  ]

  unfoldable pub exchange_iperf :
      WireMessage → (ℕ → Attempt) → Comms F → Option (Comms F × List WireMessage)
  unfolding exchange_from
  exchange_iperf junk net c = exchange_from junk net c.ghs_cfg.n_agents 0 c

  -- The message of `little_iperf`, which has 1024 bytes of 0.
  unfoldable pub ping_message : WireMessage → Comms F → ℕ → WireMessage
  ping_message junk c i = record {
    control = (declared junk).control;
    header = record {
      agent_to = i;
      agent_from = to_u16 c.ghs_cfg.my_id;
      type = ping;
      payload_size = min payload_max_sz 1024;
    };
    bytes = overwrite (replicate (min payload_max_sz 1024) 0) junk.bytes;
  }

  -- `kbps[i]+=(2e6*m.size())/(us_rt*10)` is arithmetic of doubles: `faster` takes the old value, the
  -- size and the time.
  module _ (header_sz control_sz : ℕ) (faster : ℕ → ℕ → ℕ → ℕ) where
    abbrev pub add_kbps : ℕ → Sending F → Comms F
    add_kbps i s = elim s.us_rt [
      | none ↦ s.comms
      | some us ↦
          let c = s.comms in
          record c {
            kbps =
                set c.kbps i
                  (faster (get_or c.kbps i 0) (wire_size header_sz control_sz s.message) us);
          }
    ]

    -- One pass over the agents.
    unfoldable pub iperf_from : WireMessage → (ℕ → Attempt) → ℕ → ℕ → Comms F → Option (Comms F)
    unfolding internal_send ping_message wire_size
    iperf_from junk net zero i c = some c
    iperf_from junk net (suc k) i c = elim (eqb_ℤ (pos i) c.ghs_cfg.my_id) [
      | true ↦ iperf_from junk net k (suc i) c
      | false ↦ elim (internal_send c (ping_message junk c i) (net i)) [
        | none ↦ none
        | some s ↦ iperf_from junk net k (suc i) (add_kbps i s)
      ]
    ]

    -- `n` passes; `net r` are the answers of the network in the round `r`.
    unfoldable pub iperf_rounds : WireMessage → (ℕ → ℕ → Attempt) → ℕ → Comms F → Option (Comms F)
    unfolding iperf_from
    iperf_rounds junk net zero c = some c
    iperf_rounds junk net (suc n) c = elim (iperf_from junk (net n) c.ghs_cfg.n_agents 0 c) [
      | none ↦ none
      | some d ↦ iperf_rounds junk net n d
    ]

    unfoldable pub little_iperf : WireMessage → (ℕ → ℕ → Attempt) → Comms F → Option (Comms F)
    unfolding reset_kbps iperf_rounds
    little_iperf junk net c =
        iperf_rounds junk net 10 (record c { kbps = reset_kbps c.ghs_cfg.n_agents c.kbps })

-- `quotient` is the arithmetic of doubles in `sym_metric`.
module _ (quotient : ℕ → ℕ) {F : Type 0} where
  unfoldable pub unique_link_metric_to : Comms F → ℕ → ℕ
  unfolding kbps_to
  unique_link_metric_to c i = sym_metric quotient i (to_u16 c.ghs_cfg.my_id) (kbps_to c i)
