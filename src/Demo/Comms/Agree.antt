-- ===== src/Demo/Comms/Agree.antt =====
-- `exchange_iperf`, `read_loop` and `unique_link_metric_to` together: both ends of a link agree on it.
use distributed_leader_elect.Prelude.{
  ℕ, ◌^◌, ◌<◌, ◌≡◌, refl, ◌∙◌, ap, List, Option, some, min, pos, take, length, get_elem?, get_or,
  set, get_or-set_self, arith,
}
use distributed_leader_elect.Demo.Metric.{sym_metric_comm}
use distributed_leader_elect.Demo.Config.{Config}
use distributed_leader_elect.Demo.Wire.{
  WireMessage, metrics, declared, overwrite, copy_message, kbps_bytes, word_of, word_of-kbps_bytes,
  to_u16,
}
use distributed_leader_elect.Demo.Comms.{Comms}
use distributed_leader_elect.Demo.Comms.Send.{numbered}
use distributed_leader_elect.Demo.Comms.Receive.{success, take_message, read_step}
use distributed_leader_elect.Demo.Comms.Measure.{kbps_to, metrics_message, unique_link_metric_to}
use distributed_leader_elect.Demo.Comms.Sequence.{recorded_at, recv-taken}

-- The agent `i` has an id, a cell for the throughput to the agent `j`, a throughput of 32 bits, and has
-- heard nothing from `j` that is newer than the message that `j` is to send.
pub record Linked {F : Type 0} (c : Comms F) (i j : ℕ) (seq : ℕ) : Type 0 where
  pub id : c.ghs_cfg.my_id ≡ pos i
  pub small : i < 2 ^ 16
  pub cell : j < length c.kbps
  pub bits : kbps_to c j < 2 ^ 32
  pub last : ℕ
  pub counter : get_elem? c.sequence_counters j ≡ some last
  pub fresh : last < seq

-- What `j` sends to `i` in the exchange.
abbrev pub report : {F : Type 0} → WireMessage → Comms F → ℕ → WireMessage
report junk c i = numbered c (metrics_message junk c i)

-- The throughput is in the first four bytes.
sent_kbps :
    (n : ℕ) (old junk : List ℕ)
    → n < 2 ^ 32
    → word_of (take 4 (overwrite (take 4 (overwrite (kbps_bytes n) junk)) old)) ≡ n
unfolding word_of kbps_bytes
sent_kbps n old junk h = word_of-kbps_bytes n h

of_small : (j : ℕ) → j < 2 ^ 16 → to_u16 (pos j) ≡ j
of_small j b = omega arith

-- The cell `from` takes the smaller value.
new_cell :
    (ks : List ℕ) (from j x : ℕ)
    → from ≡ j
    → j < length ks
    → get_or (set ks from (min (get_or ks from 0) x)) j 0 ≡ min (get_or ks j 0) x
new_cell ks from j x e b = rw e (get_or-set_self ks j (min (get_or ks j 0) x) 0 b)

min_comm : (a b : ℕ) → min a b ≡ min b a
min_comm a b = omega arith

module _ {F : Type 0} (junk : WireMessage) where
  -- The agent `i` hears from `j`: its throughput becomes the smaller of the two.
  abbrev Heard : Comms F → Comms F → ℕ → ℕ → Option (Comms F) → Type 0
  Heard c d i j r =
      (e : Comms F) × (r ≡ some e)
      × (e.ghs_cfg ≡ c.ghs_cfg)
      × (kbps_to e j ≡ min (kbps_to c j) (kbps_to d i))

  read_step-Heard :
      (c d : Comms F) (i j : ℕ)
      → Linked c i j d.outgoing_seq
      → d.ghs_cfg.my_id ≡ pos j
      → j < 2 ^ 16
      → kbps_to d i < 2 ^ 32
      → Heard c d i j (read_step junk success (report junk d i) c)
  unfolding metrics_message copy_message take_message kbps_to read_step
  read_step-Heard c d i j h id b s = (
    heard,
    rw
        (
          recv-taken (report junk d i) (declared junk) c h.last
              (ap (get_elem? c.sequence_counters) from ∙ h.counter) h.fresh (omega arith),
          read_step,
        )
        refl,
    refl,
    new_cell c.kbps (to_u16 d.ghs_cfg.my_id) j _ from h.cell
        ∙ ap (min (get_or c.kbps j 0))
            (sent_kbps (get_or d.kbps i 0) (declared junk).bytes junk.bytes s),
  )
    where
      from : to_u16 d.ghs_cfg.my_id ≡ j
      from = ap to_u16 id ∙ of_small j b

      heard : Comms F
      heard =
          take_message metrics (copy_message (declared junk) (report junk d i))
            (recorded_at (report junk d i) c)

  -- Both ends hear each other's report, and then compute one metric.
  abbrev pub Agree :
      (ℕ → ℕ) → Comms F → Comms F → ℕ → ℕ → Option (Comms F) → Option (Comms F) → Type 0
  Agree quotient c d i j r t =
      (e : Comms F) × (f : Comms F) × (r ≡ some e)
      × (t ≡ some f)
      × (kbps_to e j ≡ min (kbps_to c j) (kbps_to d i))
      × (kbps_to f i ≡ min (kbps_to c j) (kbps_to d i))
      × (unique_link_metric_to quotient e j ≡ unique_link_metric_to quotient f i)

  -- Two agents with ids of 16 bits, a cell for each other's throughput of 32 bits, and nothing heard from
  -- each other that is newer: when each has read the report that the other sent before it read one, both
  -- have the smaller of the two throughputs, and the same metric for the link between them.
  pub exchange_agrees :
      (quotient : ℕ → ℕ) (c d : Comms F) (i j : ℕ)
      → Linked c i j d.outgoing_seq
      → Linked d j i c.outgoing_seq
      → Agree quotient c d i j
          (read_step junk success (report junk d i) c)
          (read_step junk success (report junk c j) d)
  unfolding unique_link_metric_to
  exchange_agrees quotient c d i j h k =
      let (e, p, same_c, x) = read_step-Heard c d i j h k.id k.small k.bits in
      let (f, q, same_d, y) = read_step-Heard d c j i k h.id h.small h.bits in
      let z = y ∙ min_comm (kbps_to d i) (kbps_to c j) in
      let id_e : to_u16 e.ghs_cfg.my_id ≡ i =
        ap (λ (g : Config F). to_u16 g.my_id) same_c ∙ ap to_u16 h.id ∙ of_small i h.small in
      let id_f : to_u16 f.ghs_cfg.my_id ≡ j =
        ap (λ (g : Config F). to_u16 g.my_id) same_d ∙ ap to_u16 k.id ∙ of_small j k.small in
      (
        e,
        f,
        p,
        q,
        x,
        z,
        rw (id_e, id_f, x, z) (sym_metric_comm quotient j i (min (kbps_to c j) (kbps_to d i))),
      )
