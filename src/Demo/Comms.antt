-- ===== src/Demo/Comms.antt =====
-- src/demo/ghs-demo-comms.h: the fields of `Comms`. The nng library is a parameter: what its calls
-- return is an argument of the operations that make them.
pub mod Receive
pub mod Setup
pub mod Send
pub mod Measure
pub mod Sequence
pub mod Fresh
pub mod Lost
pub mod Agree
use distributed_leader_elect.Prelude.{ℕ, List, Bool}
use distributed_leader_elect.Seque.{StaticQueue}
use distributed_leader_elect.Demo.Config.{Config}
use distributed_leader_elect.Demo.Wire.{WireMessage}

-- The sockets, the thread and the locks are left out. `F` stands for `float`.
pub record Comms (F : Type 0) : Type 0 where
  pub in_q : StaticQueue WireMessage
  pub read_continues : Bool
  pub ghs_cfg : Config F
  pub outgoing_seq : ℕ
  pub sequence_counters : List ℕ
  pub kbps : List ℕ
