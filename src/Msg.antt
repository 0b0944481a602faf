-- ===== src/Msg.antt =====
-- include/ghs/msg.h and src/lib/msg.cpp: the messages that agents exchange.
use distributed_leader_elect.Edge.{Agent, Level, Metric, no_agent}

-- `enum msg::Type`.
pub data MsgType : Type 0 where
  unassigned noop srch srch_ret in_part ack_part nack_part join_us : MsgType

pub record SrchPayload : Type 0 where
  pub your_leader : Agent
  pub your_level : Level

pub record SrchRetPayload : Type 0 where
  pub to : Agent
  pub from : Agent
  pub metric : Metric

pub record InPartPayload : Type 0 where
  pub leader : Agent
  pub level : Level

pub record JoinUsPayload : Type 0 where
  pub join_peer : Agent
  pub join_root : Agent
  pub proposed_leader : Agent
  pub proposed_level : Level

-- `union Data`, by its active member.
pub data Payload : Type 0 where
  noop_data ack_part_data nack_part_data : Payload
  srch_data : SrchPayload → Payload
  srch_ret_data : SrchRetPayload → Payload
  in_part_data : InPartPayload → Payload
  join_us_data : JoinUsPayload → Payload

-- `class Msg`.
pub record Msg : Type 0 where
  pub to : Agent
  pub from : Agent
  pub type : MsgType
  pub payload : Payload

-- The type that goes with the active member.
abbrev pub type_of : Payload → MsgType
type_of noop_data = noop
type_of ack_part_data = ack_part
type_of nack_part_data = nack_part
type_of (srch_data p) = srch
type_of (srch_ret_data p) = srch_ret
type_of (in_part_data p) = in_part
type_of (join_us_data p) = join_us

-- `Msg()`. Its union is not set; nothing reads it.
abbrev pub blank_msg : Msg
blank_msg = record { to = no_agent; from = no_agent; type = unassigned; payload = noop_data }

-- The constructors for one payload each: the type is the payload's.
abbrev pub msg : Agent → Agent → Payload → Msg
msg to from p = record { to = to; from = from; type = type_of p; payload = p }

-- `Msg(to, from, Type, Data)`: any type with any data.
abbrev pub msg_typed : Agent → Agent → MsgType → Payload → Msg
msg_typed to from t p = record { to = to; from = from; type = t; payload = p }

-- `Msg(to, from, const Msg&)`: the same type and data, redirected.
unfoldable pub redirect : Agent → Agent → Msg → Msg
redirect to from m = record m { to = to; from = from }
