-- ===== src/Demo/Wire.antt =====
-- src/demo/ghs-demo-comms.h: the messages on the network, and the codes of `Comms`.
use distributed_leader_elect.Prelude.{
  ℕ, ◌+◌, ◌-◌, ◌*◌, ◌/◌, ◌%◌, ◌^◌, ◌<◌, ◌≡◌, List, [], ◌∷◌, ◌++◌, ℤ, pos, negsuc, length, take,
  drop, arith,
}

-- `COMMS_DEMO_MAX_N` and `PAYLOAD_MAX_SZ`.
abbrev pub comms_demo_max_n : ℕ
comms_demo_max_n = 8

abbrev pub payload_max_sz : ℕ
payload_max_sz = 1024

-- `demo::Errno`.
pub data CommsErrno : Type 0 where
  ok err_bad_payload_sz err_no_payload_type err_unrecognized_payload_type : CommsErrno
  err_null_src err_dest_unset err_hangup err_nng : CommsErrno

-- The field holds whatever a peer has sent: `other` is a number that the enumeration has no name for.
pub data PayloadType : Type 0 where
  not_set control metrics ping ghs : PayloadType
  other : ℕ → PayloadType

-- `MESSAGE_DEST_UNSET`, an `int`.
abbrev pub message_dest_unset : ℤ
message_dest_unset = negsuc 0

-- An `int` that is stored in 16 bits without a sign.
abbrev pub to_u16 : ℤ → ℕ
to_u16 (pos n) = n % 2 ^ 16
to_u16 (negsuc n) = 2 ^ 16 - 1 - n % 2 ^ 16

-- `Header`; all fields but the type are 16 bits wide.
pub record Header : Type 0 where
  pub agent_to : ℕ
  pub agent_from : ℕ
  pub type : PayloadType
  pub payload_size : ℕ

-- `Control`; the counter is a `size_t`.
pub record Control : Type 0 where
  pub sequence : ℕ

pub record WireMessage : Type 0 where
  pub control : Control
  pub header : Header
  pub bytes : List ℕ

-- A message as it is declared: the initialisers of its members; `junk` is what is in the memory of
-- those that have none.
abbrev pub declared : WireMessage → WireMessage
declared junk = record {
  control = record { sequence = 0 };
  header = record {
    agent_to = to_u16 message_dest_unset;
    agent_from = junk.header.agent_from;
    type = not_set;
    payload_size = 0;
  };
  bytes = junk.bytes;
}

-- `size()`; the sizes of `Header` and `Control` are the compiler's.
module _ (header_sz control_sz : ℕ) where
  unfoldable pub wire_size : WireMessage → ℕ
  wire_size m = header_sz + control_sz + m.header.payload_size

-- `memmove` of bytes to the front of an array.
abbrev pub overwrite : List ℕ → List ℕ → List ℕ
overwrite new old = new ++ drop (length new) old

-- `memmove` of the first `size()` bytes of a message over another: the control and header, and as much
-- of the payload as the header says.
unfoldable pub copy_message : WireMessage → WireMessage → WireMessage
copy_message to from = record from {
  bytes = overwrite (take from.header.payload_size from.bytes) to.bytes;
}

-- The memory of a `Kbps`, and the `Kbps` in four bytes of memory; the lowest byte comes first.
unfoldable pub kbps_bytes : ℕ → List ℕ
kbps_bytes n = (n % 2 ^ 8) ∷ (n / 2 ^ 8 % 2 ^ 8) ∷ (n / 2 ^ 16 % 2 ^ 8) ∷ (n / 2 ^ 24 % 2 ^ 8) ∷ []

unfoldable pub word_of : List ℕ → ℕ
word_of [] = 0
word_of (b ∷ bs) = b + 2 ^ 8 * word_of bs

pub word_of-kbps_bytes : (n : ℕ) → n < 2 ^ 32 → word_of (kbps_bytes n) ≡ n
unfolding word_of kbps_bytes
word_of-kbps_bytes n h = omega arith
