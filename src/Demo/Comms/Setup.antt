-- ===== src/Demo/Comms/Setup.antt =====
-- src/demo/ghs-demo-comms.cpp: the constructor, the sockets, the thread. What the nng library
-- returns is a parameter; `none` is a failed assertion.
use distributed_leader_elect.Prelude.{
  ℕ, Bool, true, false, ◌&&◌, Option, none, some, ℤ, pos, negsuc, eqb_ℤ, get_or, if◌then◌else◌, [],
}
use distributed_leader_elect.Demo.Config.{Config, Text, cfg_is_ok}
use distributed_leader_elect.Demo.Comms.{Comms}

-- The ids of the sockets and of the listener; -1 is none.
pub record Sockets : Type 0 where
  pub incoming : ℤ
  pub outgoing : ℤ
  pub ghs_listener : ℤ

-- What the calls return, and the ids that the successful ones give.
pub record Nng : Type 0 where
  pub rep0_open : ℤ
  pub req0_open : ℤ
  pub set_recv_timeout : ℤ
  pub set_send_timeout : ℤ
  pub listener_close : ℤ
  pub listener_create : Text → ℤ
  pub listener_start : ℤ
  pub new_incoming : ℤ
  pub new_outgoing : ℤ
  pub new_listener : ℤ

abbrev pub is_none : ℤ → Bool
is_none id = eqb_ℤ id (negsuc 0)

abbrev pub is_zero : ℤ → Bool
is_zero code = eqb_ℤ code (pos 0)

-- The two halves of `validate_sockets`.
unfoldable pub validate_incoming : Nng → Sockets → Option Sockets
validate_incoming nng s =
    if is_none s.incoming
    then (if is_zero nng.rep0_open && is_zero nng.set_recv_timeout
        then some (record s { incoming = nng.new_incoming })
        else none)
    else some s

unfoldable pub validate_outgoing : Nng → Sockets → Option Sockets
validate_outgoing nng s =
    if is_none s.outgoing
    then (if is_zero nng.req0_open && is_zero nng.set_send_timeout
        then some (record s { outgoing = nng.new_outgoing })
        else none)
    else some s

unfoldable pub validate_sockets : Nng → Sockets → Option Sockets
unfolding validate_incoming validate_outgoing
validate_sockets nng s = elim (validate_incoming nng s) [
  | none ↦ none
  | some s' ↦ validate_outgoing nng s'
]

-- A listener that is there already is closed.
abbrev pub can_listen : Nng → Sockets → Bool
can_listen nng s = if is_none s.ghs_listener then true else is_zero nng.listener_close

abbrev pub endpoint_at : {F : Type 0} → Config F → ℕ → Text
endpoint_at c i = get_or c.endpoints i []

-- The endpoint of this agent: `cfg_is_ok` is true, so the id is in range.
abbrev pub own_endpoint : {F : Type 0} → Config F → Text
own_endpoint c = elim c.my_id [ pos i ↦ endpoint_at c i | negsuc _ ↦ [] ]

-- `assert(cfg_is_ok(config))`, and no read past the array of endpoints.
abbrev is_true : Option Bool → Bool
is_true (some b) = b
is_true none = false

module _ {F : Type 0} where
  -- `Comms()`: of the other fields, those without an initialiser have any value.
  unfoldable pub constructed : Comms F → Comms F
  constructed junk = record junk { outgoing_seq = 1 }

  unfoldable pub with_config : Nng → Config F → Sockets × Comms F → Option (Sockets × Comms F)
  unfolding validate_sockets
  with_config nng cfg (s, c) = elim (validate_sockets nng s) [
    | none ↦ none
    | some s' ↦
        if is_true (cfg_is_ok cfg)
          && can_listen nng s'
          && is_zero (nng.listener_create (own_endpoint cfg))
          && is_zero nng.listener_start
        then some (record s' { ghs_listener = nng.new_listener }, record c { ghs_cfg = cfg })
        else none
  ]

  -- The thread itself is `read_loop`.
  unfoldable pub start_receiver : Comms F → Comms F
  start_receiver c = record c { read_continues = true }

  unfoldable pub stop_receiver : Comms F → Comms F
  stop_receiver c = record c { read_continues = false }
