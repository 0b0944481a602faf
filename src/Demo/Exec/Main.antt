-- ===== src/Demo/Exec/Main.antt =====
-- src/demo/ghs-demo.h: `do_main`. The reader's thread changes `comms` between the rounds of the loop.
use distributed_leader_elect.Prelude.{
  ℕ, List, [], ◌∷◌, true, false, Option, none, some, pos, negsuc, eqb_ℤ, if◌then◌else◌,
}
use distributed_leader_elect.Msg.{Msg, blank_msg}
use distributed_leader_elect.Seque.{make}
use distributed_leader_elect.Ghs.State.{Ctx, Result, done, fail}
use distributed_leader_elect.Ghs.Peers.{construct}
use distributed_leader_elect.Ghs.Accessors.{is_converged}
use distributed_leader_elect.Ghs.Search.{start_round}
use distributed_leader_elect.Ghs.Process.{process}
use distributed_leader_elect.Demo.Config.{Config, Command, load, test, start, max_n, cfg_is_ok}
use distributed_leader_elect.Demo.Wire.{
  WireMessage, PayloadType, not_set, control, metrics, ping, ghs, other,
}
use distributed_leader_elect.Demo.Comms.{Comms}
use distributed_leader_elect.Demo.Comms.Receive.{NngCode, read_loop, get_next}
use distributed_leader_elect.Demo.Comms.Send.{Attempt}
use distributed_leader_elect.Demo.Comms.Measure.{little_iperf, exchange_iperf}
use distributed_leader_elect.Demo.Exec.{Exec, initialize_ghs}
use distributed_leader_elect.Demo.Exec.Outgoing.{send_all}

-- `COMMS_Q_SZ`.
abbrev pub comms_q_sz : ℕ
comms_q_sz = 256

-- The program goes on, or `do_main` returns the code.
pub data Flow (F : Type 0) : Type 0 where
  goes : Exec F → Flow F
  returned : ℕ → Exec F → Flow F

-- What the network does up to the end of a round: what the reader receives before it, and how the
-- sendings in it go.
pub record Net : Type 0 where
  pub received : List (NngCode × WireMessage)
  pub attempts : ℕ → Attempt

-- `stop_receiver`.
abbrev pub stopped : {F : Type 0} → Exec F → Exec F
stopped x = record x { comms = record x.comms { read_continues = false } }

-- `decode` is `from_bytes`, on the payload's array, which has room for a `Msg`, and the payload's size.
module _ (decode : List ℕ → ℕ → Msg) {F : Type 0} where
  abbrev pub after_process : Exec F → Result (Unit {0}) × Ctx → Flow F
  after_process x (done _, c) = goes (record x { agent = c })
  after_process x (fail e, c) = returned 1 (record x { agent = c })

  -- A message from the reader, by its type.
  unfoldable pub handle_typed : PayloadType → WireMessage → Exec F → Flow F
  handle_typed control m x = goes x
  handle_typed ghs m x =
      after_process x (process (decode m.bytes m.header.payload_size) (record x.agent { qsz = 0 }))
  handle_typed not_set m x = goes (record x { wegood = false })
  handle_typed metrics m x = goes (record x { wegood = false })
  handle_typed ping m x = goes (record x { wegood = false })
  handle_typed (other _) m x = goes (record x { wegood = false })

  -- It has none where the assertion on the receiver fails.
  unfoldable pub handle : WireMessage → Exec F → Option (Flow F)
  unfolding handle_typed
  handle m x =
      if eqb_ℤ (pos m.header.agent_to) x.config.my_id
      then some (handle_typed m.header.type m x)
      else none

  -- The next message, if there is one.
  unfoldable pub take_next : Exec F → Option (Flow F)
  unfolding handle
  take_next x =
      let (ok, item, c) = get_next x.comms in
      let y = record x { comms = c } in
      if ok then elim item [ none ↦ none | some m ↦ handle m y ] else some (goes y)

  -- The test at the end of a round.
  abbrev pub stop_if_converged : Exec F → Exec F
  stop_if_converged x = if is_converged x.agent.state then record x { wegood = false } else x

  module _ (encode : Msg → List ℕ) (junk : WireMessage) where
    abbrev pub finish_round : Option (List WireMessage × Exec F) → Option (Flow F)
    finish_round none = none
    finish_round (some (wire, x)) = some (goes (stop_if_converged x))

    abbrev pub send_then_finish : (ℕ → Attempt) → Option (Flow F) → Option (Flow F)
    send_then_finish net none = none
    send_then_finish net (some (returned n x)) = some (returned n x)
    send_then_finish net (some (goes x)) = finish_round (send_all encode junk net x)

    -- One round of the loop.
    unfoldable pub main_round : (ℕ → Attempt) → Exec F → Option (Flow F)
    unfolding take_next send_all
    main_round net x = send_then_finish net (take_next x)

    abbrev pub while_reading : Net → Exec F → Option (Exec F)
    while_reading n x = elim (read_loop junk n.received x.comms) [
      | none ↦ none
      | some c ↦ some (record x { comms = c })
    ]

    -- The loop. With no `Net` left the program is still in it.
    unfoldable pub main_loop : List Net → Exec F → Option (Flow F)
    unfolding main_round
    main_loop [] x = some (if x.wegood then goes x else returned 0 (stopped x))
    main_loop (n ∷ ns) x = elim x.wegood [
      | false ↦ some (returned 0 (stopped x))
      | true ↦ elim (while_reading n x) [
        | none ↦ none
        | some y ↦ elim (main_round n.attempts y) [
          | none ↦ none
          | some (returned k z) ↦ some (returned k z)
          | some (goes z) ↦ main_loop ns z
        ]
      ]
    ]

-- `GhsState<MAX_N,COMMS_Q_SZ> ghsp(-1,{},0)` and the empty `ghs_buf`.
abbrev pub no_agent_yet : Ctx
no_agent_yet = record {
  state = construct max_n (negsuc 0) [];
  buf = make blank_msg comms_q_sz;
  qsz = 0;
}

-- What the reader receives before, between and after the two measurements, and how the sendings in them
-- go.
pub record Measurements : Type 0 where
  pub early : List (NngCode × WireMessage)
  pub pings : ℕ → ℕ → Attempt
  pub between : List (NngCode × WireMessage)
  pub exchange : ℕ → Attempt
  pub late : List (NngCode × WireMessage)

module _ (quotient : ℕ → ℕ) {F : Type 0} where
  abbrev pub after_start : Config F → Comms F → Result (Unit {0}) × Ctx → Flow F
  after_start cfg c (done _, a) =
      goes (record { config = cfg; comms = c; agent = a; wegood = true })
  after_start cfg c (fail e, a) =
      returned 1 (record { config = cfg; comms = c; agent = a; wegood = true })

  -- From the object that no agent has yet, to the loop.
  unfoldable pub prepare : Config F → Comms F → Command → Flow F
  unfolding initialize_ghs
  prepare cfg c start =
      after_start cfg c
        (start_round (record no_agent_yet { state = initialize_ghs quotient cfg c }))
  prepare cfg c load =
      goes (record { config = cfg; comms = c; agent = no_agent_yet; wegood = true })
  prepare cfg c test =
      goes (record { config = cfg; comms = c; agent = no_agent_yet; wegood = true })

  module _ (header_sz control_sz : ℕ) (faster : ℕ → ℕ → ℕ → ℕ) (junk : WireMessage) where
    abbrev pub then_read : List (NngCode × WireMessage) → Option (Comms F) → Option (Comms F)
    then_read es none = none
    then_read es (some c) = read_loop junk es c

    abbrev pub then_exchange : (ℕ → Attempt) → Option (Comms F) → Option (Comms F)
    then_exchange net none = none
    then_exchange net (some c) = elim (exchange_iperf junk net c) [
      | none ↦ none
      | some (d, wire) ↦ some d
    ]

    abbrev pub then_ping : (ℕ → ℕ → Attempt) → Option (Comms F) → Option (Comms F)
    then_ping net none = none
    then_ping net (some c) = little_iperf header_sz control_sz faster junk net c

    -- `start_receiver`, `little_iperf` and `exchange_iperf`.
    unfoldable pub measure : Measurements → Comms F → Option (Comms F)
    measure ms c = then_read ms.late (
        then_exchange ms.exchange (
          then_read ms.between
            (then_ping ms.pings (read_loop junk ms.early (record c { read_continues = true })))))

    module _ (encode : Msg → List ℕ) (decode : List ℕ → ℕ → Msg) where
      abbrev pub run_flow : List Net → Flow F → Option (Flow F)
      run_flow ns (returned k x) = some (returned k x)
      run_flow ns (goes x) = main_loop decode encode junk ns x

      abbrev pub run_measured : Config F → List Net → Option (Comms F) → Option (Flow F)
      run_measured cfg ns none = none
      run_measured cfg ns (some c) = run_flow ns (prepare cfg c cfg.command)

      -- `do_main` behind the reading of the configuration, which `with_config` copies to `comms`. A bad
      -- configuration, and a test run, which only measures, end the program before the loop.
      unfoldable pub do_main : Config F → Comms F → Measurements → List Net → Option (Flow F)
      unfolding measure prepare main_loop
      do_main cfg fresh ms ns =
          let c = record fresh { ghs_cfg = cfg } in
          let idle : Exec F = record {
            config = cfg;
            comms = c;
            agent = no_agent_yet;
            wegood = true;
          } in
          elim (cfg_is_ok cfg) [
            | none ↦ none
            | some false ↦ some (returned 1 idle)
            | some true ↦
                if eqb_ℤ cfg.run_test (pos 1)
                then elim (measure ms c) [
                  | none ↦ none
                  | some d ↦ some (returned 0 (stopped (record idle { comms = d })))
                ]
                else run_measured cfg ns (measure ms c)
          ]
