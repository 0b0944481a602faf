-- ===== src/Demo/Comms/Fresh.antt =====
-- `read_loop`: which messages get through.
use distributed_leader_elect.Prelude.{
  ℕ, zero, suc, ◌≤◌, ◌<◌, ◌≡◌, refl, ◌∙◌, sym, List, [], ◌∷◌, Bool, true, false, ◌&&◌, Option, none,
  some, map, ◌⊎◌, ◌++◌, ◌+◌, length, ap, Bool-cases, inl, inr, replicate, get_or, if◌then◌else◌,
  arith,
}
use distributed_leader_elect.Seque.{StaticQueue, push}
use distributed_leader_elect.Seque.Inv.{IsValid}
use distributed_leader_elect.Seque.Refine.{contents}
use distributed_leader_elect.Seque.Run.{push_all, contents-push_all}
use distributed_leader_elect.Demo.Wire.{
  payload_max_sz, WireMessage, PayloadType, not_set, control, metrics, ping, ghs, other,
  comms_demo_max_n, declared, copy_message,
}
use distributed_leader_elect.Demo.Comms.{Comms}
use distributed_leader_elect.Demo.Comms.Receive.{
  NngCode, success, nonfatal, recv_error, recv, take_message, read_step, read_loop,
}
use mathlib.Core.Path.{subst}
use distributed_leader_elect.Demo.Comms.Sequence.{
  is_new, recorded_at, Tracks, Tracks-new, Tracks-old, recv-new, recv-old,
}

abbrev pub is_ghs : PayloadType → Bool
is_ghs ghs = true
is_ghs _ = false

-- The messages for the agent among those that are new when they arrive.
unfoldable pub new_messages : List WireMessage → List WireMessage → List WireMessage
new_messages earlier [] = []
new_messages earlier (m ∷ ms) =
    let rest = new_messages (m ∷ earlier) ms in
    if is_new earlier m && is_ghs m.header.type then m ∷ rest else rest

-- The messages that `nng_recv` delivers.
unfoldable pub heard : List (NngCode × WireMessage) → List WireMessage
heard [] = []
heard ((code, m) ∷ es) = elim (recv_error code) [ none ↦ m ∷ heard es | some r ↦ heard es ]

heard-idle :
    (code : NngCode) (m : WireMessage) (es : List (NngCode × WireMessage))
    → recv_error code ≡ some nonfatal
    → heard ((code, m) ∷ es) ≡ heard es
unfolding heard
heard-idle code m es h = rw (h, heard) refl

-- No call of `nng_recv` fails for good, and every message is from an agent that has a counter
-- and has no larger payload than there is room for.
abbrev pub Arrives : List (NngCode × WireMessage) → Type 0
Arrives [] = Unit {0}
Arrives ((code, m) ∷ es) =
    ((recv_error code ≡ some nonfatal)
      ⊎ ((recv_error code ≡ none)
          × (m.header.agent_from < comms_demo_max_n)
          × (m.header.payload_size ≤ payload_max_sz)))
    × Arrives es

recv_error-success : (code : NngCode) → recv_error code ≡ none → code ≡ success
unfolding recv_error
recv_error-success success h = refl
recv_error-success NngCode.eagain h = cc
recv_error-success NngCode.etimedout h = cc
recv_error-success NngCode.eclosed h = cc
recv_error-success NngCode.einval h = cc
recv_error-success NngCode.emsgsize h = cc
recv_error-success NngCode.enomem h = cc
recv_error-success NngCode.enotsup h = cc
recv_error-success NngCode.estate h = cc
recv_error-success (NngCode.another _) h = cc

-- What is written to the queue for each message.
abbrev pub written : WireMessage → List WireMessage → List WireMessage
written junk ms = map (copy_message (declared junk)) ms

-- One more message for the agent, or none.
written-step :
    (junk : WireMessage) (earlier ms : List WireMessage) (m : WireMessage)
    (q : StaticQueue WireMessage)
    → is_new earlier m ≡ true
    → push_all
        (if is_ghs m.header.type then (push q (copy_message (declared junk) m)).1 else q)
        (written junk (new_messages (m ∷ earlier) ms))
      ≡ push_all q (written junk (new_messages earlier (m ∷ ms)))
unfolding new_messages push_all
written-step junk earlier ms m q new = elim (Bool-cases (is_ghs m.header.type)) [
  | inl y ↦ rw (new, y) refl
  | inr y ↦ rw (new, y) refl
]

get_or-replicate : (n k i : ℕ) → get_or (replicate n k) i k ≡ k
get_or-replicate zero k i = refl
get_or-replicate (suc n) k zero = refl
get_or-replicate (suc n) k (suc i) = get_or-replicate n k i

at_zero : Tracks (replicate comms_demo_max_n 0) []
unfolding is_new
at_zero = record {
  size = refl;
  tells = λ m b. rw (get_or-replicate comms_demo_max_n 0 m.header.agent_from) refl;
}

module _ {F : Type 0} where
  -- What a message of a type does to the queue, and what it leaves alone.
  abbrev Taken : PayloadType → WireMessage → Comms F → Comms F → Type 0
  Taken t m c d =
      (d.in_q ≡ (if is_ghs t then (push c.in_q m).1 else c.in_q))
      × (d.sequence_counters ≡ c.sequence_counters)
      × (d.read_continues ≡ c.read_continues)

  take_message-Taken :
      (t : PayloadType) (m : WireMessage) (c : Comms F) → Taken t m c (take_message t m c)
  unfolding take_message
  take_message-Taken not_set m c = (refl, refl, refl)
  take_message-Taken control m c = (refl, refl, refl)
  take_message-Taken metrics m c = (refl, refl, refl)
  take_message-Taken ping m c = (refl, refl, refl)
  take_message-Taken ghs m c = (refl, refl, refl)
  take_message-Taken (other _) m c = (refl, refl, refl)

  -- The reader has gone on, and has pushed the messages; a push to a full queue has no effect.
  abbrev Queued : List WireMessage → Comms F → Option (Comms F) → Type 0
  Queued ms c r = (d : Comms F) × (r ≡ some d) × (d.in_q ≡ push_all c.in_q ms)

  read_step-idle :
      (junk : WireMessage) (code : NngCode) (m : WireMessage) (c : Comms F)
      → recv_error code ≡ some nonfatal
      → read_step junk code m c ≡ some c
  unfolding read_step recv
  read_step-idle junk code m c h = rw (h, read_step, recv) refl

  read_step-new :
      (junk : WireMessage) (earlier : List WireMessage) (m : WireMessage) (c : Comms F)
      → Tracks c.sequence_counters earlier
      → m.header.agent_from < comms_demo_max_n
      → is_new earlier m ≡ true
      → m.header.payload_size ≤ payload_max_sz
      → read_step junk success m c
        ≡ some (take_message m.header.type (copy_message (declared junk) m) (recorded_at m c))
  unfolding read_step copy_message
  read_step-new junk earlier m c t b new fits =
      rw (recv-new earlier m (declared junk) c t b new fits, read_step) refl

  read_step-old :
      (junk : WireMessage) (earlier : List WireMessage) (m : WireMessage) (c : Comms F)
      → Tracks c.sequence_counters earlier
      → m.header.agent_from < comms_demo_max_n
      → is_new earlier m ≡ false
      → read_step junk success m c ≡ some c
  unfolding read_step
  read_step-old junk earlier m c t b old =
      rw (recv-old earlier m (declared junk) c t b old, read_step) refl

  read_loop-step :
      (junk : WireMessage) (code : NngCode) (m : WireMessage) (es : List (NngCode × WireMessage))
      (c d : Comms F)
      → c.read_continues ≡ true
      → read_step junk code m c ≡ some d
      → read_loop junk ((code, m) ∷ es) c ≡ read_loop junk es d
  unfolding read_loop
  read_loop-step junk code m es c d g h = simp (g, h, read_loop) refl

  read_loop-Queued :
      (junk : WireMessage) (earlier : List WireMessage) (es : List (NngCode × WireMessage))
      (c : Comms F)
      → Tracks c.sequence_counters earlier
      → c.read_continues ≡ true
      → Arrives es
      → Queued (written junk (new_messages earlier (heard es))) c (read_loop junk es c)
  unfolding heard recv_error new_messages push_all
  read_loop-Queued junk earlier [] c t g a = (c, unfold read_loop in refl, refl)
  read_loop-Queued junk earlier ((code, m) ∷ es) c t g (inl idle, a) =
      rw
        (
          read_loop-step junk code m es c c g (read_step-idle junk code m c idle),
          heard-idle code m es idle,
        )
        (read_loop-Queued junk earlier es c t g a)
  read_loop-Queued junk earlier ((code, m) ∷ es) c t g (inr (fine, b, fits), a) =
      elim (Bool-cases (is_new earlier m)) [
        | inl new ↦
            let d = take_message m.header.type (copy_message (declared junk) m) (recorded_at m c) in
            let (queue, counters, going) =
              take_message-Taken m.header.type (copy_message (declared junk) m) (recorded_at m c) in
            let (e, r, q) =
              read_loop-Queued junk (m ∷ earlier) es d
                (rw counters
                  (Tracks-new c.sequence_counters earlier m t b (ground (arith, t.tells m b, new))))
                (going ∙ g) a in
            rw
              (
                recv_error-success code fine,
                read_loop-step junk success m es c d g
                    (read_step-new junk earlier m c t b new fits),
              )
              (e, r, q ∙ rw queue (written-step junk earlier (heard es) m c.in_q new))
        | inr old ↦
            let (e, r, q) =
              read_loop-Queued junk (m ∷ earlier) es c
                (Tracks-old c.sequence_counters earlier m t (ground (arith, t.tells m b, old))) g
                a in
            rw
              (
                recv_error-success code fine,
                read_loop-step junk success m es c c g (read_step-old junk earlier m c t b old),
                old,
              )
              (e, r, q)
      ]

  -- While no call of `nng_recv` fails for good, and every message is from an agent that has a counter and
  -- says that its payload fits: from counters of 0 on, and from a well-formed queue with room for all of
  -- them, the loop appends to its queue, in the order in which they arrive, the messages for the leader
  -- election whose sequence is not 0 and higher than that of every earlier message of the same sender, and
  -- no others.
  pub read_loop-Fresh :
      (junk : WireMessage) (es : List (NngCode × WireMessage)) (c : Comms F)
      → let ms = written junk (new_messages [] (heard es)) in
        c.sequence_counters ≡ replicate comms_demo_max_n 0
        → c.read_continues ≡ true
        → Arrives es
        → IsValid c.in_q
        → c.in_q.count + length ms ≤ c.in_q.capacity
        → (d : Comms F) × (read_loop junk es c ≡ some d) × (contents d.in_q ≡ contents c.in_q ++ ms)
  read_loop-Fresh junk es c z g a v room =
      let ms = written junk (new_messages [] (heard es)) in
      let (d, ends, queue) =
        read_loop-Queued junk [] es c (subst (λ ks. Tracks ks []) (sym z) at_zero) g a in
      (d, ends, ap (λ q. contents q) queue ∙ contents-push_all c.in_q ms v room)
