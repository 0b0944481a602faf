-- ===== src/Demo/Comms/Lost.antt =====
-- `send` and `recv` together: a confirmation that does not arrive, and a destination that is not set.
use distributed_leader_elect.Prelude.{
  ℕ, zero, suc, ◌+◌, ◌%◌, ◌^◌, ◌≤◌, ◌<◌, ◌≡◌, ◌≢◌, refl, ◌∙◌, ap, sym, List, [], ◌∷◌, Option, none,
  some, false, ◌==◌, ==_iff, eqb_ℤ, length, get_elem?, get_elem?_in, get_elem?-beyond, set,
  get_elem?-set_self, arith, ◌⊎◌, Bool-cases, inl, inr,
}
use distributed_leader_elect.Demo.Wire.{
  payload_max_sz, CommsErrno, ok, err_nng, WireMessage, ghs, message_dest_unset, to_u16,
  copy_message,
}
use distributed_leader_elect.Demo.Comms.{Comms}
use distributed_leader_elect.Demo.Comms.Send.{
  Attempt, Sending, numbered, failed, internal_send, send_typed, send,
}
use distributed_leader_elect.Demo.Comms.Receive.{success, nonfatal, taken, recv}
use distributed_leader_elect.Demo.Comms.Sequence.{recorded_at, recv-taken, recv-dropped}

pub get_elem?_bound : (xs : List ℕ) (i k : ℕ) → get_elem? xs i ≡ some k → i < length xs
get_elem?_bound [] i k h = cc
get_elem?_bound (x ∷ xs) zero k h = omega arith
get_elem?_bound (x ∷ xs) (suc i) k h = omega (arith, get_elem?_bound xs i k h)

-- The message is one for the leader election, to an agent with an endpoint.
pub record Sendable {F : Type 0} (c : Comms F) (m : WireMessage) : Type 0 where
  pub for_ghs : m.header.type ≡ ghs
  pub known : m.header.agent_to < length c.ghs_cfg.endpoints

-- Then `send` is `internal_send`.
pub send-Sendable :
    {F : Type 0} (c : Comms F) (m : WireMessage) (a : Attempt)
    → Sendable c m
    → send c m a ≡ internal_send c m a
unfolding send send_typed eqb_ℤ
send-Sendable c m a s =
    let (e, at) = get_elem?_in c.ghs_cfg.endpoints m.header.agent_to s.known in
    rw (s.for_ghs, at) refl

-- The message goes out and is confirmed.
pub record Confirmed (a : Attempt) : Type 0 where
  pub creates : a.created ≡ 0
  pub starts : a.started ≡ 0
  pub sends : a.sent ≡ 0
  pub receives : a.confirmed ≡ 0
  pub echoes : (n : ℕ) → a.return_seq n ≡ n

-- The message goes out, and its confirmation does not come back.
pub record Unconfirmed (a : Attempt) : Type 0 where
  pub creates : a.created ≡ 0
  pub starts : a.started ≡ 0
  pub sends : a.sent ≡ 0
  pub fails : a.confirmed ≢ 0

-- The call has this code, hands the message to the network with the object's sequence, and leaves this
-- sequence behind.
abbrev pub Sends :
    {F : Type 0} → Comms F → WireMessage → CommsErrno → ℕ → Option (Sending F) → Type 0
Sends {F} c m e seq r =
    (s : Sending F) × (r ≡ some s)
    × (s.code ≡ e)
    × (s.on_wire ≡ numbered c m ∷ [])
    × (s.comms ≡ record c { outgoing_seq = seq })

module _ {F : Type 0} where
  pub internal_send-Confirmed :
      (c : Comms F) (m : WireMessage) (a : Attempt)
      → Confirmed a
      → Sends c m ok ((c.outgoing_seq + 1) % 2 ^ 64) (internal_send c m a)
  unfolding internal_send
  internal_send-Confirmed c m a h = (
    record {
      code = ok;
      message = numbered c m;
      us_rt = some a.elapsed;
      on_wire = numbered c m ∷ [];
      comms = record c { outgoing_seq = (c.outgoing_seq + 1) % 2 ^ 64 };
    },
    rw
        (
          (==_iff a.created 0).1 h.creates,
          (==_iff a.started 0).1 h.starts,
          (==_iff a.sent 0).1 h.sends,
          (==_iff a.confirmed 0).1 h.receives,
          (==_iff (a.return_seq c.outgoing_seq) c.outgoing_seq).1 (h.echoes c.outgoing_seq),
        )
        refl,
    refl,
    refl,
    refl,
  )

  pub internal_send-Unconfirmed :
      (c : Comms F) (m : WireMessage) (a : Attempt)
      → Unconfirmed a
      → Sends c m err_nng c.outgoing_seq (internal_send c m a)
  unfolding internal_send
  internal_send-Unconfirmed c m a h =
      let no : (a.confirmed == 0) ≡ false = ground (arith, h.fails) in
      (
        failed c (numbered c m) (numbered c m ∷ []),
        rw
            (
              (==_iff a.created 0).1 h.creates,
              (==_iff a.started 0).1 h.starts,
              (==_iff a.sent 0).1 h.sends,
              no,
            )
            refl,
        refl,
        refl,
        refl,
      )

  -- What can become of a message: it goes out and is confirmed, or there is an error, whether or not it
  -- went out.
  abbrev pub Fate : Comms F → WireMessage → Option (Sending F) → Type 0
  Fate c m r =
      (s : Sending F) × (r ≡ some s)
      × (s.comms.ghs_cfg ≡ c.ghs_cfg)
      × (((s.code ≡ ok)
            × (s.on_wire ≡ numbered c m ∷ [])
            × (s.comms.outgoing_seq ≡ (c.outgoing_seq + 1) % 2 ^ 64))
          ⊎ ((s.code ≡ err_nng)
              × ((s.on_wire ≡ []) ⊎ (s.on_wire ≡ numbered c m ∷ []))
              × (s.comms.outgoing_seq ≡ c.outgoing_seq)))

  pub internal_send-Fate :
      (c : Comms F) (m : WireMessage) (a : Attempt)
      → ((n : ℕ) → a.return_seq n ≡ n)
      → Fate c m (internal_send c m a)
  unfolding internal_send
  internal_send-Fate c m a h =
      let lost = failed c (numbered c m) [] in
      let unheard = failed c (numbered c m) (numbered c m ∷ []) in
      elim (Bool-cases (a.created == 0)) [
        | inr e ↦ rw e (lost, refl, refl, inr (refl, inl refl, refl))
        | inl e ↦ rw e (elim (Bool-cases (a.started == 0)) [
          | inr f ↦ rw f (lost, refl, refl, inr (refl, inl refl, refl))
          | inl f ↦ rw f (elim (Bool-cases (a.sent == 0)) [
            | inr g ↦ rw g (lost, refl, refl, inr (refl, inl refl, refl))
            | inl g ↦ rw g (elim (Bool-cases (a.confirmed == 0)) [
              | inr k ↦ rw k (unheard, refl, refl, inr (refl, inr refl, refl))
              | inl k ↦
                  rw (k, (==_iff (a.return_seq c.outgoing_seq) c.outgoing_seq).1 (h c.outgoing_seq))
                    (_, refl, refl, inl (refl, refl, refl))
            ])
          ])
        ])
      ]

  -- The one after the other: the first `send` reports an error, the second success; of the two messages
  -- on the network the receiver takes the first, and drops the second.
  abbrev pub Loses :
      Comms F → WireMessage → WireMessage → Attempt → Attempt → Comms F → WireMessage → Type 0
  Loses c m n a b r buf =
      (s : Sending F) × (t : Sending F) × (send c m a ≡ some s)
      × (send s.comms n b ≡ some t)
      × (s.code ≡ err_nng)
      × (t.code ≡ ok)
      × (s.on_wire ≡ numbered c m ∷ [])
      × (t.on_wire ≡ numbered c n ∷ [])
      × (recv success (numbered c m) buf r
          ≡ some (taken, copy_message buf (numbered c m), recorded_at (numbered c m) r))
      × (recv success (numbered c n) buf (recorded_at (numbered c m) r)
          ≡ some (nonfatal, buf, recorded_at (numbered c m) r))

  -- Where a first message, with a payload that fits, reaches an agent that has heard nothing newer, but its confirmation does not
  -- come back, the next message to that agent goes out with the same sequence: `send` reports an error for
  -- the first, which the receiver takes, and success for the second, which the receiver drops as a
  -- duplicate.
  pub send-Loses :
      (c : Comms F) (m n : WireMessage) (a b : Attempt) (r : Comms F) (buf : WireMessage) (k : ℕ)
      → Sendable c m
      → Sendable c n
      → Unconfirmed a
      → Confirmed b
      → m.header.agent_from ≡ n.header.agent_from
      → m.header.payload_size ≤ payload_max_sz
      → get_elem? r.sequence_counters m.header.agent_from ≡ some k
      → k < c.outgoing_seq
      → Loses c m n a b r buf
  send-Loses c m n a b r buf k g h u v same fits counter above =
      let (s, p, e, w, x) = internal_send-Unconfirmed c m a u in
      let (t, q, f, y, _) = internal_send-Confirmed c n b v in
      (
        s,
        t,
        send-Sendable c m a g ∙ p,
        ap (λ d. send d n b) x ∙ send-Sendable c n b h ∙ q,
        e,
        f,
        w,
        y,
        recv-taken (numbered c m) buf r k counter above fits,
        recv-dropped (numbered c n) buf (recorded_at (numbered c m) r) c.outgoing_seq after
            (omega arith),
      )
    where
      after :
          get_elem? (set r.sequence_counters m.header.agent_from c.outgoing_seq) n.header.agent_from
          ≡ some c.outgoing_seq
      after =
          ap (get_elem? (set r.sequence_counters m.header.agent_from c.outgoing_seq)) (sym same)
          ∙ get_elem?-set_self r.sequence_counters m.header.agent_from c.outgoing_seq
              (get_elem?_bound r.sequence_counters m.header.agent_from k counter)

  -- A message for the leader election whose destination was never set is not refused with
  -- `ERR_DEST_UNSET`: where there are fewer than 65,536 endpoints, one outside of their array is read.
  pub send_unset :
      (c : Comms F) (m : WireMessage) (a : Attempt)
      → m.header.agent_to ≡ to_u16 message_dest_unset
      → m.header.type ≡ ghs
      → length c.ghs_cfg.endpoints < 2 ^ 16
      → send c m a ≡ none
  unfolding send send_typed eqb_ℤ
  send_unset c m a unset for_ghs few =
      rw
        (
          for_ghs,
          get_elem?-beyond c.ghs_cfg.endpoints m.header.agent_to (omega (arith, unset, few)),
        )
        refl
