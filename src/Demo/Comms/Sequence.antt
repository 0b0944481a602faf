-- ===== src/Demo/Comms/Sequence.antt =====
-- `recv`: the sequence counters, and which messages they let through.
use distributed_leader_elect.Prelude.{
  leb, ℕ, ◌≤◌, ◌<◌, ◌≡◌, refl, ◌∙◌, List, [], ◌∷◌, Bool, true, false, ◌&&◌, some, ltb, ◌==◌, ==_iff,
  Bool-cases, inl, inr, length, length-set, get_elem?, get_or, get_elem?-eq-get_or, set,
  get_or-set_self, get_or-set_ne, if◌then◌else◌, arith,
}
use distributed_leader_elect.Demo.Wire.{payload_max_sz, WireMessage, comms_demo_max_n, copy_message}
use distributed_leader_elect.Demo.Comms.{Comms}
use distributed_leader_elect.Demo.Comms.Receive.{
  success, nonfatal, taken, recv_error, check_sequence, accept, recv,
}

-- The counter of the message's sender is set.
abbrev pub recorded_at : {F : Type 0} → WireMessage → Comms F → Comms F
recorded_at m c = record c {
  sequence_counters = set c.sequence_counters m.header.agent_from m.control.sequence;
}

-- The outcome of `recv` by the sender's counter.
module _ {F : Type 0} (m buf : WireMessage) (c : Comms F) (k : ℕ)
    (counter : get_elem? c.sequence_counters m.header.agent_from ≡ some k) where
  pub recv-taken :
      k < m.control.sequence
      → m.header.payload_size ≤ payload_max_sz
      → recv success m buf c
        ≡ some (
          taken,
          copy_message buf m,
          record c {
            sequence_counters = set c.sequence_counters m.header.agent_from m.control.sequence;
          },
        )
  unfolding recv recv_error accept check_sequence
  recv-taken h b =
      let fits : leb m.header.payload_size payload_max_sz ≡ true = ground (arith, b) in
      let some_seq : (m.control.sequence == 0) ≡ false = ground arith in
      let not_below : ltb m.control.sequence k ≡ false = ground arith in
      let not_same : (k == m.control.sequence) ≡ false = ground arith in
      rw (some_seq, counter, not_below, not_same, fits) refl

  pub recv-dropped : m.control.sequence ≤ k → recv success m buf c ≡ some (nonfatal, buf, c)
  unfolding recv recv_error accept check_sequence
  recv-dropped h = elim (Bool-cases (m.control.sequence == 0)) [
    | inl e ↦ rw e refl
    | inr e ↦
        rw (e, counter)
          (elim (Bool-cases (ltb m.control.sequence k)) [
            | inl below ↦ rw below refl
            | inr above ↦
                let same : (k == m.control.sequence) ≡ true = ground (arith, above) in
                rw (above, same) refl
          ])
  ]

-- No earlier message of the same sender has the sequence or a higher one, and it is not 0.
unfoldable pub is_new : List WireMessage → WireMessage → Bool
is_new [] m = ltb 0 m.control.sequence
is_new (e ∷ es) m =
    (if e.header.agent_from == m.header.agent_from
      then ltb e.control.sequence m.control.sequence
      else true)
    && is_new es m

-- The counters say which messages are new.
pub record Tracks (counters : List ℕ) (earlier : List WireMessage) : Type 0 where
  pub size : length counters ≡ comms_demo_max_n
  pub tells :
      (m : WireMessage)
      → m.header.agent_from < comms_demo_max_n
      → is_new earlier m ≡ ltb (get_or counters m.header.agent_from 0) m.control.sequence

higher : (a b x : ℕ) → a < b → (ltb b x && ltb a x) ≡ ltb b x
higher a b x h = ground arith

lower : (a b x : ℕ) → b ≤ a → (ltb b x && ltb a x) ≡ ltb a x
lower a b x h = ground arith

-- One counter, by whether it is the sender's.
module _ (counters : List ℕ) (from to : ℕ) (seq x : ℕ) where
  raised :
      from < length counters
      → get_or counters from 0 < seq
      → ((if from == to then ltb seq x else true) && ltb (get_or counters to 0) x)
        ≡ ltb (get_or (set counters from seq) to 0) x
  raised b h = elim (Bool-cases (from == to)) [
    | inl e ↦
        let same = (==_iff from to).0 e in
        rw (e, ← same, get_or-set_self counters from seq 0 b)
          (higher (get_or counters from 0) seq x h)
    | inr e ↦ rw (e, get_or-set_ne counters from to seq 0 (λ y. ground (arith, e, y))) refl
  ]

  kept :
      seq ≤ get_or counters from 0
      → ((if from == to then ltb seq x else true) && ltb (get_or counters to 0) x)
        ≡ ltb (get_or counters to 0) x
  kept h = elim (Bool-cases (from == to)) [
    | inl e ↦
        let same = (==_iff from to).0 e in rw (e, ← same) (lower (get_or counters from 0) seq x h)
    | inr e ↦ rw e refl
  ]

pub Tracks-new :
    (counters : List ℕ) (earlier : List WireMessage) (m : WireMessage)
    → Tracks counters earlier
    → m.header.agent_from < comms_demo_max_n
    → get_or counters m.header.agent_from 0 < m.control.sequence
    → Tracks (set counters m.header.agent_from m.control.sequence) (m ∷ earlier)
unfolding is_new
Tracks-new counters earlier m t b h = record {
  size = length-set counters m.header.agent_from m.control.sequence ∙ t.size;
  tells = λ n c. rw (t.tells n c) (
      raised counters m.header.agent_from n.header.agent_from m.control.sequence n.control.sequence
        (omega (arith, b, t.size)) h);
}

pub Tracks-old :
    (counters : List ℕ) (earlier : List WireMessage) (m : WireMessage)
    → Tracks counters earlier
    → m.control.sequence ≤ get_or counters m.header.agent_from 0
    → Tracks counters (m ∷ earlier)
unfolding is_new
Tracks-old counters earlier m t h = record {
  size = t.size;
  tells = λ n c. rw (t.tells n c) (
      kept counters m.header.agent_from n.header.agent_from m.control.sequence n.control.sequence
        h);
}

-- One message, when the counters are right: it is taken exactly if it is new.
module _ {F : Type 0} (earlier : List WireMessage) (m buf : WireMessage) (c : Comms F)
    (t : Tracks c.sequence_counters earlier) (b : m.header.agent_from < comms_demo_max_n) where
  abbrev counter : ℕ
  counter = get_or c.sequence_counters m.header.agent_from 0

  counter_read : get_elem? c.sequence_counters m.header.agent_from ≡ some counter
  counter_read =
      get_elem?-eq-get_or c.sequence_counters m.header.agent_from 0 (omega (arith, b, t.size))

  pub recv-new :
      is_new earlier m ≡ true
      → m.header.payload_size ≤ payload_max_sz
      → recv success m buf c ≡ some (taken, copy_message buf m, recorded_at m c)
  recv-new new fits =
      recv-taken m buf c counter counter_read (ground (arith, t.tells m b, new)) fits

  pub recv-old : is_new earlier m ≡ false → recv success m buf c ≡ some (nonfatal, buf, c)
  recv-old old = recv-dropped m buf c counter counter_read (ground (arith, t.tells m b, old))
