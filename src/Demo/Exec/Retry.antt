-- ===== src/Demo/Exec/Retry.antt =====
-- The loop over the outgoing messages, with retries: it loses nothing.
use distributed_leader_elect.Prelude.{
  ℕ, suc, ◌+◌, ◌%◌, ◌^◌, ◌<◌, ◌≡◌, refl, ◌∙◌, ap, sym, List, [], ◌∷◌, ◌++◌, map, true, false,
  Option, some, ltb, length, ◌⊎◌, inl, inr, take, arith,
}
use mathlib.Core.Path.{subst}
use distributed_leader_elect.Msg.{Msg}
use distributed_leader_elect.Seque.{size, push, pop_item}
use distributed_leader_elect.Seque.Inv.{IsValid}
use distributed_leader_elect.Seque.Refine.{contents, length-contents}
use distributed_leader_elect.Seque.Run.{
  pop_item-cons, pop_item-IsValid, contents-push, capacity-pop_item,
}
use distributed_leader_elect.Demo.Wire.{ok, err_nng, WireMessage, to_u16}
use distributed_leader_elect.Demo.Comms.Send.{Attempt, Sending, numbered, internal_send}
use distributed_leader_elect.Demo.Comms.Lost.{send-Sendable, Fate, internal_send-Fate}
use distributed_leader_elect.Demo.Exec.{Exec}
use distributed_leader_elect.Demo.Exec.Outgoing.{wrap, settle, send_one, then_more, drain, send_all}
use distributed_leader_elect.Demo.Exec.Delivery.{
  popped, then_settle, send_one_lem, drain-empty, drain-stop, drain-step,
}

-- Every receiver has an endpoint.
abbrev pub Addressable : ℕ → List Msg → Type 0
Addressable n [] = Unit {0}
Addressable n (m ∷ ms) = (to_u16 m.to < n) × Addressable n ms

-- The first message goes to the end.
unfoldable pub turned : List Msg → List Msg
turned [] = []
turned (m ∷ ms) = ms ++ (m ∷ [])

-- A message without its sequence.
abbrev pub plain : WireMessage → WireMessage
plain w = record w { control = record { sequence = 0 } }

map-append : {A B : Type 0} (f : A → B) (xs ys : List A) → map f (xs ++ ys) ≡ map f xs ++ map f ys
map-append f [] ys = refl
map-append f (x ∷ xs) ys = ap (◌∷◌ (f x)) (map-append f xs ys)

-- Confirmations tell the sequence that was sent.
abbrev pub Honest : (ℕ → Attempt) → Type 0
Honest net = (i n : ℕ) → (net i).return_seq n ≡ n

module _ (encode : Msg → List ℕ) (junk : WireMessage) {F : Type 0} where
  -- The messages `sent` were confirmed, in order; `left` are the others, the first of them at the end now;
  -- the network got what was sent, and perhaps the message that failed.
  abbrev pub Delivers : Exec F → List Msg → Option (List WireMessage × Exec F) → Type 0
  Delivers x ms out =
      (sent : List Msg) × (left : List Msg) × (tried : List Msg) × (wire : List WireMessage)
      × (y : Exec F) × (out ≡ some (wire, y))
      × (ms ≡ sent ++ left)
      × (contents y.agent.buf ≡ turned left)
      × (map plain wire ≡ map (wrap encode junk) (sent ++ tried))
      × ((tried ≡ []) ⊎ (tried ≡ take 1 left))
      × (y.comms.outgoing_seq ≡ (x.comms.outgoing_seq + length sent) % 2 ^ 64)

  -- What the loop needs.
  record Sends (x : Exec F) (ms : List Msg) : Type 0 where
    valid : IsValid x.agent.buf
    holds : contents x.agent.buf ≡ ms
    reachable : Addressable (length x.comms.ghs_cfg.endpoints) ms
    retries : x.config.retry_connections ≡ true
    counter : x.comms.outgoing_seq < 2 ^ 64

  -- The variables after a message that is confirmed, and after one that is not.
  abbrev confirmed : Exec F → Sending F → Exec F
  confirmed x s = record (popped encode junk x) { comms = s.comms }

  abbrev put_back : Exec F → Msg → Sending F → Exec F
  put_back x m s =
      let y = confirmed x s in record y { agent = record y.agent { buf = (push y.agent.buf m).1 } }

  settle-confirmed :
      (x : Exec F) (m : Msg) (s : Sending F)
      → s.code ≡ ok
      → settle encode junk m (popped encode junk x) s
        ≡ record { goes_on = true; on_wire = s.on_wire; after = confirmed x s }
  unfolding settle
  settle-confirmed x m s e = rw e refl

  settle-failed :
      (x : Exec F) (m : Msg) (s : Sending F)
      → s.code ≡ err_nng
      → x.config.retry_connections ≡ true
      → settle encode junk m (popped encode junk x) s
        ≡ record { goes_on = false; on_wire = s.on_wire; after = put_back x m s }
  unfolding settle
  settle-failed x m s e r = simp (e, r, settle) refl

  Delivers-more :
      (x y : Exec F) (m : Msg) (ms : List Msg) (w : WireMessage)
      (out : Option (List WireMessage × Exec F))
      → plain w ≡ wrap encode junk m
      → y.comms.outgoing_seq ≡ (x.comms.outgoing_seq + 1) % 2 ^ 64
      → Delivers y ms out
      → Delivers x (m ∷ ms) (then_more encode junk (w ∷ []) out)
  Delivers-more x y m ms w out p o (sent, left, tried, wire, z, e, h, k, l, t, n) = (
    m ∷ sent,
    left,
    tried,
    w ∷ wire,
    z,
    ap (then_more encode junk (w ∷ [])) e,
    ap (◌∷◌ m) h,
    k,
    ap (◌∷◌ (plain w)) l ∙ ap (λ v. v ∷ map (wrap encode junk) (sent ++ tried)) p,
    t,
    n ∙ rw o (more x.comms.outgoing_seq (length sent)),
  )
    where
      more : (a b : ℕ) → ((a + 1) % 2 ^ 64 + b) % 2 ^ 64 ≡ (a + suc b) % 2 ^ 64
      more a b = omega arith

  -- The round of the first message.
  first_round :
      (net : ℕ → Attempt) (i : ℕ) (x : Exec F) (m : Msg) (ms : List Msg) (s : Sending F)
      → Sends x (m ∷ ms)
      → internal_send x.comms (wrap encode junk m) (net i) ≡ some s
      → send_one encode junk (net i) x ≡ some (settle encode junk m (popped encode junk x) s)
  unfolding wrap
  first_round net i x m ms s h e =
      send_one_lem encode junk (net i) x m ms h.valid h.holds
      ∙ ap (then_settle encode junk m (popped encode junk x)) (
          send-Sendable x.comms (wrap encode junk m) (net i)
            (record { for_ghs = refl; known = h.reachable.0 })
          ∙ e)

  Sends-rest :
      (x : Exec F) (m : Msg) (ms : List Msg) (s : Sending F)
      → Sends x (m ∷ ms)
      → s.comms.ghs_cfg ≡ x.comms.ghs_cfg
      → s.comms.outgoing_seq ≡ (x.comms.outgoing_seq + 1) % 2 ^ 64
      → Sends (confirmed x s) ms
  Sends-rest x m ms s h cfg seq = record {
    valid = pop_item-IsValid x.agent.buf h.valid;
    holds = (pop_item-cons x.agent.buf m ms h.valid h.holds).1;
    reachable = rw cfg (h.reachable.1);
    retries = h.retries;
    counter = omega (arith, seq);
  }

  put_back-contents :
      (x : Exec F) (m : Msg) (ms : List Msg)
      → IsValid x.agent.buf
      → contents x.agent.buf ≡ m ∷ ms
      → contents (push (pop_item x.agent.buf).2 m).1 ≡ turned (m ∷ ms)
  unfolding turned
  put_back-contents x m ms v e =
      let q = (pop_item x.agent.buf).2 in
      let rest = (pop_item-cons x.agent.buf m ms v e).1 in
      let w = pop_item-IsValid x.agent.buf v in
      contents-push q m w (
        omega (
          arith,
          length-contents q w,
          ap length rest,
          length-contents x.agent.buf v,
          ap length e,
          v.count_in,
          capacity-pop_item x.agent.buf,
        ))
      ∙ ap (λ xs. xs ++ (m ∷ [])) rest

  module _ (net : ℕ → Attempt) (i : ℕ) (x : Exec F) (m : Msg) (ms : List Msg)
      (h : Sends x (m ∷ ms)) where
    left_over : ltb 0 (size x.agent.buf) ≡ true
    left_over = ground (arith, length-contents x.agent.buf h.valid, ap length h.holds)

    -- The first message failed: it is at the end now, and the loop is left.
    after_failure :
        (s : Sending F) (tried : List Msg)
        → internal_send x.comms (wrap encode junk m) (net i) ≡ some s
        → s.code ≡ err_nng
        → s.comms.outgoing_seq ≡ x.comms.outgoing_seq
        → map plain s.on_wire ≡ map (wrap encode junk) tried
        → (tried ≡ []) ⊎ (tried ≡ m ∷ [])
        → Delivers x (m ∷ ms) (drain encode junk net (suc (length ms)) i x)
    after_failure s tried e lost seq wire which = (
      [],
      m ∷ ms,
      tried,
      s.on_wire,
      put_back x m s,
      drain-stop encode junk net (length ms) i x left_over _
          (first_round net i x m ms s h e ∙ ap some (settle-failed x m s lost h.retries)) refl,
      refl,
      put_back-contents x m ms h.valid h.holds,
      wire,
      which,
      omega (arith, seq, h.counter),
    )

    -- By what became of the first message, and what the loop does with the others.
    Delivers-first :
        ((y : Exec F) → Sends y ms → Delivers y ms (drain encode junk net (length ms) (suc i) y))
        → Fate x.comms (wrap encode junk m) (internal_send x.comms (wrap encode junk m) (net i))
        → Delivers x (m ∷ ms) (drain encode junk net (suc (length ms)) i x)
    Delivers-first rest (s, e, cfg, inl (fine, wire, seq)) =
        let y = confirmed x s in
        let w = numbered x.comms (wrap encode junk m) in
        let out = drain encode junk net (length ms) (suc i) y in
        subst (Delivers x (m ∷ ms))
          (sym (
            drain-step encode junk net (length ms) i x left_over _
              (first_round net i x m ms s h e ∙ ap some (settle-confirmed x m s fine)) refl
            ∙ ap (λ ws. then_more encode junk ws out) wire))
          (Delivers-more x y m ms w out (unfold wrap in refl) seq
            (rest y (Sends-rest x m ms s h cfg seq)))
    Delivers-first rest (s, e, cfg, inr (lost, inl wire, seq)) =
        after_failure s [] e lost seq (ap (map plain) wire) (inl refl)
    Delivers-first rest (s, e, cfg, inr (lost, inr wire, seq)) =
        after_failure s (m ∷ []) e lost seq (ap (map plain) wire ∙ unfold wrap in refl) (inr refl)

  drain-Delivers :
      (ms : List Msg) (net : ℕ → Attempt) (i : ℕ) (x : Exec F)
      → Honest net
      → Sends x ms
      → Delivers x ms (drain encode junk net (length ms) i x)
  unfolding turned
  drain-Delivers [] net i x honest h = (
    [],
    [],
    [],
    [],
    x,
    drain-empty encode junk net 0 i x h.valid h.holds,
    refl,
    h.holds,
    refl,
    inl refl,
    omega (arith, h.counter),
  )
  drain-Delivers (m ∷ ms) net i x honest h =
      Delivers-first net i x m ms h (λ y k. drain-Delivers ms net (suc i) y honest k)
        (internal_send-Fate x.comms (wrap encode junk m) (net i) (honest i))

  -- On a valid queue of messages whose receivers all have an endpoint, with retries, confirmations that
  -- tell the sequence sent, and a sequence of 64 bits: the loop ends without an abort. A first part of the
  -- queue was sent and confirmed, in order, and the sequence has grown by its length; all the other
  -- messages are still queued, in order but for the first, which failed and is at the end now; and nothing
  -- went to the network but the messages sent and, perhaps, the one that failed.
  pub send_all_retries :
      (net : ℕ → Attempt) (x : Exec F)
      → Honest net
      → IsValid x.agent.buf
      → Addressable (length x.comms.ghs_cfg.endpoints) (contents x.agent.buf)
      → x.config.retry_connections ≡ true
      → x.comms.outgoing_seq < 2 ^ 64
      → Delivers x (contents x.agent.buf) (send_all encode junk net x)
  unfolding send_all
  send_all_retries net x honest v a r o =
      subst (λ n. Delivers x (contents x.agent.buf) (drain encode junk net n 0 x))
        (length-contents x.agent.buf v)
        (drain-Delivers (contents x.agent.buf) net 0 x honest
          (record { valid = v; holds = refl; reachable = a; retries = r; counter = o }))
