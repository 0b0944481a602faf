-- ===== src/Demo/Exec/Delivery.antt =====
-- The loop over the outgoing messages: it ends.
use distributed_leader_elect.Prelude.{
  ℕ, zero, suc, ◌≤◌, ◌≡◌, refl, ◌∙◌, ap, sym, List, [], ◌∷◌, true, false, ◌&&◌, Option, none, some,
  ltb, if_post, length, Bool-cases, Option-cases, inl, inr, arith,
}
use mathlib.Core.Path.{subst}
use distributed_leader_elect.Msg.{Msg}
use distributed_leader_elect.Seque.{StaticQueue, size, pop_item}
use distributed_leader_elect.Seque.Inv.{IsValid}
use distributed_leader_elect.Seque.Refine.{contents, length-contents}
use distributed_leader_elect.Seque.Run.{pop_item-cons, pop_item-ok, pop_item-IsValid}
use distributed_leader_elect.Demo.Wire.{WireMessage}
use distributed_leader_elect.Demo.Comms.Send.{Attempt, Sending, send}
use distributed_leader_elect.Demo.Exec.{Exec, Round}
use distributed_leader_elect.Demo.Exec.Outgoing.{
  connection_lost, wrap, settle, send_one, then_more, drain, send_all,
}

none_ne_some : {A : Type 0} {a : A} → none ≡ some a → ⊥
none_ne_some h = cc

some_inj : {A : Type 0} {a b : A} → some a ≡ some b → a ≡ b
some_inj h = cc

module _ (encode : Msg → List ℕ) (junk : WireMessage) {F : Type 0} where
  -- The variables without the oldest message.
  abbrev pub popped : Exec F → Exec F
  popped x = record x { agent = record x.agent { buf = (pop_item x.agent.buf).2 } }

  abbrev pub then_settle : Msg → Exec F → Option (Sending F) → Option (Round F)
  then_settle m y none = none
  then_settle m y (some s) = some (settle encode junk m y s)

  -- A round, where the oldest message is known.
  pub send_one_lem :
      (net : Attempt) (x : Exec F) (m : Msg) (ms : List Msg)
      → IsValid x.agent.buf
      → contents x.agent.buf ≡ m ∷ ms
      → send_one encode junk net x
        ≡ then_settle m (popped x) (send x.comms (wrap encode junk m) net)
  unfolding send_one
  send_one_lem net x m ms v e =
      let (front, rest) = pop_item-cons x.agent.buf m ms v e in
      rw (pop_item-ok x.agent.buf m ms v e, front)
        (elim (Option-cases (send x.comms (wrap encode junk m) net)) [
          | inl n ↦ rw n refl
          | inr (s, h) ↦ rw (h, front) refl
        ])

  abbrev Leaves : StaticQueue Msg → Round F → Type 0
  Leaves q r = r.goes_on ≡ true → r.after.agent.buf ≡ q

  settle-Leaves :
      (m : Msg) (y : Exec F) (s : Sending F) → Leaves y.agent.buf (settle encode junk m y s)
  unfolding settle
  settle-Leaves m y s =
      if_post (Leaves y.agent.buf) (connection_lost s.code && y.config.retry_connections) (λ e. cc)
        (λ e. refl)

  -- A round that goes on leaves the other messages.
  goes_on-rest :
      (x : Exec F) (m : Msg) (o : Option (Sending F)) (r : Round F)
      → then_settle m (popped x) o ≡ some r
      → r.goes_on ≡ true
      → r.after.agent.buf ≡ (pop_item x.agent.buf).2
  goes_on-rest x m none r h g = absurd (none_ne_some h)
  goes_on-rest x m (some s) r h g =
      subst (Leaves (pop_item x.agent.buf).2) (some_inj h) (settle-Leaves m (popped x) s) g

  -- One step of the loop, by its round.
  module _ (net : ℕ → Attempt) (k i : ℕ) (x : Exec F)
      (some_left : ltb 0 (size x.agent.buf) ≡ true) where
    drain-none : send_one encode junk (net i) x ≡ none → drain encode junk net (suc k) i x ≡ none
    unfolding drain
    drain-none h = rw (some_left, h, drain) refl

    pub drain-stop :
        (r : Round F)
        → send_one encode junk (net i) x ≡ some r
        → r.goes_on ≡ false
        → drain encode junk net (suc k) i x ≡ some (r.on_wire, r.after)
    unfolding drain
    drain-stop r h g = simp (some_left, h, g, drain) refl

    pub drain-step :
        (r : Round F)
        → send_one encode junk (net i) x ≡ some r
        → r.goes_on ≡ true
        → drain encode junk net (suc k) i x
          ≡ then_more encode junk r.on_wire (drain encode junk net k (suc i) r.after)
    unfolding drain
    drain-step r h g = simp (some_left, h, g, drain) refl

  pub drain-empty :
      (net : ℕ → Attempt) (k i : ℕ) (x : Exec F)
      → IsValid x.agent.buf
      → contents x.agent.buf ≡ []
      → drain encode junk net k i x ≡ some ([], x)
  unfolding drain
  drain-empty net zero i x v e = refl
  drain-empty net (suc k) i x v e =
      let none_left : ltb 0 (size x.agent.buf) ≡ false =
        ground (arith, length-contents x.agent.buf v, ap length e) in
      rw (none_left, drain) refl

  -- The loop over the messages `ms`, with enough fuel and with any more.
  drain-fuel :
      (ms : List Msg) (net : ℕ → Attempt) (k i : ℕ) (x : Exec F)
      → IsValid x.agent.buf
      → contents x.agent.buf ≡ ms
      → length ms ≤ k
      → drain encode junk net k i x ≡ drain encode junk net (length ms) i x
  drain-fuel [] net k i x v e b = drain-empty net k i x v e ∙ sym (drain-empty net 0 i x v e)
  drain-fuel (m ∷ ms) net zero i x v e b = absurd (omega (arith, b))
  drain-fuel (m ∷ ms) net (suc k) i x v e b = elim (Option-cases (send_one encode junk (net i) x)) [
    | inl h ↦ drain-none net k i x left h ∙ sym (drain-none net (length ms) i x left h)
    | inr (r, h) ↦ elim (Bool-cases r.goes_on) [
      | inl g ↦
          let rest =
            goes_on-rest x m (send x.comms (wrap encode junk m) (net i)) r
              (sym (send_one_lem (net i) x m ms v e) ∙ h) g in
          drain-step net k i x left r h g
          ∙ ap (then_more encode junk r.on_wire) (
              drain-fuel ms net k (suc i) r.after
                (subst (λ q. IsValid q) (sym rest) (pop_item-IsValid x.agent.buf v))
                (ap contents rest ∙ (pop_item-cons x.agent.buf m ms v e).1) (omega (arith, b)))
          ∙ sym (drain-step net (length ms) i x left r h g)
      | inr g ↦ drain-stop net k i x left r h g ∙ sym (drain-stop net (length ms) i x left r h g)
    ]
  ]
    where
      left : ltb 0 (size x.agent.buf) ≡ true
      left = ground (arith, length-contents x.agent.buf v, ap length e)

  -- On a valid queue of outgoing messages the loop ends: with fuel for as many rounds as there are
  -- messages, and with any more, it gives the same result.
  pub drain_enough :
      (net : ℕ → Attempt) (k : ℕ) (x : Exec F)
      → IsValid x.agent.buf
      → size x.agent.buf ≤ k
      → drain encode junk net k 0 x ≡ send_all encode junk net x
  unfolding send_all
  drain_enough net k x v h =
      drain-fuel (contents x.agent.buf) net k 0 x v refl
        (omega (arith, length-contents x.agent.buf v, h))
      ∙ ap (λ n. drain encode junk net n 0 x) (length-contents x.agent.buf v)
