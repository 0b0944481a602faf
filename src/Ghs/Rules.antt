-- ===== src/Ghs/Rules.antt =====
-- A rule of the contracts for each construct that the handlers are made of.
pub mod Local
use distributed_leader_elect.Prelude.{
  ℕ, ◌+◌, ◌≡◌, refl, ◌∙◌, ap, sym, List, [], ◌∷◌, ◌++◌, Bool, true, false, length, length-append,
  if◌then◌else◌, eqb_ℤ, not, take, eqb_ℤ-sound, arith,
}
use mathlib.Core.Path.{subst}
use distributed_leader_elect.Errno.{Errno}
use distributed_leader_elect.Edge.{Agent, Edge, Status, eqb_status}
use distributed_leader_elect.Msg.{Msg, Payload, msg, MsgType, Payload, type_of, msg_typed}
use distributed_leader_elect.Seque.{push}
use distributed_leader_elect.Seque.Inv.{IsValid}
use distributed_leader_elect.Seque.Run.{push_all, push_all-append}
use distributed_leader_elect.Ghs.State.{
  steps, GhsState, Buf, Ctx, Result, done, fail, M, and_then, ◌>>=◌, ◌>>◌, check, lift, return, get,
  modify, set_qsz, call, send, cast_out, with_count, counted, write_count, add_qsz, buffer, return,
  raise,
}
use distributed_leader_elect.Ghs.Casts.{cast_loop, typecast, mst_broadcast, mst_convergecast}
use distributed_leader_elect.Ghs.Frame.{Keeps, Keeps-refl, Keeps-trans}
use distributed_leader_elect.Ghs.Contract.{
  Own, Own-append, Grows, Grows-still, Grows-trans, Grows-after, Grows-then, Grows-qsz, Ready,
  Ready-qsz, Ready-still, Ready-Grows, Quiet, QuietAt, Still, StillAt, Counts, CountedAt, Tally,
  Sums, SummedAt, Sum,
}

-- The count before a step that leaves it alone.
Tally-after :
    {B : Type 0} (r : Result B) (k q before after n : ℕ)
    → q ≡ before
    → Tally r k q after n
    → Tally r k before after n
Tally-after (done _) k q before after n e t = t
Tally-after (fail _) k q before after n e t = t ∙ e

-- The messages of a first step are counted with those of the second.
pub Tally-more :
    {B : Type 0} (r : Result B) (k m q before after n : ℕ)
    → q ≡ before
    → Tally r (k + m) q after n
    → Tally r k before after (m + n)
Tally-more (done _) k m q before after n e t = omega arith
Tally-more (fail _) k m q before after n e t = t ∙ e

Sum-after :
    {B : Type 0} (r : Result B) (q before after n k : ℕ)
    → q ≡ before + k
    → Sum r q after n
    → Sum r before after (k + n)
Sum-after (done _) q before after n k e t = omega arith
Sum-after (fail _) q before after n k e t = tt

pub Sum-total :
    {B : Type 0} (r : Result B) (before after n : ℕ) → after ≡ before + n → Sum r before after n
Sum-total (done _) before after n e = e
Sum-total (fail _) before after n e = tt

module _ {id : Agent} {A B : Type 0} where
  and_then-Still :
      (c : Ctx) (p : Result A × Ctx) (f : A → M B)
      → Ready id c
      → StillAt c p
      → ((a : A) → Still id (f a))
      → StillAt c (and_then p f)
  and_then-Still c (done a, d) f e h k =
      let r = (k a).still_at d (Ready-still e h.0 h.1) in
      (Keeps-trans h.0 r.0, r.1 ∙ h.1, r.2 ∙ h.2)
  and_then-Still c (fail _, d) f e h k = h

  pub bind-Still :
      (m : M A) (f : A → M B) → Still id m → ((a : A) → Still id (f a)) → Still id (m >>= f)
  unfolding steps
  bind-Still m f h k = record { still_at = λ c e. and_then-Still c (m c) f e (h.still_at c e) k }

  -- A step that sends nothing, and then a handler that counts.
  and_then-Counts :
      (n : ℕ) (c : Ctx) (p : Result A × Ctx) (f : A → M B)
      → Ready id c
      → StillAt c p
      → ((a : A) → Counts id n (f a))
      → CountedAt id n c (and_then p f)
  and_then-Counts n c (done a, d) f e h k =
      let (sent, g, t) = (k a).counts_at d (Ready-still e h.0 h.1) in
      (
        sent,
        Grows-after h.0 h.1 g,
        Tally-after (f a d).0 n d.qsz c.qsz (f a d).1.qsz (length sent) h.2 t,
      )
  and_then-Counts n c (fail _, d) f e h k = ([], Grows-still c d h.0 h.1, h.2)

  pub bind-Counts :
      {n : ℕ} (m : M A) (f : A → M B)
      → Still id m
      → ((a : A) → Counts id n (f a))
      → Counts id n (m >>= f)
  unfolding steps
  bind-Counts {n} m f h k = record {
    counts_at = λ c e. and_then-Counts n c (m c) f e (h.still_at c e) k;
  }

  -- Two handlers that add to the count, one after the other.
  and_then-Sums :
      (c : Ctx) (p : Result A × Ctx) (f : A → M B)
      → Ready id c
      → SummedAt id c p
      → ((a : A) → Sums id (f a))
      → SummedAt id c (and_then p f)
  and_then-Sums c (done a, d) f e (xs, g, t) k =
      let (ys, h, u) = (k a).sums_at d (Ready-Grows e g) in
      (
        xs ++ ys,
        Grows-trans g h,
        rw (length-append xs ys)
            (Sum-after (f a d).0 d.qsz c.qsz (f a d).1.qsz (length ys) (length xs) t u),
      )
  and_then-Sums c (fail _, d) f e (xs, g, t) k = (xs, g, tt)

  pub bind-Sums :
      (m : M A) (f : A → M B) → Sums id m → ((a : A) → Sums id (f a)) → Sums id (m >>= f)
  unfolding steps
  bind-Sums m f h k = record { sums_at = λ c e. and_then-Sums c (m c) f e (h.sums_at c e) k }

module _ {id : Agent} {A B : Type 0} where
  -- A step that sends `k` messages, and then a handler that counts from `n + k` on.
  and_then-Quiet :
      (n k : ℕ) (c : Ctx) (p : Result A × Ctx) (f : A → M B)
      → Ready id c
      → QuietAt id k c p
      → ((a : A) → Counts id (n + k) (f a))
      → CountedAt id n c (and_then p f)
  and_then-Quiet n k c (done a, d) f e (xs, g, q, l) h =
      let (ys, g', t) = (h a).counts_at d (Ready-Grows e g) in
      (
        xs ++ ys,
        Grows-trans g g',
        rw (length-append xs ys, l)
            (Tally-more (f a d).0 n k d.qsz c.qsz (f a d).1.qsz (length ys) q t),
      )
  and_then-Quiet n k c (fail _, d) f e (xs, g, q, l) h = (xs, g, q)

  pub Quiet-Counts :
      {n k : ℕ} (m : M A) (f : A → M B)
      → Quiet id k m
      → ((a : A) → Counts id (n + k) (f a))
      → Counts id n (m >>= f)
  unfolding steps
  Quiet-Counts {n} {k} m f h r = record {
    counts_at = λ c e. and_then-Quiet n k c (m c) f e (h.quiet_at c e) r;
  }

module _ {id : Agent} {A : Type 0} where
  pub Still-Sums : (m : M A) → Still id m → Sums id m
  Still-Sums m h = record { sums_at = λ c e. go c (m c) (h.still_at c e) }
    where
      go : (c : Ctx) (p : Result A × Ctx) → StillAt c p → SummedAt id c p
      go c (done a, d) h = ([], Grows-still c d h.0 h.1, omega (arith, h.2))
      go c (fail e, d) h = ([], Grows-still c d h.0 h.1, tt)

  -- The object as it stands is one of this agent.
  pub get-Still :
      (f : GhsState → M A) → ((s : GhsState) → s.my_id ≡ id → Still id (f s)) → Still id (get >>= f)
  unfolding steps
  get-Still f k = record { still_at = λ c e. (k c.state e.of_agent).still_at c e }

  pub get-Counts :
      {n : ℕ} (f : GhsState → M A)
      → ((s : GhsState) → s.my_id ≡ id → Counts id n (f s))
      → Counts id n (get >>= f)
  unfolding steps
  get-Counts f k = record { counts_at = λ c e. (k c.state e.of_agent).counts_at c e }

  pub get-Sums :
      (f : GhsState → M A) → ((s : GhsState) → s.my_id ≡ id → Sums id (f s)) → Sums id (get >>= f)
  unfolding steps
  get-Sums f k = record { sums_at = λ c e. (k c.state e.of_agent).sums_at c e }

  pub lift-Still : (r : Result A) → Still id (lift r)
  unfolding steps
  lift-Still r = record { still_at = λ c e. (Keeps-refl c.state, refl, refl) }

  pub return-Still : (a : A) → Still id (return a)
  unfolding steps
  return-Still a = record { still_at = λ c e. (Keeps-refl c.state, refl, refl) }

  pub raise-Counts : {n : ℕ} (e : Errno) → Counts id n (raise {A = A} e)
  unfolding steps
  raise-Counts err = record {
    counts_at = λ c e. ([], Grows-still c c (Keeps-refl c.state) refl, refl);
  }

module _ {id : Agent} where
  pub check-Still : (b : Bool) (err : Errno) → Still id (check b err)
  unfolding steps
  check-Still true err = record { still_at = λ c e. (Keeps-refl c.state, refl, refl) }
  check-Still false err = record { still_at = λ c e. (Keeps-refl c.state, refl, refl) }

  pub modify-Still :
      (f : GhsState → GhsState) → ((s : GhsState) → Keeps s (f s)) → Still id (modify f)
  unfolding steps
  modify-Still f k = record { still_at = λ c e. (k c.state, refl, refl) }

  pub call-Still :
      (f : GhsState → Result (Unit {0}) × GhsState)
      → ((s : GhsState) → Keeps s (f s).1)
      → Still id (call f)
  unfolding steps
  call-Still f k = record { still_at = λ c e. (k c.state, refl, refl) }

  pub buffer-Still : Still id buffer
  unfolding steps
  buffer-Still = record { still_at = λ c e. (Keeps-refl c.state, refl, refl) }

  pub write-Counts : (n : ℕ) → Counts id n (set_qsz n)
  unfolding steps
  write-Counts n = record {
    counts_at = λ c e. ([], Grows-still c _ (Keeps-refl c.state) refl, omega arith);
  }

  -- One message, and a count of 1.
  pub one-Counts :
      (to from : Agent) (p : Payload) → from ≡ id → Counts id 0 (send (msg to from p) >> set_qsz 1)
  unfolding push_all steps
  one-Counts to from p h = record {
    counts_at = λ c e. (
      msg to from p ∷ [],
      record { keeps = Keeps-refl c.state; pushed = refl; own = (h, refl, tt) },
      omega arith,
    );
  }

-- What a handler does with the values that it reads or tests.
module _ {id : Agent} {n : ℕ} {A : Type 0} where
  pub check-Counts :
      (b : Bool) (err : Errno) (m : M A)
      → (b ≡ true → Counts id n m)
      → Counts id n (check b err >> m)
  unfolding steps
  check-Counts true err m h = record { counts_at = λ c e. (h refl).counts_at c e }
  check-Counts false err m h = record {
    counts_at = λ c e. ([], Grows-still c c (Keeps-refl c.state) refl, refl);
  }

  pub buffer-Counts :
      (f : Buf → M A) → ((q : Buf) → IsValid q → Counts id n (f q)) → Counts id n (buffer >>= f)
  unfolding steps
  buffer-Counts f h = record { counts_at = λ c e. (h c.buf e.queue).counts_at c e }

  pub lift-Counts :
      {B : Type 0} (r : Result B) (f : B → M A)
      → ((b : B) → r ≡ done b → Counts id n (f b))
      → Counts id n (lift r >>= f)
  unfolding steps
  lift-Counts (done b) f h = record { counts_at = λ c e. (h b refl).counts_at c e }
  lift-Counts (fail err) f h = record {
    counts_at = λ c e. ([], Grows-still c c (Keeps-refl c.state) refl, refl);
  }
