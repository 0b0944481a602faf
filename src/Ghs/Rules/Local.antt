-- ===== src/Ghs/Rules/Local.antt =====
-- The rules for a call whose count goes to a local variable (`srch_sent`, `sentsz`).
use distributed_leader_elect.Prelude.{
  ℕ, ◌+◌, ◌≡◌, refl, ◌∙◌, ap, List, ◌++◌, length, length-append, arith,
}
use distributed_leader_elect.Edge.{Agent}
use distributed_leader_elect.Msg.{Msg}
use distributed_leader_elect.Ghs.State.{
  steps, Ctx, Result, done, fail, M, and_then, ◌>>=◌, ◌>>◌, with_count, counted, add_qsz,
}
use distributed_leader_elect.Ghs.Rules.{Tally-more, Sum-total}
use distributed_leader_elect.Ghs.Contract.{
  Grows, Grows-trans, Grows-then, Grows-qsz, Ready, Ready-qsz, Ready-Grows, Still, Counts,
  CountedAt, Sums, SummedAt,
}

pub done-injective : {A : Type 0} {a b : A} → done a ≡ done b → a ≡ b
done-injective e = cc

-- A call whose count is kept in a local variable.
module _ {id : Agent} where
  local_count :
      (c : Ctx) (p : Result (Unit {0}) × Ctx)
      → SummedAt id (record c { qsz = 0 }) p
      → (sent : List Msg) × Grows id c (record p.1 { qsz = c.qsz }) sent
        × ((x : ℕ) → counted p.1.qsz p.0 ≡ done x → x ≡ length sent)
  local_count c (done _, d) (xs, g, t) =
      (xs, Grows-qsz _ _ g, λ x e. omega (arith, done-injective e))
  local_count c (fail _, d) (xs, g, t) = (xs, Grows-qsz _ _ g, λ x e. cc)

  -- A handler that counts from 0 adds to a count of 0.
  counted_from_zero :
      (c : Ctx) (p : Result (Unit {0}) × Ctx)
      → CountedAt id 0 (record c { qsz = 0 }) p
      → SummedAt id (record c { qsz = 0 }) p
  counted_from_zero c (done _, d) (xs, g, t) = (xs, g, t)
  counted_from_zero c (fail _, d) (xs, g, t) = (xs, g, tt)

  -- The rest counts from what the local variable holds.
  with_count-go :
      {A : Type 0} (n : ℕ) (c : Ctx) (p : Result (Unit {0}) × Ctx) (f : ℕ → M A)
      → Ready id c
      → SummedAt id (record c { qsz = 0 }) p
      → ((x : ℕ) → Counts id (n + x) (f x))
      → CountedAt id n c (and_then (counted p.1.qsz p.0, record p.1 { qsz = c.qsz }) f)
  with_count-go n c (done u, d) f r s h =
      let (xs, g, l) = local_count c (done u, d) s in
      let (ys, g', t) = (h d.qsz).counts_at (record d { qsz = c.qsz }) (Ready-Grows r g) in
      (
        xs ++ ys,
        Grows-trans g g',
        rw (length-append xs ys, ← l d.qsz refl)
            (Tally-more (f d.qsz (record d { qsz = c.qsz })).0 n d.qsz c.qsz c.qsz
              (f d.qsz (record d { qsz = c.qsz })).1.qsz (length ys) refl t),
      )
  with_count-go n c (fail err, d) f r s h =
      let (xs, g, l) = local_count c (fail err, d) s in (xs, g, refl)

  pub with_count-Counts :
      {A : Type 0} {n : ℕ} (m : M (Unit {0})) (f : ℕ → M A)
      → ((c : Ctx) → Ready id c → SummedAt id (record c { qsz = 0 }) (m (record c { qsz = 0 })))
      → ((x : ℕ) → Counts id (n + x) (f x))
      → Counts id n (with_count m >>= f)
  unfolding with_count steps
  with_count-Counts {n = n} m f hm h = record {
    counts_at = λ c e. with_count-go n c (m (record c { qsz = 0 })) f e (hm c e) h;
  }

  -- The count of a call is added to the loop's sum.
  add_count-go :
      (c : Ctx) (p : Result (Unit {0}) × Ctx) (k : M (Unit {0}))
      → Ready id c
      → SummedAt id (record c { qsz = 0 }) p
      → Still id k
      → SummedAt id c
          (and_then (counted p.1.qsz p.0, record p.1 { qsz = c.qsz }) (λ x. add_qsz x >> k))
  unfolding steps
  add_count-go c (done u, d) k r s h =
      let (xs, g, l) = local_count c (done u, d) s in
      let still = h.still_at (record d { qsz = c.qsz + d.qsz }) (Ready-qsz _ (Ready-Grows r g)) in
      (
        xs,
        Grows-then (Grows-qsz c.qsz (c.qsz + d.qsz) g) still.0 still.1,
        Sum-total (k (record d { qsz = c.qsz + d.qsz })).0 c.qsz _ (length xs)
            (still.2 ∙ ap (λ x. c.qsz + x) (l d.qsz refl)),
      )
  add_count-go c (fail err, d) k r s h =
      let (xs, g, l) = local_count c (fail err, d) s in (xs, g, tt)

  pub with_count-Sums :
      (m k : M (Unit {0}))
      → Counts id 0 m
      → Still id k
      → Sums id (with_count m >>= λ x. add_qsz x >> k)
  unfolding with_count steps
  with_count-Sums m k hm hk = record {
    sums_at = λ c e.
        add_count-go c (m (record c { qsz = 0 })) k e
          (counted_from_zero c _ (hm.counts_at (record c { qsz = 0 }) (Ready-qsz 0 e))) hk;
  }
