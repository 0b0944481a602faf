-- ===== src/Demo/Metric.antt =====
-- src/demo/ghs-demo-edgemetrics.cpp: the metric of a link between two agents.
use distributed_leader_elect.Prelude.{
  ℕ, ◌+◌, ◌-◌, ◌*◌, ◌%◌, ◌^◌, ◌<◌, ◌≡◌, ◌∙◌, sym, ap, min, ltb, ◌==◌, if◌then◌else◌, arith,
}

abbrev pub u64_mod : ℕ
u64_mod = 2 ^ 64

-- `std::max` on the ids.
abbrev pub larger : ℕ → ℕ → ℕ
larger a b = if ltb a b then b else a

-- The low half of a metric is what the ids make.
low_half :
    (big small t : ℕ)
    → big < 2 ^ 16
    → small < 2 ^ 16
    → ((big * 2 ^ 16) % u64_mod + small + (t * 2 ^ 32) % u64_mod) % u64_mod % 2 ^ 32
      ≡ big * 2 ^ 16 + small
low_half big small t hb hs = omega arith

no_high_half :
    (big small q : ℕ)
    → big < 2 ^ 16
    → small < 2 ^ 16
    → ((big * 2 ^ 16) % u64_mod + small + (q * 2 ^ 32 * 2 ^ 32) % u64_mod) % u64_mod
      ≡ big * 2 ^ 16 + small
no_high_half big small q hb hs = omega arith

same_halves :
    (a b c d : ℕ)
    → a < 2 ^ 16
    → b < 2 ^ 16
    → c < 2 ^ 16
    → d < 2 ^ 16
    → a * 2 ^ 16 + b ≡ c * 2 ^ 16 + d
    → (a ≡ c) × (b ≡ d)
same_halves a b c d ha hb hc hd e = (omega arith, omega arith)

larger_bound : (a b n : ℕ) → a < n → b < n → larger a b < n
larger_bound a b n h k = ground arith

-- `(CommsEdgeMetric)((double)max / (double)kbps)` is arithmetic of doubles, and a parameter here.
module _ (too_long_over : ℕ → ℕ) where
  abbrev pub transfer_time : ℕ → ℕ
  transfer_time kbps = if kbps == 0 then u64_mod - 1 else too_long_over kbps

  unfoldable pub sym_metric : ℕ → ℕ → ℕ → ℕ
  sym_metric agent_to agent_from kbps =
      ((larger agent_to agent_from * 2 ^ 16) % u64_mod
        + min agent_to agent_from
        + (transfer_time kbps * 2 ^ 32) % u64_mod)
      % u64_mod

  -- Both ends of a link compute the same metric, if they agree on its throughput.
  pub sym_metric_comm : (a b kbps : ℕ) → sym_metric a b kbps ≡ sym_metric b a kbps
  unfolding sym_metric
  sym_metric_comm a b kbps = ground arith

  pub ids_part :
      (a b kbps : ℕ)
      → a < 2 ^ 16
      → b < 2 ^ 16
      → sym_metric a b kbps % 2 ^ 32 ≡ larger a b * 2 ^ 16 + min a b
  unfolding sym_metric
  ids_part a b kbps ha hb =
      low_half (larger a b) (min a b) (transfer_time kbps) (larger_bound a b (2 ^ 16) ha hb)
        (omega arith)

  -- With ids of 16 bits, links with the same metric join the same two agents, whatever their
  -- throughputs: no tie between different links is possible.
  pub sym_metric_unique :
      (a b c d k l : ℕ)
      → a < 2 ^ 16
      → b < 2 ^ 16
      → c < 2 ^ 16
      → d < 2 ^ 16
      → sym_metric a b k ≡ sym_metric c d l
      → (larger a b ≡ larger c d) × (min a b ≡ min c d)
  sym_metric_unique a b c d k l ha hb hc hd e =
      let same = sym (ids_part a b k ha hb) ∙ ap (λ m. m % 2 ^ 32) e ∙ ids_part c d l hc hd in
      same_halves _ _ _ _ (larger_bound a b (2 ^ 16) ha hb) (omega arith)
        (larger_bound c d (2 ^ 16) hc hd) (omega arith) same

  -- Where the time that a transfer takes is a multiple of 2 ^ 32, the metric holds the ids alone: the
  -- throughput has no part in it.
  pub sym_metric_overflow :
      (a b kbps q : ℕ)
      → a < 2 ^ 16
      → b < 2 ^ 16
      → transfer_time kbps ≡ q * 2 ^ 32
      → sym_metric a b kbps ≡ larger a b * 2 ^ 16 + min a b
  unfolding sym_metric
  sym_metric_overflow a b kbps q ha hb h =
      rw h (no_high_half (larger a b) (min a b) q (larger_bound a b (2 ^ 16) ha hb) (omega arith))
