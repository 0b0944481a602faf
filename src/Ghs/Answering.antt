-- ===== src/Ghs/Answering.antt =====
-- A search: the answers to it, one after the other, up to the last but one.
use distributed_leader_elect.Prelude.{
  ℕ, suc, ◌+◌, ◌≤◌, ◌≡◌, refl, ◌∙◌, ap, min, List, [], ◌∷◌, true, arith,
}
use distributed_leader_elect.Edge.{Agent, Edge, Metric}
use distributed_leader_elect.Msg.{SrchRetPayload}
use distributed_leader_elect.Ghs.State.{Ctx, Result, done}
use distributed_leader_elect.Ghs.Peers.{waiting_count, is_waiting_for, get_edge}
use distributed_leader_elect.Ghs.Process.{process_srch_ret, process_ack_part, process_nack_part}
use distributed_leader_elect.Ghs.Answers.{
  Awaits, process_srch_ret-Awaits, process_nack_part-Awaits, process_ack_part-Awaits,
}

-- From one context to another by answers of awaited agents, each while another one is awaited too: their
-- number, and the metrics that the SRCH_RETs report and that the edges of the NACK_PARTs have.
pub data Answering : Ctx → Ctx → ℕ → List Metric → Type 0 where
  none_yet : (c : Ctx) → Answering c c 0 []
  reported :
      {d : Ctx} {k : ℕ} {ms : List Metric} (c : Ctx) (from : Agent) (pld : SrchRetPayload)
      → is_waiting_for c.state from ≡ done true
      → 2 ≤ waiting_count c.state
      → Answering (process_srch_ret from pld c).1 d k ms
      → Answering c d (suc k) (pld.metric ∷ ms)
  foreign :
      {d : Ctx} {k : ℕ} {ms : List Metric} (c : Ctx) (from : Agent) (e : Edge)
      → is_waiting_for c.state from ≡ done true
      → 2 ≤ waiting_count c.state
      → get_edge c.state from ≡ done e
      → Answering (process_nack_part from c).1 d k ms
      → Answering c d (suc k) (e.metric_val ∷ ms)
  related :
      {d : Ctx} {k : ℕ} {ms : List Metric} (c : Ctx) (from : Agent)
      → is_waiting_for c.state from ≡ done true
      → 2 ≤ waiting_count c.state
      → Answering (process_ack_part from c).1 d k ms
      → Answering c d (suc k) ms

-- The smallest of a metric and those of a list.
unfoldable pub lowest : Metric → List Metric → Metric
lowest m [] = m
lowest m (n ∷ ns) = lowest (min m n) ns

-- So many fewer agents are awaited, nothing was sent, and the best edge has this metric.
abbrev pub Gathers : Ctx → Ctx → ℕ → Metric → Type 0
Gathers c d k best =
    (waiting_count d.state + k ≡ waiting_count c.state)
    × (d.buf ≡ c.buf)
    × (d.state.best_edge.metric_val ≡ best)

-- One more answer before the others.
Gathers-more :
    (c d : Ctx) (k : ℕ) (best : Metric) (ms : List Metric) (p : Result (Unit {0}) × Ctx)
    → Awaits c best p
    → Gathers p.1 d k (lowest p.1.state.best_edge.metric_val ms)
    → Gathers c d (suc k) (lowest best ms)
Gathers-more c d k best ms p (_, same, _, fewer, b) (left, sent, low) =
    (omega (arith, fewer, left), sent ∙ same, low ∙ ap (λ m. lowest m ms) b)

-- However many answers come in, in whatever order, each from an awaited agent while another one is
-- awaited too: each of them leaves one agent fewer to wait for, so that no more of them can come than
-- agents were awaited at first; none makes the agent send anything; and the best edge has the smallest metric
-- of the one before, those of the reports, and those of the edges that lead out of the partition.
pub Answering-Gathers :
    {c d : Ctx} {k : ℕ} {ms : List Metric}
    → Answering c d k ms
    → Gathers c d k (lowest c.state.best_edge.metric_val ms)
unfolding lowest
Answering-Gathers (none_yet c) = (omega arith, refl, refl)
Answering-Gathers {d = d} (reported {k = k} {ms = ms} c from pld h more rest) =
    Gathers-more c d k _ ms (process_srch_ret from pld c)
      (process_srch_ret-Awaits c from h more pld) (Answering-Gathers rest)
Answering-Gathers {d = d} (foreign {k = k} {ms = ms} c from e h more g rest) =
    Gathers-more c d k _ ms (process_nack_part from c) (process_nack_part-Awaits c from h more e g)
      (Answering-Gathers rest)
Answering-Gathers {d = d} (related {k = k} {ms = ms} c from h more rest) =
    Gathers-more c d k _ ms (process_ack_part from c) (process_ack_part-Awaits c from h more)
      (Answering-Gathers rest)
