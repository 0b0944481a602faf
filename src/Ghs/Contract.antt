-- ===== src/Ghs/Contract.antt =====
-- The contract of the handlers, and a rule for each construct that they are made of.
use distributed_leader_elect.Prelude.{ℕ, ◌+◌, ◌≡◌, ◌∙◌, ap, sym, List, [], ◌∷◌, ◌++◌, length}
use mathlib.Core.Path.{subst}
use distributed_leader_elect.Edge.{Agent}
use distributed_leader_elect.Msg.{Msg, type_of}
use distributed_leader_elect.Seque.Inv.{IsValid}
use distributed_leader_elect.Seque.Run.{push_all, push_all-append, push_all-IsValid}
use distributed_leader_elect.Ghs.State.{Ctx, Result, done, fail, M}
use distributed_leader_elect.Ghs.Frame.{Keeps, Keeps-trans}

-- Messages of this agent, each with the type of its payload.
abbrev pub Own : Agent → List Msg → Type 0
Own id [] = Unit {0}
Own id (m ∷ ms) = (m.from ≡ id) × (m.type ≡ type_of m.payload) × Own id ms

pub Own-append : (id : Agent) (xs ys : List Msg) → Own id xs → Own id ys → Own id (xs ++ ys)
Own-append id [] ys h k = k
Own-append id (x ∷ xs) ys h k = (h.0, h.1, Own-append id xs ys h.2 k)

-- From one context to another: the topology is kept, and the messages `sent` were pushed.
pub record Grows (id : Agent) (c c' : Ctx) (sent : List Msg) : Type 0 where
  pub keeps : Keeps c.state c'.state
  pub pushed : c'.buf ≡ push_all c.buf sent
  pub own : Own id sent

module _ {id : Agent} where
  pub Grows-still : (c c' : Ctx) → Keeps c.state c'.state → c'.buf ≡ c.buf → Grows id c c' []
  unfolding push_all
  Grows-still c c' k b = record { keeps = k; pushed = b; own = tt }

  pub Grows-after :
      {c d e : Ctx} {xs : List Msg}
      → Keeps c.state d.state
      → d.buf ≡ c.buf
      → Grows id d e xs
      → Grows id c e xs
  Grows-after {xs = xs} k b g = record {
    keeps = Keeps-trans k g.keeps;
    pushed = g.pushed ∙ ap (λ q. push_all q xs) b;
    own = g.own;
  }

  pub Grows-then :
      {c d e : Ctx} {xs : List Msg}
      → Grows id c d xs
      → Keeps d.state e.state
      → e.buf ≡ d.buf
      → Grows id c e xs
  Grows-then g k b = record { keeps = Keeps-trans g.keeps k; pushed = b ∙ g.pushed; own = g.own }

  -- The count is no part of it.
  pub Grows-qsz :
      {c d : Ctx} {xs : List Msg} (j k : ℕ)
      → Grows id c d xs
      → Grows id (record c { qsz = j }) (record d { qsz = k }) xs
  Grows-qsz j k g = record { keeps = g.keeps; pushed = g.pushed; own = g.own }

  pub Grows-trans :
      {c d e : Ctx} {xs ys : List Msg} → Grows id c d xs → Grows id d e ys → Grows id c e (xs ++ ys)
  Grows-trans {c} {xs = xs} {ys = ys} g h = record {
    keeps = Keeps-trans g.keeps h.keeps;
    pushed = h.pushed ∙ ap (λ b. push_all b ys) g.pushed ∙ sym (push_all-append c.buf xs ys);
    own = Own-append id xs ys g.own h.own;
  }

-- Neither the queue nor the count changes.
abbrev pub StillAt : {A : Type 0} → Ctx → Result A × Ctx → Type 0
StillAt c p = Keeps c.state p.1.state × (p.1.buf ≡ c.buf) × (p.1.qsz ≡ c.qsz)

-- The count after a call that pushed `n` messages, where `k` were pushed before: their sum if its
-- code is OK, untouched if not.
abbrev pub Tally : {A : Type 0} → Result A → ℕ → ℕ → ℕ → ℕ → Type 0
Tally (done _) k before after n = after ≡ k + n
Tally (fail _) k before after n = after ≡ before

abbrev pub CountedAt : {A : Type 0} → Agent → ℕ → Ctx → Result A × Ctx → Type 0
CountedAt id k c p =
    (sent : List Msg) × Grows id c p.1 sent × Tally p.0 k c.qsz p.1.qsz (length sent)

-- The count after a call that adds the number of its messages to it.
abbrev pub Sum : {A : Type 0} → Result A → ℕ → ℕ → ℕ → Type 0
Sum (done _) before after n = after ≡ before + n
Sum (fail _) before after n = Unit {0}

abbrev pub SummedAt : {A : Type 0} → Agent → Ctx → Result A × Ctx → Type 0
SummedAt id c p = (sent : List Msg) × Grows id c p.1 sent × Sum p.0 c.qsz p.1.qsz (length sent)

-- The messages of a call that leaves the count alone.
abbrev pub QuietAt : {A : Type 0} → Agent → ℕ → Ctx → Result A × Ctx → Type 0
QuietAt id n c p = (sent : List Msg) × Grows id c p.1 sent × (p.1.qsz ≡ c.qsz) × (length sent ≡ n)

-- A context of the agent `id`, with a well-formed queue.
pub record Ready (id : Agent) (c : Ctx) : Type 0 where
  pub of_agent : c.state.my_id ≡ id
  pub queue : IsValid c.buf

pub Ready-qsz : {id : Agent} {c : Ctx} (j : ℕ) → Ready id c → Ready id (record c { qsz = j })
Ready-qsz j r = record { of_agent = r.of_agent; queue = r.queue }

pub Ready-still :
    {id : Agent} {c d : Ctx} → Ready id c → Keeps c.state d.state → d.buf ≡ c.buf → Ready id d
Ready-still r k b = record {
  of_agent = k.same_id ∙ r.of_agent;
  queue = subst (λ q. IsValid q) (sym b) r.queue;
}

pub Ready-Grows :
    {id : Agent} {c d : Ctx} {xs : List Msg} → Ready id c → Grows id c d xs → Ready id d
Ready-Grows {c = c} {xs = xs} r g = record {
  of_agent = g.keeps.same_id ∙ r.of_agent;
  queue = subst (λ q. IsValid q) (sym g.pushed) (push_all-IsValid c.buf xs r.queue);
}

-- The contracts of a handler of the agent `id`.
module _ (id : Agent) {A : Type 0} where
  -- It sends nothing, and leaves the count alone.
  pub record Still (m : M A) : Type 0 where
    pub still_at : (c : Ctx) → Ready id c → StillAt c (m c)

  -- The count becomes `k` and the number of messages.
  pub record Counts (k : ℕ) (m : M A) : Type 0 where
    pub counts_at : (c : Ctx) → Ready id c → CountedAt id k c (m c)

  -- The number of messages is added to the count.
  pub record Sums (m : M A) : Type 0 where
    pub sums_at : (c : Ctx) → Ready id c → SummedAt id c (m c)

  -- It sends `n` messages, and leaves the count alone.
  pub record Quiet (n : ℕ) (m : M A) : Type 0 where
    pub quiet_at : (c : Ctx) → Ready id c → QuietAt id n c (m c)
