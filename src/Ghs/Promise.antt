-- ===== src/Ghs/Promise.antt =====
-- What `process` and `start_round` promise to the code that drives them.
use distributed_leader_elect.Prelude.{◌+◌, ◌≤◌, ◌≡◌, refl, ◌∙◌, ap, List, length, arith}
use distributed_leader_elect.Msg.{Msg}
use distributed_leader_elect.Seque.{size}
use distributed_leader_elect.Seque.Inv.{IsValid}
use distributed_leader_elect.Seque.Run.{push_all, count-push_all}
use distributed_leader_elect.Ghs.State.{Ctx, Result, done, fail}
use distributed_leader_elect.Ghs.Search.{start_round}
use distributed_leader_elect.Ghs.Process.{process}
use distributed_leader_elect.Ghs.Frame.{Keeps}
use distributed_leader_elect.Ghs.Contract.{Own, Tally, Ready, CountedAt}
use distributed_leader_elect.Ghs.Handlers.Messages.{process-Counts, start_round-Counts}

-- The messages that a call pushed are this agent's own, each with the type of its payload; the count
-- is their number if the code is OK, and untouched if it is not.
abbrev pub Sends : Ctx → Result (Unit {0}) × Ctx → Type 0
Sends c p =
    (sent : List Msg) × (p.1.buf ≡ push_all c.buf sent)
    × Own c.state.my_id sent
    × Tally p.0 0 c.qsz p.1.qsz (length sent)

ready : (c : Ctx) → IsValid c.buf → Ready c.state.my_id c
ready c v = record { of_agent = refl; queue = v }

grows_by :
    (c : Ctx) (p : Result (Unit {0}) × Ctx)
    → IsValid c.buf
    → CountedAt c.state.my_id 0 c p
    → p.0 ≡ done tt
    → size c.buf + p.1.qsz ≤ c.buf.capacity
    → size p.1.buf ≡ size c.buf + p.1.qsz
grows_by c (done _, d) v (sent, g, t) o room =
    let fits : size c.buf + length sent ≤ c.buf.capacity = omega arith in
    ap (λ q. size q) g.pushed ∙ count-push_all c.buf sent v fits ∙ omega arith
grows_by c (fail e, d) v (sent, g, t) o room = cc

-- On a well-formed queue, `process` changes neither the agent's id, nor its peers, nor the ends and
-- metrics of its edges, whatever the message and whatever the code that it returns.
pub process-Keeps : (m : Msg) (c : Ctx) → IsValid c.buf → Keeps c.state (process m c).1.state
process-Keeps m c v = ((process-Counts m).counts_at c (ready c v)).1.keeps

-- Whatever `process` leaves in a well-formed queue is what was there and, behind it, the messages
-- that it pushed, one `push` after another: each is from this agent and of the type of its payload.
-- The count is the number of these messages if the code is OK, and is left alone if it is not.
pub process-Sends : (m : Msg) (c : Ctx) → IsValid c.buf → Sends c (process m c)
process-Sends m c v =
    let (sent, g, t) = (process-Counts m).counts_at c (ready c v) in (sent, g.pushed, g.own, t)

-- If `process` succeeds on a well-formed queue that has room for as many messages as the count
-- says, then the queue is longer by the count: no message was lost.
pub process_loses_nothing :
    (m : Msg) (c : Ctx)
    → IsValid c.buf
    → (process m c).0 ≡ done tt
    → size c.buf + (process m c).1.qsz ≤ c.buf.capacity
    → size (process m c).1.buf ≡ size c.buf + (process m c).1.qsz
process_loses_nothing m c v =
    grows_by c (process m c) v ((process-Counts m).counts_at c (ready c v))

-- `start_round` on a well-formed queue keeps the agent's id, its peers and the ends and metrics of
-- its edges. It pushes messages from this agent, each of the type of its payload, and the count is
-- their number if the code is OK, and is left alone if it is not.
pub start_round-Sends :
    (c : Ctx) → IsValid c.buf → Keeps c.state (start_round c).1.state × Sends c (start_round c)
start_round-Sends c v =
    let (sent, g, t) = start_round-Counts.counts_at c (ready c v) in
    (g.keeps, (sent, g.pushed, g.own, t))
