-- ===== src/Ghs/State.antt =====
-- The fields of `GhsState`, and the calls' state: the object, the caller's queue and the `size_t&`.
use distributed_leader_elect.Prelude.{ℕ, ◌+◌, List, Bool, if◌then◌else◌}
use distributed_leader_elect.Errno.{Errno, ok}
use distributed_leader_elect.Edge.{Agent, Level, Edge}
use distributed_leader_elect.Msg.{Msg, InPartPayload}
use distributed_leader_elect.Seque.{StaticQueue, push}

-- `GhsState<NUM_AGENTS, MSG_Q_SIZE>`; `max_agents` is the first template argument, and each array
-- has that many cells.
pub record GhsState : Type 0 where
  pub max_agents : ℕ
  pub my_id : Agent
  pub my_leader : Agent
  pub my_level : Level
  pub algorithm_converged : Bool
  pub best_edge : Edge
  pub n_peers : ℕ
  pub peers : List Agent
  pub waiting_for_response : List Bool
  pub outgoing_edges : List Edge
  pub response_prompt : List InPartPayload
  pub response_required : List Bool

-- The outgoing buffer of the caller; `MSG_Q_SIZE` is its capacity.
abbrev pub Buf : Type 0
Buf = StaticQueue Msg

-- What a handler reads and writes: `*this`, the outgoing buffer, and the count `qsz`.
pub record Ctx : Type 0 where
  pub state : GhsState
  pub buf : Buf
  pub qsz : ℕ

-- A call that hands over a value when its code is OK, and a code other than OK if not.
pub data Result (A : Type 0) : Type 0 where
  done : A → Result A
  fail : Errno → Result A

abbrev pub code : Result (Unit {0}) → Errno
code (done _) = ok
code (fail e) = e

-- A handler. What it has changed before it fails stays changed.
abbrev pub M : Type 0 → Type 0
M A = Ctx → Result A × Ctx

-- What follows a call, if its code is OK.
abbrev pub and_then : {A B : Type 0} → Result A × Ctx → (A → M B) → Result B × Ctx
and_then (done a, c) f = f a c
and_then (fail e, c) f = (fail e, c)

infixl 5 ◌>>=◌ ◌>>◌
unfoldable pub ◌>>=◌ : {A B : Type 0} → M A → (A → M B) → M B
◌>>=◌ m f c = and_then (m c) f

abbrev pub ◌>>◌ : {B : Type 0} → M (Unit {0}) → M B → M B
m >> k = m >>= λ _. k

unfoldable pub return : {A : Type 0} → A → M A
return a c = (done a, c)

unfoldable pub raise : {A : Type 0} → Errno → M A
raise e c = (fail e, c)

-- `if (!test) return e;`
unfoldable pub check : Bool → Errno → M (Unit {0})
check b e c = if b then (done tt, c) else (fail e, c)

unfoldable pub lift : {A : Type 0} → Result A → M A
lift r c = (r, c)

-- The object as it stands, and a write to it.
unfoldable pub get : M GhsState
get c = (done c.state, c)

unfoldable pub modify : (GhsState → GhsState) → M (Unit {0})
modify f c = (done tt, record c { state = f c.state })

unfoldable pub set_qsz : ℕ → M (Unit {0})
set_qsz n c = (done tt, record c { qsz = n })

unfoldable pub add_qsz : ℕ → M (Unit {0})
add_qsz n c = (done tt, record c { qsz = c.qsz + n })

unfoldable pub buffer : M Buf
buffer c = (done c.buf, c)

-- A setter of the object.
unfoldable pub call : (GhsState → Result (Unit {0}) × GhsState) → M (Unit {0})
call f c = let (r, s) = f c.state in (r, record c { state = s })

-- `buf.push(m);`, its code dropped.
unfoldable pub send : Msg → M (Unit {0})
send m c = (done tt, record c { buf = (push c.buf m).1 })

-- The count of a cast, where it succeeds.
abbrev pub write_count : Result ℕ → Ctx → Result (Unit {0}) × Ctx
write_count (done n) c = (done tt, record c { qsz = n })
write_count (fail e) c = (fail e, c)

-- A cast into the caller's buffer: the count is written only where it succeeds.
unfoldable pub cast_out : (GhsState → Buf → Result ℕ × Buf) → M (Unit {0})
cast_out f c = let (r, b) = f c.state c.buf in write_count r (record c { buf = b })

abbrev pub counted : ℕ → Result (Unit {0}) → Result ℕ
counted n (done _) = done n
counted n (fail e) = fail e

-- A call whose count goes to a local variable that starts at 0.
unfoldable pub with_count : M (Unit {0}) → M ℕ
with_count m c =
    let (r, c') = m (record c { qsz = 0 }) in (counted c'.qsz r, record c' { qsz = c.qsz })

-- Stands for the steps above on an `unfolding` line.
unfoldable pub steps : Unit {0}
unfolding ◌>>=◌ return raise check lift get modify set_qsz add_qsz buffer call send
steps = tt
