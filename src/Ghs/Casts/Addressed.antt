-- ===== src/Ghs/Casts/Addressed.antt =====
-- What a cast sends: one message along each edge of the status, in the order of the edges.
use distributed_leader_elect.Prelude.{
  ℕ, suc, ◌+◌, ◌≡◌, refl, ◌∙◌, List, [], ◌∷◌, Bool-cases, inl, inr, length, take, eqb_ℤ, eqb_ℤ_refl,
  if◌then◌else◌, arith,
}
use distributed_leader_elect.Edge.{Agent, Status, mst, mst_parent, Edge, eqb_status}
use distributed_leader_elect.Msg.{Msg, MsgType, Payload, msg_typed, type_of}
use distributed_leader_elect.Seque.{push}
use distributed_leader_elect.Seque.Run.{push_all}
use distributed_leader_elect.Ghs.State.{GhsState, Buf, Result, done, fail}
use distributed_leader_elect.Ghs.Casts.{cast_loop, typecast, mst_broadcast, mst_convergecast}
use distributed_leader_elect.Ghs.Contract.{Own}

-- The messages along the edges of a status.
unfoldable pub addressed : Agent → Status → MsgType → Payload → List Edge → List Msg
addressed id status t d [] = []
addressed id status t d (e ∷ es) =
    if eqb_status e.status status
    then msg_typed e.peer id t d ∷ addressed id status t d es
    else addressed id status t d es

-- Every edge starts at `id`.
abbrev pub Rooted : Agent → List Edge → Type 0
Rooted id [] = Unit {0}
Rooted id (e ∷ es) = (e.root ≡ id) × Rooted id es

addressed-Own :
    (id : Agent) (status : Status) (t : MsgType) (d : Payload) (es : List Edge)
    → t ≡ type_of d
    → Own id (addressed id status t d es)
unfolding addressed
addressed-Own id status t d [] h = tt
addressed-Own id status t d (e ∷ es) h = elim (Bool-cases (eqb_status e.status status)) [
  | inl y ↦ rw y (refl, h, addressed-Own id status t d es h)
  | inr y ↦ rw y (addressed-Own id status t d es h)
]

cast_loop-all :
    (id : Agent) (status : Status) (t : MsgType) (d : Payload) (es : List Edge) (buf : Buf) (n : ℕ)
    → Rooted id es
    → cast_loop id status t d es buf n
      ≡ (done (n + length (addressed id status t d es)), push_all buf (addressed id status t d es))
unfolding cast_loop addressed push_all
cast_loop-all id status t d [] buf n h = ground arith
cast_loop-all id status t d (e ∷ es) buf n h =
    rw (h.0, eqb_ℤ_refl id)
      (elim (Bool-cases (eqb_status e.status status)) [
        | inl y ↦ rw y (
            cast_loop-all id status t d es (push buf (msg_typed e.peer id t d)).1 (n + 1) h.1
            ∙ ground arith)
        | inr y ↦ rw y (cast_loop-all id status t d es buf n h.1)
      ])

-- A count that is right, if there is one.
abbrev pub CountIs : Result ℕ → ℕ → Type 0
CountIs (done x) k = x ≡ k
CountIs (fail _) k = Unit {0}

CountIs-same : (r : Result ℕ) (j k : ℕ) → j ≡ k → CountIs r j → CountIs r k
CountIs-same (done x) j k e h = h ∙ e
CountIs-same (fail _) j k e h = tt

-- What a cast does on any object, whether or not its edges start at `id`.
abbrev pub Casts : Agent → Buf → ℕ → Result ℕ × Buf → Type 0
Casts id buf n p =
    (sent : List Msg) × (p.1 ≡ push_all buf sent) × Own id sent × CountIs p.0 (n + length sent)

cast_loop-Casts :
    (id : Agent) (status : Status) (t : MsgType) (d : Payload) (es : List Edge) (buf : Buf) (n : ℕ)
    → t ≡ type_of d
    → Casts id buf n (cast_loop id status t d es buf n)
unfolding cast_loop push_all
cast_loop-Casts id status t d [] buf n h = ([], refl, tt, omega arith)
cast_loop-Casts id status t d (e ∷ es) buf n h = elim (Bool-cases (eqb_ℤ e.root id)) [
  | inl mine ↦ rw mine (elim (Bool-cases (eqb_status e.status status)) [
    | inl y ↦
        let (ms, p, o, k) =
          cast_loop-Casts id status t d es (push buf (msg_typed e.peer id t d)).1 (n + 1) h in
        rw y (
          msg_typed e.peer id t d ∷ ms,
          p,
          (refl, h, o),
          CountIs-same _ (n + 1 + length ms) (n + suc (length ms)) (omega arith) k,
        )
    | inr y ↦ rw y (cast_loop-Casts id status t d es buf n h)
  ])
  | inr other ↦ rw other ([], refl, tt, tt)
]

module _ (s : GhsState) (t : MsgType) (d : Payload) (buf : Buf) (h : t ≡ type_of d) where
  pub typecast-Casts : (status : Status) → Casts s.my_id buf 0 (typecast s status t d buf)
  unfolding typecast
  typecast-Casts status =
      cast_loop-Casts s.my_id status t d (take s.n_peers s.outgoing_edges) buf 0 h

  pub mst_broadcast-Casts : Casts s.my_id buf 0 (mst_broadcast s t d buf)
  unfolding mst_broadcast
  mst_broadcast-Casts = cast_loop-Casts s.my_id mst t d (take s.n_peers s.outgoing_edges) buf 0 h

  pub mst_convergecast-Casts : Casts s.my_id buf 0 (mst_convergecast s t d buf)
  unfolding mst_convergecast
  mst_convergecast-Casts =
      cast_loop-Casts s.my_id mst_parent t d (take s.n_peers s.outgoing_edges) buf 0 h

-- The edges of an object that are in use.
abbrev pub edges_in_use : GhsState → List Edge
edges_in_use s = take s.n_peers s.outgoing_edges

-- The cast to the edges of a status has done all of its work.
abbrev pub Reached : GhsState → Status → MsgType → Payload → Buf → Result ℕ × Buf → Type 0
Reached s status t d buf p =
    let all = addressed s.my_id status t d (edges_in_use s) in
    p ≡ (done (length all), push_all buf all)

loop-Reached :
    (s : GhsState) (status : Status) (t : MsgType) (d : Payload) (buf : Buf)
    → Rooted s.my_id (edges_in_use s)
    → Reached s status t d buf (cast_loop s.my_id status t d (edges_in_use s) buf 0)
loop-Reached s status t d buf h =
    cast_loop-all s.my_id status t d (edges_in_use s) buf 0 h ∙ ground arith

-- Where every edge in use starts at this agent, each of the three casts succeeds, pushes exactly one
-- message along each edge of its status (the given status, MST, MST_PARENT), in the order of the
-- edges, and reports their number.
pub casts_reach :
    (s : GhsState) (status : Status) (t : MsgType) (d : Payload) (buf : Buf)
    → Rooted s.my_id (edges_in_use s)
    → Reached s status t d buf (typecast s status t d buf)
      × Reached s mst t d buf (mst_broadcast s t d buf)
      × Reached s mst_parent t d buf (mst_convergecast s t d buf)
unfolding typecast mst_broadcast mst_convergecast
casts_reach s status t d buf h = (
  loop-Reached s status t d buf h,
  loop-Reached s mst t d buf h,
  loop-Reached s mst_parent t d buf h,
)
