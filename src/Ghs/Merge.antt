-- ===== src/Ghs/Merge.antt =====
-- JOIN_US over an edge that both ends have chosen: the two partitions merge.
use distributed_leader_elect.Prelude.{
  ◌≡◌, refl, ◌∙◌, true, false, eqb_ℤ, eqb_ℤ_refl, ℤ, ◌≤ℤ◌, ◌<ℤ◌, leb_ℤ, max_ℤ, incr_int32, arith,
}
use distributed_leader_elect.Edge.{Agent, mst, Edge}
use distributed_leader_elect.Msg.{JoinUsPayload}
use distributed_leader_elect.Ghs.State.{Ctx, done, steps}
use distributed_leader_elect.Ghs.Peers.{get_edge}
use distributed_leader_elect.Ghs.Search.{start_round}
use distributed_leader_elect.Ghs.Join.{
  process_join_us, merge, join_over, find_join_edge, responder_edge,
}

-- What the agent at `c` receives from `other`, across an edge that it has put into its tree: a request
-- of another partition, of a level that is not above its own.
pub record AskedBy (other : Agent) (c : Ctx) (pld : JoinUsPayload) (e : Edge) : Type 0 where
  pub to_me : pld.join_peer ≡ c.state.my_id
  pub from_other : pld.join_root ≡ other
  pub another : eqb_ℤ other c.state.my_id ≡ false
  pub other_leader : eqb_ℤ pld.proposed_leader c.state.my_leader ≡ false
  pub not_above : pld.proposed_level ≤ℤ c.state.my_level
  pub edge : get_edge c.state other ≡ done e
  pub chosen : e.status ≡ mst

-- The context in which both sides have a new leader, and a level more.
abbrev pub risen : Agent → Ctx → Ctx
risen leader c = record c {
  state = record c.state { my_leader = leader; my_level = incr_int32 c.state.my_level };
}

asked-merges :
    {other : Agent} {c : Ctx} {pld : JoinUsPayload} {e : Edge}
    → AskedBy other c pld e
    → process_join_us pld c ≡ merge pld c
unfolding process_join_us find_join_edge responder_edge join_over steps
asked-merges {other} {c} {pld} {e} a =
    let low : leb_ℤ pld.proposed_level c.state.my_level ≡ true = ground (arith, a.not_above) in
    rw
      (
        a.to_me,
        a.from_other,
        a.another,
        eqb_ℤ_refl c.state.my_id,
        a.another,
        a.other_leader,
        low,
        a.edge,
        a.chosen,
      )
      refl

pub max_of_less : (a b : ℤ) → a <ℤ b → (max_ℤ a b ≡ b) × (max_ℤ b a ≡ b)
unfolding max_ℤ
max_of_less a b h = (ground arith, ground arith)

-- Where two agents of different partitions have both put the edge between them into their trees, and
-- each gets the other's JOIN_US, of a level not above its own, then both recognize the one with the
-- larger id as the leader, at a level one more than their own: it starts a round, the other waits.
pub merge_elects :
    (c d : Ctx) (p q : JoinUsPayload) (e f : Edge)
    → AskedBy d.state.my_id c p e
    → AskedBy c.state.my_id d q f
    → c.state.my_id <ℤ d.state.my_id
    → (process_join_us p c ≡ (done tt, record (risen d.state.my_id c) { qsz = 0 }))
      × (process_join_us q d ≡ start_round (risen d.state.my_id d))
unfolding merge steps
merge_elects c d p q e f a b less =
    let (up, down) = max_of_less c.state.my_id d.state.my_id less in
    (
      asked-merges a ∙ rw (a.to_me, a.from_other, up, a.another) refl,
      asked-merges b ∙ rw (b.to_me, b.from_other, down, eqb_ℤ_refl d.state.my_id) refl,
    )
