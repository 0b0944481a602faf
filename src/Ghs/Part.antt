-- ===== src/Ghs/Part.antt =====
-- IN_PART from an agent that is ahead, and IN_PART with a full queue.
use distributed_leader_elect.Prelude.{
  ℕ, ◌≡◌, refl, Bool-cases, ◌==◌, ◌≤ℤ◌, inl, inr, eqb_ℤ, ap, List, Bool, true, false,
  get_or-set_self, set, ◌<ℤ◌, leb_ℤ, arith,
}
use distributed_leader_elect.Edge.{Agent}
use distributed_leader_elect.Msg.{InPartPayload}
use distributed_leader_elect.Seque.{push}
use distributed_leader_elect.Ghs.State.{GhsState, Ctx, done, steps}
use distributed_leader_elect.Ghs.Peers.{
  respond_later, is_response_required, get_response_prompt, checked_index_of, blank_prompt,
}
use distributed_leader_elect.Ghs.Lookup.{checked_index_of-found}
use distributed_leader_elect.Ghs.WellFormed.{WellFormed}
use distributed_leader_elect.Ghs.Search.{process_in_part}

index-respond_later :
    (s : GhsState) (bs : List Bool) (ps : List InPartPayload) (who : Agent)
    → checked_index_of (record s { response_required = bs; response_prompt = ps }) who
      ≡ checked_index_of s who
unfolding checked_index_of
index-respond_later s bs ps who = refl

-- An agent that is ahead is not answered: the call sends nothing, reports 0, and keeps the message, so
-- that the peer is marked as one to answer, with this message as the prompt.
pub process_in_part_later :
    (c : Ctx) (from : Agent) (pld : InPartPayload) (idx : ℕ)
    → WellFormed c.state
    → checked_index_of c.state from ≡ done idx
    → c.state.my_level <ℤ pld.level
    → let p = process_in_part from pld c in
      (p.0 ≡ done tt)
      × (p.1.buf ≡ c.buf)
      × (p.1.qsz ≡ 0)
      × (is_response_required p.1.state from ≡ done true)
      × (get_response_prompt p.1.state from ≡ done pld)
unfolding process_in_part steps respond_later is_response_required get_response_prompt
process_in_part_later c from pld idx w h ahead =
    let (used, inside, _, _) = checked_index_of-found c.state from idx h in
    let behind : leb_ℤ pld.level c.state.my_level ≡ false = ground arith in
    let required = set c.state.response_required idx true in
    let prompts = set c.state.response_prompt idx pld in
    rw (behind, h, index-respond_later c.state required prompts from, h)
      (
        refl,
        refl,
        refl,
        ap done (
            get_or-set_self c.state.response_required idx true false
              (omega (arith, w.required_size, w.in_room))),
        ap done (
            get_or-set_self c.state.response_prompt idx pld blank_prompt
              (omega (arith, w.prompt_size, w.in_room))),
      )

-- With a full queue, an IN_PART of an agent that is not ahead is reported as answered (OK, and a count
-- of 1), but no answer is in the queue.
pub process_in_part_full :
    (c : Ctx) (from : Agent) (pld : InPartPayload)
    → c.buf.count ≡ c.buf.capacity
    → pld.level ≤ℤ c.state.my_level
    → process_in_part from pld c ≡ (done tt, record c { qsz = 1 })
unfolding process_in_part steps push
process_in_part_full c from pld full low =
    let behind : leb_ℤ pld.level c.state.my_level ≡ true = ground arith in
    let no_room : (c.buf.count == c.buf.capacity) ≡ true = ground arith in
    elim (Bool-cases (eqb_ℤ pld.leader c.state.my_leader)) [
      | inl same ↦ rw (behind, same, no_room) refl
      | inr other ↦ rw (behind, other, no_room) refl
    ]
