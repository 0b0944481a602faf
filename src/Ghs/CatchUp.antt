-- ===== src/Ghs/CatchUp.antt =====
-- `check_new_level`: the answers that had to wait for a higher level.
use mathlib.Core.Bool.{and-true, and-false}
use distributed_leader_elect.Prelude.{
  ℕ, zero, suc, ◌+◌, ◌≤◌, ◌<◌, ◌≡◌, ◌≢◌, refl, sym, ap, ◌∙◌, List, [], ◌∷◌, ◌++◌, Bool, true, false,
  not, ◌&&◌, length, get_or, set, get_or-set_ne, eqb_ℤ, ltb, ◌==◌, if◌then◌else◌, Bool-cases,
  if_post, ◌⊎◌, inl, inr, arith,
}
use distributed_leader_elect.Edge.{no_agent}
use distributed_leader_elect.Msg.{Msg, msg, ack_part_data, nack_part_data}
use distributed_leader_elect.Seque.{push}
use distributed_leader_elect.Seque.Run.{push_all}
use distributed_leader_elect.Ghs.State.{GhsState, Buf, Ctx, done, steps, with_count}
use distributed_leader_elect.Ghs.Peers.{blank_prompt}
use distributed_leader_elect.Ghs.Search.{
  process_in_part, answer_delayed, is_due, level_step, level_loop, check_new_level,
}

-- The answer to the IN_PART that was kept in the cell `idx`.
abbrev pub answer_at : GhsState → ℕ → Msg
answer_at s idx = msg (get_or s.peers idx no_agent) s.my_id (
    if eqb_ℤ (get_or s.response_prompt idx blank_prompt).leader s.my_leader
    then ack_part_data
    else nack_part_data)

-- The answers that are due in `k` cells from `idx` on.
abbrev pub answers_due : GhsState → ℕ → ℕ → List Msg
answers_due s zero idx = []
answers_due s (suc k) idx =
    (if is_due s idx then answer_at s idx ∷ [] else []) ++ answers_due s k (suc idx)

-- The flags of these cells, those that are due cleared.
abbrev pub cleared_flags : GhsState → ℕ → ℕ → List Bool → List Bool
cleared_flags s zero idx flags = flags
cleared_flags s (suc k) idx flags =
    cleared_flags s k (suc idx) (if is_due s idx then set flags idx false else flags)

abbrev pub with_flags : GhsState → List Bool → GhsState
with_flags s flags = record s { response_required = flags }

-- One cell: the answer and the flag.
level_step_due :
    (idx : ℕ) (c : Ctx)
    → is_due c.state idx ≡ true
    → level_step idx c ≡ (
      done tt,
      record {
        state = with_flags c.state (set c.state.response_required idx false);
        buf = (push c.buf (answer_at c.state idx)).1;
        qsz = c.qsz + 1;
      },
    )
unfolding level_step answer_delayed process_in_part with_count steps
level_step_due idx c h = ground arith

level_step_early :
    (idx : ℕ) (c : Ctx) → is_due c.state idx ≡ false → level_step idx c ≡ (done tt, c)
unfolding level_step steps
level_step_early idx c h = ground arith

-- The flags from `idx` on are still those of `s`.
abbrev AgreeFrom : GhsState → ℕ → List Bool → Type 0
AgreeFrom s idx flags =
    (j : ℕ) → idx ≤ j → get_or flags j false ≡ get_or s.response_required j false

next-AgreeFrom :
    (s : GhsState) (idx : ℕ) (flags : List Bool)
    → AgreeFrom s idx flags
    → AgreeFrom s (suc idx) (set flags idx false)
next-AgreeFrom s idx flags h j le =
    get_or-set_ne flags idx j false false (λ e. omega (arith, e)) ∙ h j (omega arith)

level_loop_lem :
    (k idx : ℕ) (s : GhsState) (flags : List Bool) (q : Buf) (n : ℕ)
    → AgreeFrom s idx flags
    → level_loop k idx (record { state = with_flags s flags; buf = q; qsz = n }) ≡ (
      done tt,
      record {
        state = with_flags s (cleared_flags s k idx flags);
        buf = push_all q (answers_due s k idx);
        qsz = n + length (answers_due s k idx);
      },
    )
unfolding level_loop push_all steps
level_loop_lem zero idx s flags q n h = ground arith
level_loop_lem (suc k) idx s flags q n h = elim (Bool-cases (is_due s idx)) [
  | inl due ↦
      rw
        (
          level_step_due idx (record { state = with_flags s flags; buf = q; qsz = n })
              (rw (h idx (omega arith)) due),
          due,
        )
        (level_loop_lem k (suc idx) s (set flags idx false) (push q (answer_at s idx)).1 (n + 1)
            (next-AgreeFrom s idx flags h)
          ∙ ground arith)
  | inr early ↦
      rw
        (
          level_step_early idx (record { state = with_flags s flags; buf = q; qsz = n })
              (rw (h idx (omega arith)) early),
          early,
        )
        (level_loop_lem k (suc idx) s flags q n (λ j le. h j (omega arith)))
]

get_or-set-false : (flags : List Bool) (i : ℕ) → get_or (set flags i false) i false ≡ false
get_or-set-false [] i = refl
get_or-set-false (f ∷ fs) zero = refl
get_or-set-false (f ∷ fs) (suc i) = get_or-set-false fs i

-- The flags after the cell `idx` was visited.
abbrev visited : GhsState → ℕ → List Bool → List Bool
visited s idx flags = if is_due s idx then set flags idx false else flags

visited_here :
    (s : GhsState) (idx : ℕ) (flags : List Bool)
    → get_or (visited s idx flags) idx false ≡ (get_or flags idx false && not (is_due s idx))
visited_here s idx flags = elim (Bool-cases (is_due s idx)) [
  | inl due ↦ rw due (get_or-set-false flags idx ∙ sym (and-false (get_or flags idx false)))
  | inr early ↦ rw early (sym (and-true (get_or flags idx false)))
]

visited_elsewhere :
    (s : GhsState) (idx : ℕ) (flags : List Bool) (j : ℕ)
    → idx ≢ j
    → get_or (visited s idx flags) j false ≡ get_or flags j false
visited_elsewhere s idx flags j ne =
    if_post (λ (fs : List Bool). get_or fs j false ≡ get_or flags j false) (is_due s idx)
      (get_or-set_ne flags idx j false false ne) refl

-- A flag outside the cells that are visited,
cleared_flags_outside :
    (k idx : ℕ) (s : GhsState) (flags : List Bool) (j : ℕ)
    → (j < idx) ⊎ (idx + k ≤ j)
    → get_or (cleared_flags s k idx flags) j false ≡ get_or flags j false
cleared_flags_outside zero idx s flags j h = refl
cleared_flags_outside (suc k) idx s flags j h =
    cleared_flags_outside k (suc idx) s (visited s idx flags) j (narrower h)
    ∙ visited_elsewhere s idx flags j
        (λ e. elim h [ inl l ↦ omega (arith, e) | inr l ↦ omega (arith, e) ])
  where
    narrower : (j < idx) ⊎ (idx + suc k ≤ j) → (j < suc idx) ⊎ (suc idx + k ≤ j)
    narrower (inl l) = inl (omega arith)
    narrower (inr l) = inr (omega arith)

-- and one inside.
cleared_flags_inside :
    (k idx : ℕ) (s : GhsState) (flags : List Bool) (j : ℕ)
    → idx ≤ j
    → j < idx + k
    → get_or (cleared_flags s k idx flags) j false ≡ (get_or flags j false && not (is_due s j))
cleared_flags_inside zero idx s flags j low high = absurd (omega arith)
cleared_flags_inside (suc k) idx s flags j low high = elim (Bool-cases (j == idx)) [
  | inl here ↦
      let e : j ≡ idx = ground arith in
      rw e (
        cleared_flags_outside k (suc idx) s (visited s idx flags) idx (inl (omega arith))
        ∙ visited_here s idx flags)
  | inr later ↦
      let ne : idx ≢ j = ground arith in
      cleared_flags_inside k (suc idx) s (visited s idx flags) j (ground arith) (omega arith)
      ∙ ap (λ (b : Bool). b && not (is_due s j)) (visited_elsewhere s idx flags j ne)
]

-- `check_new_level` sends, in the order of the cells, the answer to every IN_PART that it kept and
-- whose level the agent has reached: ACK_PART if its leader is the agent's own, NACK_PART if not. It
-- succeeds and reports their number; the flags of these cells are cleared, no other flag, and
-- nothing else about the agent changes.
pub check_new_level_catches_up :
    (c : Ctx)
    → (flags : List Bool) × (check_new_level c ≡ (
      done tt,
      record {
        state = with_flags c.state flags;
        buf = push_all c.buf (answers_due c.state c.state.n_peers 0);
        qsz = length (answers_due c.state c.state.n_peers 0);
      },
    ))
      × ((j : ℕ)
          → get_or flags j false ≡ (
              get_or c.state.response_required j false
              && not (ltb j c.state.n_peers && is_due c.state j)))
unfolding check_new_level steps
check_new_level_catches_up c =
    let s = c.state in
    (
      cleared_flags s s.n_peers 0 s.response_required,
      level_loop_lem s.n_peers 0 s s.response_required c.buf 0 (λ j _. refl) ∙ ground arith,
      λ j. elim (Bool-cases (ltb j s.n_peers)) [
        | inl inside ↦
            rw inside (
              cleared_flags_inside s.n_peers 0 s s.response_required j (omega arith) (ground arith))
        | inr beyond ↦ rw beyond (
            cleared_flags_outside s.n_peers 0 s s.response_required j (inr (ground arith))
            ∙ sym (and-true _))
      ],
    )
