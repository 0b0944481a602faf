-- ===== src/Demo/Bytes.antt =====
-- src/demo/ghs-demo-msgutils.cpp and ghs-demo-msgutils-z.cpp: a `Msg` to bytes and back. The build
-- takes one file or the other. The memory of a `Msg` and the miniz library are parameters.
use distributed_leader_elect.Prelude.{ℕ, List, Option, none, some, length, take, leb, if◌then◌else◌}
use distributed_leader_elect.Msg.{Msg}
use distributed_leader_elect.Demo.Wire.{overwrite}

-- What the compiler and miniz provide. The memory of a `Msg` has `max_msg_sz` bytes, and determines
-- it. `compress room x` is the compressed data if `room` bytes are enough; `uncompress room z` is the
-- original data if `room` bytes are enough. `none` is any code but Z_OK.
pub record Memory : Type 0 where
  pub max_msg_sz : ℕ
  pub memory_of : Msg → List ℕ
  pub msg_at : List ℕ → Msg
  pub compress : ℕ → List ℕ → Option (List ℕ)
  pub uncompress : ℕ → List ℕ → Option (List ℕ)

-- Each function has none where it reads or writes past the end of the buffer `b`.
module _ (p : Memory) where
  -- ghs-demo-msgutils.cpp. The size is not looked at, nor set.
  unfoldable pub to_bytes : Msg → List ℕ → ℕ → Option (List ℕ × ℕ)
  to_bytes m b bsz =
      if leb p.max_msg_sz (length b)
      then some (overwrite (take p.max_msg_sz (p.memory_of m)) b, bsz)
      else none

  unfoldable pub from_bytes : List ℕ → ℕ → Option Msg
  from_bytes b c_sz =
      if leb p.max_msg_sz (length b) then some (p.msg_at (take p.max_msg_sz b)) else none

  -- ghs-demo-msgutils-z.cpp: it has none also where the assertion fails.
  unfoldable pub to_bytes_z : Msg → List ℕ → ℕ → Option (List ℕ × ℕ)
  to_bytes_z m b bsz = elim (p.compress bsz (p.memory_of m)) [
    | none ↦ none
    | some z ↦ if leb (length z) (length b) then some (overwrite z b, length z) else none
  ]

  unfoldable pub from_bytes_z : List ℕ → ℕ → Option Msg
  from_bytes_z b c_sz =
      if leb c_sz (length b)
      then elim (p.uncompress p.max_msg_sz (take c_sz b)) [
        | none ↦ none
        | some x ↦ some (p.msg_at x)
      ]
      else none
