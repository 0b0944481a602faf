-- ===== src/Tools.antt =====
-- src/tools: programs that make and read graphs as lines of text.
pub mod MiddleLeader
pub mod RandomGraph
mod Tests
use distributed_leader_elect.Prelude.{ℕ, ℤ}

-- One line: two nodes, the weight of the edge between them, and a mark.
pub record Line : Type 0 where
  pub from : ℤ
  pub to : ℤ
  pub weight : ℤ
  pub mark : ℕ
