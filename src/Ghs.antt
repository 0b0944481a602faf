-- ===== src/Ghs.antt =====
-- include/ghs/ghs.h and ghs_impl.hpp: the GHS state machine of one agent.
pub mod State
pub mod Peers
pub mod Accessors
pub mod Lookup
pub mod Casts
pub mod Search
pub mod Join
pub mod Process
pub mod Frame
pub mod Contract
pub mod Rules
pub mod Handlers
pub mod WellFormed
pub mod Invariant
pub mod Asking
pub mod OneParent
pub mod Conclude
pub mod LastAnswer
pub mod Added
pub mod Promise
pub mod Parents
pub mod Answers
pub mod Answering
pub mod Part
pub mod Guards
pub mod Merge
pub mod Reach
pub mod CatchUp
pub mod Absorb
pub mod Network
mod Tests
mod JoinTests
mod SearchTests
mod NetworkTests
mod AnswerTests
