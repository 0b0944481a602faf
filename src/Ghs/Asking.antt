-- ===== src/Ghs/Asking.antt =====
-- Whom a search asks, and whom it waits for.
pub mod Flags
pub mod Kept
pub mod Search
pub mod Sent
pub mod Whole
