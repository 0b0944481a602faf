-- ===== src/Demo.antt =====
-- src/demo: the demo program, its configuration, its links and its messages on the network.
pub mod Metric
pub mod Config
pub mod Cli
pub mod Wire
pub mod Bytes
pub mod Comms
pub mod Exec
mod Tests
mod CommsTests
