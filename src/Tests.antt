-- ===== src/Tests.antt =====
-- The theorems at concrete inputs, and runs of the code.
pub mod Hardware
pub mod Software
pub mod Sessions
pub mod Start
pub mod Debugger
pub mod Exit
pub mod Transport
pub mod Tasks
pub mod Map
pub mod Client
pub mod Monitor
pub mod Board
