-- ===== src/Monitor.antt =====
-- The commands of GDB's `monitor` (src/gdb_target/monitor.rs).
pub mod Output
pub mod Controller
pub mod Devices
pub mod Words
pub mod Command
