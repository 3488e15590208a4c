-- ===== src/Sdk.antt =====
-- What the debugger changes of the operating system's interface (src/sdk).
pub mod Competition
pub mod Motors
pub mod Redirect
