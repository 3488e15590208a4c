-- ===== src/Cpu.antt =====
-- The processor as the debugger uses it (src/cpu).
pub mod Instruction
pub mod Cache
pub mod Debug
pub mod Vmsa
