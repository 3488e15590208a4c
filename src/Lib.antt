-- ===== src/Lib.antt =====
-- v5gdb is a GDB server that runs on the processor it debugs, a VEX V5 brain (ARMv7, Zynq-7000).
-- A breakpoint raises an abort; the abort handler captures the registers of the program and gives
-- them to the debugger, which serves GDB until the program is to go on.
--
-- The parts, and the files that model them:
-- * Instructions, caches and debug registers (src/cpu): `Cpu`. An instruction is its code, a volatile
--   access reads or writes little-endian bytes of a memory that is a function of the address.
--   `Cpu.Cache` keeps what data accesses see beside what instruction fetches see. A register that
--   is a bit field is a record of its fields (`Cpu.Debug`).
-- * The names that GDB has for registers and breakpoints (src/gdb_target/arch): `Arch`.
-- * The captured state of the program (src/exceptions/mod.rs): `Exceptions`, and the bytes in which
--   GDB exchanges it: `Exceptions.Serial`. `Exceptions.Poll` is the hook that interrupts run.
-- * Translation tables and their permissions (src/cpu/vmsa.rs): `Cpu.Vmsa`; the memory that GDB may
--   read and write by them (src/gdb_target/memory.rs): `Target.Memory`.
-- * Access to single registers and resuming (src/gdb_target/single_register_access.rs and resume.rs):
--   `Target.Registers`. `Target.Threads` does this for one of several threads (also
--   src/gdb_target/thread.rs): the debugger holds the registers of the current one, and the
--   operating system is an argument, the record `Sys.Interface.DebuggerSystem`, which `Sys.Bare` and
--   `Sys.FreeRtos.System` fill. `Target.Saved` is the value of a register that the system keeps.
-- * The memory map that GDB reads (`memory_map_xml` of src/gdb_target/mod.rs): `Target.MemoryMap`,
--   its bytes an argument.
-- * One software breakpoint (src/gdb_target/breakpoint/software.rs): `Breakpoint.Software`.
-- * The hardware breakpoints of the processor (src/gdb_target/breakpoint/hardware.rs):
--   `Breakpoint.Hardware`. A loop over the slots is structural recursion on the number of slots, and
--   a slot past the 16 registers of an array is the panic of the accessor.
-- * The debugger target (src/gdb_target/mod.rs and breakpoint): `Target`, with its list of
--   software breakpoints in `Target.Breaks`, and its events, single steps and interrupts in
--   `Target.Entry`. `Target.Events` says what entering a debug session leaves, `Target.Leaving` what
--   leaving it does, `Target.Start` how a target is made.
-- * The override of the competition status (src/sdk/competition.rs): `Sdk.Competition`; the real
--   status is a parameter.
-- * The commands of `monitor` (src/gdb_target/monitor.rs): `Monitor`. `Monitor.Words` reads their
--   words, `Monitor.Command` runs them on the target and the globals that they may change, and
--   `Monitor.Controller` and `Monitor.Devices` print what the SDK reports. What is printed is a list
--   of lines, each the pieces of its format string and arguments. The split of the command into
--   words is the standard library's.
-- * The start of hardware debugging on the board (`setup` of
--   src/gdb_target/breakpoint/hardware.rs): `Breakpoint.Hardware.Board`. The raw values of the debug
--   registers are in `Cpu.Debug.Raw`, the memory attributes of sections in `Cpu.Vmsa.Attributes`.
-- * Installing the debugger (src/lib.rs, and src/lib.rs of the repository's ffi): `Install`, with the
--   exception vectors (src/exceptions/mod.rs and src/cpu/exception.rs) in `Install.Vectors`. The
--   transport that a C program gives is `Transport.Foreign`.
-- * The debugger's session (src/debugger/mod.rs): `Debugger` holds the session and what decides on a
--   stop, `Debugger.Console` the console and the whole of a debug event, `Debugger.Poll` the poll
--   between events, `Debugger.Start` the start. The crate `gdbstub` with its connection is the
--   record `Outside` of functions; `Debugger.Callbacks` is the relation of all that it may do to the
--   target and to memory, with the operating system for the registers of other threads, and
--   `Debugger.Schedule` that of all orders of events, polls and changes that the program makes to
--   memory and to its own suspensions of the scheduler. What the target tells GDB of a stop is
--   `Target.Report`.
-- * Functions of the SDK that are redirected, and the stop of all motors (src/sdk/mod.rs):
--   `Sdk.Redirect` and `Sdk.Motors`; the serial port of the SDK: `Transport.Serial`.
-- * The frames on the serial port (src/transport): `Transport.Mux`, with the library for COBS as the
--   record `Transport.Cobs`, whose encoder may change on a byte that it does not take; the theorem on
--   what arrives is about messages that fit into one frame. The functions that the program then
--   calls are in `Transport.User`, and the debugger's connection in `Transport.Stdio`. The other end
--   is the client (src/bin/v5gdb.rs of the repository's cli): `Client` takes the frames apart,
--   `Client.Loop` serves both directions, and `Client.Start` starts GDB.
-- * The threads of the operating system (src/sys): `Sys.Bare` and `Sys.FreeRtos`. The tasks are a list,
--   as the kernel's call gives them, and the saved registers of a task are bytes on its stack.
--   `Sys.FreeRtos.Monitor` is the command that lists them.
--
-- An operation takes the state and returns the next one; `none` is a panic, `Result` is the `Result`
-- of the code. A register of 32 bits is a natural number, and where the code's sum may wrap the
-- model takes it modulo 2 ^ 32. Loops run over the slots of an array, or have
-- rounds: the loop over sections of memory one more than there are sections of 1 MiB, the poll one
-- more than bytes wait, a write two more than it has bytes, a read of the client one for each byte,
-- which the theorems show to be enough. The console waits for GDB as long as GDB likes: its state
-- after any number of rounds is what the theorems speak of.
-- `Base` holds what the parts share: lists, words, little-endian bytes, arrays as functions, and
-- the lemmas on scanning an array.
--
-- Not modelled: inline assembly and the code of the exception vectors, the wire protocol (the crate `gdbstub`), the
-- client's terminal and network, the stack of the abort mode, log messages and panic messages, and the
-- build tasks (xtask).
pub mod Base
pub mod Cpu
pub mod Debugger
pub mod Arch
pub mod Exceptions
pub mod Breakpoint
pub mod Target
pub mod Sdk
pub mod Transport
pub mod Sys
pub mod Monitor
pub mod Install
pub mod Client
mod Tests
