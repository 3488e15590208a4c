-- ===== src/Target/Threads.antt =====
-- The threads of a program as GDB sees them (src/gdb_target/thread.rs, `SingleRegisterAccess<Tid>` of
-- src/gdb_target/single_register_access.rs and the step of src/gdb_target/resume.rs): the registers of the current thread are the debugger's own,
-- those of the others the system's. `none` is a panic.
pub mod Back
use v5gdb.Base.{ℕ, Bool, Option, none, some, List, [], ◌>>=◌, ◌==◌, if◌then◌else◌, Memory}
use v5gdb.Arch.{ArmRegisterId}
use v5gdb.Exceptions.{DebugEventContext}
use v5gdb.Sys.{SystemResult, found, no_such_tid}
use v5gdb.Sys.Interface.{DebuggerSystem}
use v5gdb.Breakpoint.{Result, ok, err}
use v5gdb.Target.{V5Target}
use v5gdb.Target.Entry.{request_single_step}
use v5gdb.Target.Registers.{Access, done, non_fatal, read_register, write_register}
use v5gdb.Target.Saved.{SavedRegister, from_le_bytes_checked, write_to_buffer}

-- `TargetResult` with the system's error, `TargetError::Errno(EINVAL)`.
pub data ThreadAccess (A : Type 0) : Type 0 where
  accessed : Access A → ThreadAccess A
  invalid : ThreadAccess A

-- `SystemError` as a `TargetError`
abbrev pub from_system : {A : Type 0} → SystemResult A → ThreadAccess A
from_system (found a) = accessed (done a)
from_system no_such_tid = invalid

module _ (sys : DebuggerSystem) where
  -- The threads that the callback is given, in order.
  abbrev pub list_active_threads : List ℕ
  list_active_threads = sys.all_threads

  abbrev pub is_thread_alive : ℕ → Bool
  is_thread_alive tid = sys.thread_exists tid

  -- The bytes of the name that are written to a buffer of the length; none on an error.
  unfoldable pub thread_extra_info : ℕ → ℕ → List ℕ
  thread_extra_info tid len = elim (sys.read_thread_name tid len) [
    | found name ↦ name
    | no_such_tid ↦ []
  ]

  -- What GDB sets up before it resumes many threads: by itself this does nothing.
  abbrev pub clear_resume_actions : V5Target → V5Target
  clear_resume_actions t = t

  abbrev pub set_resume_action_continue : ℕ → V5Target → V5Target
  set_resume_action_continue tid t = t

  -- A request that fails panics, as does one for another thread.
  unfoldable pub set_resume_action_step : ℕ → V5Target → Option V5Target
  unfolding request_single_step
  set_resume_action_step tid t =
      if tid == sys.current_thread then request_single_step t >>= expect else none
    where
      expect : Result (Unit {0}) × V5Target → Option V5Target
      expect (err e, t') = none
      expect (ok _, t') = some t'

  -- `read_registers`
  unfoldable pub read_thread_registers :
      ℕ → V5Target → Memory → Option (ThreadAccess DebugEventContext)
  read_thread_registers tid t m =
      if tid == sys.current_thread
      then some (accessed (done t.exception_ctx))
      else do r ← sys.read_registers tid m; some (from_system r)

  -- `write_registers`
  unfoldable pub write_thread_registers :
      ℕ
      → DebugEventContext
      → V5Target
      → Memory
      → Option (ThreadAccess (Unit {0}) × V5Target × Memory)
  write_thread_registers tid regs t m =
      if tid == sys.current_thread
      then some (accessed (done tt), record t { exception_ctx = regs }, m)
      else do (r, m') ← sys.write_registers tid regs m; some (from_system r, t, m')

  -- `SingleRegisterAccess<Tid>::read_register`, into a buffer of the length
  unfoldable pub read_thread_register :
      ℕ → ArmRegisterId → ℕ → V5Target → Memory → Option (ThreadAccess (List ℕ))
  unfolding read_register write_to_buffer
  read_thread_register tid id len t m =
      if tid == sys.current_thread
      then (do r ← read_register t.exception_ctx id len; some (accessed r))
      else sys.read_single_register tid id m >>= to_buffer
    where
      to_buffer : SystemResult SavedRegister → Option (ThreadAccess (List ℕ))
      to_buffer no_such_tid = some invalid
      to_buffer (found reg) = do bytes ← write_to_buffer reg len; some (accessed (done bytes))

  -- `SingleRegisterAccess<Tid>::write_register`
  unfoldable pub write_thread_register :
      ℕ
      → ArmRegisterId
      → List ℕ
      → V5Target
      → Memory
      → Option (ThreadAccess (Unit {0}) × V5Target × Memory)
  unfolding write_register from_le_bytes_checked
  write_thread_register tid id val t m =
      let (r, ctx) = write_register t.exception_ctx id val in
      if tid == sys.current_thread
      then some (accessed r, record t { exception_ctx = ctx }, m)
      else elim (from_le_bytes_checked val) [
        | none ↦ some (accessed non_fatal, t, m)
        | some reg ↦ do
          (r, m') ← sys.write_single_register tid id reg m
          some (from_system r, t, m')
      ]
