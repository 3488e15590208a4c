-- ===== src/Debugger/Start.antt =====
-- Setting the debugger up (src/debugger/mod.rs, `new`, `register_internal_breakpoints`
-- and `initialize`).
pub mod Installed
use v5gdb.Base.{ℕ, Bool, true, false, Option, none, some, List, [], ◌∷◌, ◌>>=◌, if◌then◌else◌}
use v5gdb.Cpu.Cache.{Machine}
use v5gdb.Cpu.Debug.{DebugId, DebugLogic}
use v5gdb.Breakpoint.{Result, ok, err}
use v5gdb.Sdk.Redirect.{Trampolines, code_addr, is_thumb_pointer, redirect_function}
use v5gdb.Target.{V5Target, World}
use v5gdb.Target.Breaks.{register_sw_breakpoint}
use v5gdb.Target.Start.{new_target}
use v5gdb.Debugger.{
  InternalBreakpoint, system_exit_request, SessionStage, uninitialized, DebugSession,
}

-- `DebuggerConfig`
pub record DebuggerConfig : Type 0 where
  pub stop_motors_on_break : Bool

-- `DebuggerConfig::default`
abbrev pub default_config : DebuggerConfig
default_config = record { stop_motors_on_break = false }

-- Where the linker put the functions of the SDK that are used, and the trampolines.
pub record Symbols : Type 0 where
  pub system_exit_request : ℕ
  pub competition_status : ℕ
  pub read_status : ℕ
  pub trampolines : Trampolines

module _ {A : Type 0} where
  -- `V5Debugger::new`, with the stub that gdbstub builds
  unfoldable pub new_session : A → DebugId → DebugLogic → Option (DebugSession A)
  unfolding new_target
  new_session g id d = do
    t ← new_target id d
    some (record { target = t; internal_breaks = none; stage = uninitialized g })

  -- `register_internal_breakpoints`; `none` is a panic.
  unfoldable pub register_internal_breakpoints :
      ℕ → DebugSession A → Machine → Option (DebugSession A × Machine)
  register_internal_breakpoints exit_func s m = elim s.internal_breaks [
    | some _ ↦ none
    | none ↦
        register_sw_breakpoint (code_addr exit_func) (is_thumb_pointer exit_func) true s.target m
        >>= registered
  ]
    where
      registered : Result (Unit {0}) × V5Target × Machine → Option (DebugSession A × Machine)
      registered (err e, t, m') = none
      registered (ok _, t, m') = some (
        record s {
          target = t;
          internal_breaks =
              some ((InternalBreakpoint.system_exit_request, code_addr exit_func) ∷ []);
        },
        m',
      )

  -- `initialize`: `System::initialize` does nothing, and the competition override is installed.
  unfoldable pub initialize :
      Symbols → DebuggerConfig → DebugSession A → World → Option (DebugSession A × World)
  unfolding register_internal_breakpoints
  initialize y config s w = do
    (s', m) ← register_internal_breakpoints y.system_exit_request s w.machine
    some (
      record s' {
        target = record (s'.target) { stop_motors_on_break = config.stop_motors_on_break };
      },
      record w { machine = redirect_function y.trampolines y.competition_status y.read_status m },
    )
