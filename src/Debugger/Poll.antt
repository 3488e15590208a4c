-- ===== src/Debugger/Poll.antt =====
-- The poll of the connection while the program runs (src/debugger/mod.rs, `V5Debugger::poll`).
pub mod Interrupts
use v5gdb.Base.{ℕ, zero, suc, Bool, true, false, Option, none, some, ◌>>=◌, ◌==◌, if◌then◌else◌}
use v5gdb.Target.{V5Target}
use v5gdb.Target.Entry.{request_interrupt}
use v5gdb.Debugger.{
  Outside, idle, running, SessionStage, uninitialized, active_stage, transitioning, DebugSession,
}

-- `CTRL_C`
abbrev pub ctrl_c : ℕ
ctrl_c = 3

unfoldable pub interrupt_if : Bool → V5Target → Option V5Target
interrupt_if true t = request_interrupt t
interrupt_if false t = some t

module _ (o : Outside) where
  open o use {Inner, try_read}

  -- The loop over the bytes that wait: whether it found an interrupt. `none`: the rounds are over.
  unfoldable pub interrupt_found : ℕ → Inner → Option (Bool × Inner)
  interrupt_found zero g = none
  interrupt_found (suc rounds) g =
      let (next, g') = try_read g in
      elim next [
        | none ↦ some (false, g')
        | some byte ↦
            let rest = interrupt_found rounds g' in if byte == ctrl_c then some (true, g') else rest
      ]

  -- The poll in a stage.
  unfoldable pub poll_at : ℕ → DebugSession Inner → SessionStage Inner → Option (DebugSession Inner)
  unfolding interrupt_found interrupt_if
  poll_at rounds s (active_stage (running g)) = do
    (found, g') ← interrupt_found rounds g
    t ← interrupt_if found s.target
    some (record s { target = t; stage = active_stage (running g') })
  poll_at rounds s _ = some s

  -- `poll`; the session is locked while the debug console is active.
  unfoldable pub poll : ℕ → Bool → DebugSession Inner → Option (DebugSession Inner)
  unfolding poll_at
  poll rounds locked s = if locked then some s else poll_at rounds s s.stage
