-- ===== src/Exceptions/Poll.antt =====
-- The hook that every IRQ runs (src/exceptions/mod.rs, `irq_poll`): it polls the debugger, but not
-- more often than every 10 milliseconds.
use v5gdb.Base.{
  ℕ, ◌+◌, ◌%◌, ◌<◌, ◌≡◌, Bool, false, leb, ltb, if◌then◌else◌, arith, wrapping_sub, u32_mod,
}

-- `IRQ_POLL_INTERVAL_MS`
abbrev pub irq_poll_interval_ms : ℕ
irq_poll_interval_ms = 10

-- `irq_poll` at a time: the new `LAST_POLL_TIME_MS`, and whether `Debugger::poll` is called.
-- `installed` says whether there is a debugger.
unfoldable pub irq_poll : Bool → ℕ → ℕ → ℕ × Bool
irq_poll installed now last =
    if ltb (wrapping_sub now last) irq_poll_interval_ms then (last, false) else (now, installed)

-- When `elapsed` milliseconds, fewer than 2 ^ 32, have passed since the last poll, also if the clock
-- of 32 bits has wrapped, `irq_poll` polls exactly if there is a debugger and the interval is over,
-- and the last poll is then the present one.
pub irq_poll-elapsed :
    (installed : Bool) (last elapsed : ℕ)
    → last < u32_mod
    → elapsed < u32_mod
    → let now = (last + elapsed) % u32_mod in
      irq_poll installed now last
      ≡ (if leb irq_poll_interval_ms elapsed then (now, installed) else (last, false))
unfolding irq_poll
irq_poll-elapsed installed last elapsed h k = ground (arith, back last elapsed h k)
  where
    back : (x e : ℕ) → x < u32_mod → e < u32_mod → wrapping_sub ((x + e) % u32_mod) x ≡ e
    back x e p q = omega arith
