-- ===== src/Target/Breaks/Register/Soundness.antt =====
-- Sound slots, and a change that keeps what the program sees.
use v5gdb.Base.{ℕ, ◌≡◌, Memory}
use v5gdb.Target.{Slots}
use v5gdb.Target.Breaks.View.{view, Apart, Held}

-- Slots and memory in which no two tracked instructions overlap and disabled ones are in memory.
pub record Sound (bs : Slots) (m : Memory) : Type 0 where
  pub apart : Apart bs
  pub held : Held bs m

-- The new slots and memory are sound, and show the same program.
pub record Keeps (bs : Slots) (m : Memory) (bs' : Slots) (m' : Memory) : Type 0 where
  pub sound : Sound bs' m'
  pub same_view : (a : ℕ) → view bs' m' a ≡ view bs m a
