-- ===== src/Target/Breaks/Register/Reason.antt =====
-- A breakpoint that changes its reason alone.
use v5gdb.Base.{ℕ, zero, suc, ◌≡◌, none, some, [], ◌∷◌, get_elem?, set, Memory, arith}
use v5gdb.Breakpoint.Software.{SwBreakpoint}
use v5gdb.Target.{Slots}
use v5gdb.Target.Breaks.View.{view, Clear, Apart, Held}

module _ (b b' : SwBreakpoint) (enabled : b'.enabled ≡ b.enabled)
    (addr : b'.instr_addr ≡ b.instr_addr) (backup : b'.instr_backup ≡ b.instr_backup) where
  -- A breakpoint that differs in its reason alone makes no difference.
  pub view-reason :
      (xs : Slots) (i : ℕ) (m : Memory) (a : ℕ)
      → get_elem? xs i ≡ some (some b)
      → view (set xs i (some b')) m a ≡ view xs m a
  unfolding view
  view-reason [] i m a e = absurd (ground arith)
  view-reason (none ∷ xs) zero m a e = absurd (ground arith)
  view-reason (some d ∷ xs) zero m a e = ground arith
  view-reason (none ∷ xs) (suc i) m a e = view-reason xs i m a e
  view-reason (some d ∷ xs) (suc i) m a e = ground (arith, view-reason xs i m a e)

  pub Clear-reason :
      (d : SwBreakpoint) (xs : Slots) (i : ℕ)
      → get_elem? xs i ≡ some (some b)
      → Clear d xs
      → Clear d (set xs i (some b'))
  Clear-reason d [] i e c = tt
  Clear-reason d (none ∷ xs) zero e c = absurd (ground arith)
  Clear-reason d (some x ∷ xs) zero e c = (ground (arith, c.0), c.1)
  Clear-reason d (none ∷ xs) (suc i) e c = Clear-reason d xs i e c
  Clear-reason d (some x ∷ xs) (suc i) e c = (c.0, Clear-reason d xs i e c.1)

  pub Clear-alike : (x : SwBreakpoint) (xs : Slots) → x ≡ b → Clear x xs → Clear b' xs
  Clear-alike x [] e c = tt
  Clear-alike x (none ∷ xs) e c = Clear-alike x xs e c
  Clear-alike x (some d ∷ xs) e c = (ground (arith, c.0), Clear-alike x xs e c.1)

  pub Apart-reason :
      (xs : Slots) (i : ℕ) → get_elem? xs i ≡ some (some b) → Apart xs → Apart (set xs i (some b'))
  Apart-reason [] i e p = tt
  Apart-reason (none ∷ xs) zero e p = absurd (ground arith)
  Apart-reason (some x ∷ xs) zero e p = (Clear-alike x xs (ground arith) p.0, p.1)
  Apart-reason (none ∷ xs) (suc i) e p = Apart-reason xs i e p
  Apart-reason (some x ∷ xs) (suc i) e p = (Clear-reason x xs i e p.0, Apart-reason xs i e p.1)

  pub Held-reason :
      (xs : Slots) (i : ℕ) (m : Memory)
      → get_elem? xs i ≡ some (some b)
      → Held xs m
      → Held (set xs i (some b')) m
  Held-reason [] i m e h = tt
  Held-reason (none ∷ xs) zero m e h = absurd (ground arith)
  Held-reason (some x ∷ xs) zero m e h =
      (λ off a cov. ground (arith, h.0 (ground arith) a (ground arith)), h.1)
  Held-reason (none ∷ xs) (suc i) m e h = Held-reason xs i m e h
  Held-reason (some x ∷ xs) (suc i) m e h = (h.0, Held-reason xs i m e h.1)
