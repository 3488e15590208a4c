-- ===== src/Debugger/Poll/Interrupts.antt =====
-- Which polls request an interrupt (src/debugger/mod.rs, `V5Debugger::poll`).
use v5gdb.Base.{
  ℕ, zero, suc, ◌<◌, ◌≡◌, refl, inl, inr, Bool, true, false, ◌||◌, none, some, List, [], ◌∷◌,
  length, Bool-cases, ◌==◌, if◌then◌else◌, arith,
}
use v5gdb.Breakpoint.Hardware.{locked}
use v5gdb.Target.{V5Target}
use v5gdb.Target.Entry.{request_interrupt}
use v5gdb.Target.Stepping.{Ready, request_interrupt_returns}
use v5gdb.Debugger.{Outside, running, active_stage, DebugSession}
use v5gdb.Debugger.Poll.{interrupt_found, interrupt_if, poll_at, poll}

-- Whether an interrupt is among the bytes, and the bytes after the first one.
abbrev pub has_interrupt : List ℕ → Bool
has_interrupt [] = false
has_interrupt (b ∷ bs) = if b == 3 then true else has_interrupt bs

abbrev pub after_interrupt : List ℕ → List ℕ
after_interrupt [] = []
after_interrupt (b ∷ bs) = if b == 3 then bs else after_interrupt bs

-- A connection that gives out the bytes that wait, in order and without an error.
pub record Connection (o : Outside) : Type 0 where
  pub bytes : o.Inner → List ℕ
  pub empty :
      (g : o.Inner) → bytes g ≡ [] → ((o.try_read g).0 ≡ none) × (bytes (o.try_read g).1 ≡ [])
  pub next :
      (g : o.Inner) (b : ℕ) (bs : List ℕ)
      → bytes g ≡ b ∷ bs
      → ((o.try_read g).0 ≡ some b) × (bytes (o.try_read g).1 ≡ bs)

-- What a poll makes of a session that it found with bytes waiting.
pub record Polled (o : Outside) (c : Connection o) (waiting : List ℕ) (s s' : DebugSession o.Inner)
    : Type 0 where
  pub ready : Ready s'.target
  pub same_lock : locked s'.target.hw_manager ≡ locked s.target.hw_manager
  pub pending : s'.target.interrupt_pending ≡ s.target.interrupt_pending || has_interrupt waiting
  pub same_target : s'.target ≡ record (s.target) {
    hw_manager = s'.target.hw_manager;
    interrupt_pending = s'.target.interrupt_pending;
  }
  pub undisturbed : has_interrupt waiting ≡ false → s'.target ≡ s.target
  pub same_breaks : s'.internal_breaks ≡ s.internal_breaks
  pub left :
      (g' : o.Inner) × (s'.stage ≡ active_stage (running g'))
      × (c.bytes g' ≡ after_interrupt waiting)

module _ (o : Outside) (c : Connection o) where
  interrupt_found_returns :
      (rounds : ℕ) (g : o.Inner) (waiting : List ℕ)
      → c.bytes g ≡ waiting
      → length waiting < rounds
      → (g' : o.Inner) × (interrupt_found o rounds g ≡ some (has_interrupt waiting, g'))
        × (c.bytes g' ≡ after_interrupt waiting)
  unfolding interrupt_found
  interrupt_found_returns zero g waiting e h = elim h [ ]
  interrupt_found_returns (suc rounds) g [] e h =
      let (a, b) = c.empty g e in ((o.try_read g).1, ground (arith, a), b)
  interrupt_found_returns (suc rounds) g (x ∷ waiting) e h =
      let (a, b) = c.next g x waiting e in
      elim (Bool-cases (x == 3)) [
        | inl q ↦ ((o.try_read g).1, ground (arith, a, q), rw q b)
        | inr q ↦
            let (g', p, r) =
              interrupt_found_returns rounds (o.try_read g).1 waiting b (omega arith) in
            (g', ground (arith, a, q, p), rw q r)
      ]

pub interrupt_if_returns :
    (found : Bool) (t : V5Target)
    → Ready t
    → (t' : V5Target) × (interrupt_if found t ≡ some t')
      × Ready t'
      × (locked t'.hw_manager ≡ locked t.hw_manager)
      × (t'.interrupt_pending ≡ t.interrupt_pending || found)
      × (t' ≡ record t { hw_manager = t'.hw_manager; interrupt_pending = t'.interrupt_pending })
      × (found ≡ false → t' ≡ t)
unfolding interrupt_if request_interrupt
interrupt_if_returns true t r =
    let (t', e, ready, pending, lock) = request_interrupt_returns t r in
    (t', e, ready, lock, ground (arith, pending), ground (arith, e), λ n. cc)
interrupt_if_returns false t r = (t, refl, r, refl, ground arith, refl, λ _. refl)

-- While the program runs with a client, a poll of a ready target ends after as many rounds as bytes
-- wait, and one more. It does not panic. It takes the bytes up to the first interrupt, or all of
-- them, and an interrupt is pending afterwards exactly if it was before or one was among them. The
-- target is still ready, its lock is as it was, and all else of it too; without an interrupt among
-- the bytes nothing of it changes. This supposes that the connection gives out the waiting bytes in
-- order and without an error.
pub poll_returns :
    (o : Outside) (c : Connection o) (rounds : ℕ) (s : DebugSession o.Inner) (g : o.Inner)
    → Ready s.target
    → s.stage ≡ active_stage (running g)
    → length (c.bytes g) < rounds
    → (s' : DebugSession o.Inner) × (poll o rounds false s ≡ some s') × Polled o c (c.bytes g) s s'
unfolding poll
poll_returns o c rounds s g r stage enough =
    let (g', found, rest) = interrupt_found_returns o c rounds g (c.bytes g) refl enough in
    let (t', e, ready, lock, pending, same, quiet) =
      interrupt_if_returns (has_interrupt (c.bytes g)) s.target r in
    (
      record s { target = t'; stage = active_stage (running g') },
      rw (stage, poll_at) (rw found (rw e refl)),
      record {
        ready = ready;
        same_lock = lock;
        pending = pending;
        same_target = same;
        undisturbed = quiet;
        same_breaks = refl;
        left = (g', refl, rest);
      },
    )
