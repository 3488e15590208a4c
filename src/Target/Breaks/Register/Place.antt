-- ===== src/Target/Breaks/Register/Place.antt =====
-- A breakpoint put into an empty slot.
use v5gdb.Base.{
  ℕ, zero, suc, ◌≡◌, refl, ◌∙◌, inl, inr, Bool, true, false, not, ◌&&◌, none, some, [], ◌∷◌,
  get_elem?, set, Memory, Bool-cases, if◌then◌else◌, arith,
}
use v5gdb.Cpu.Cache.{Machine, sync_instruction}
use v5gdb.Breakpoint.Software.{SwBreakpoint}
use v5gdb.Target.{Slots}
use v5gdb.Target.Breaks.{activate}
use v5gdb.Target.Breaks.View.{
  covers, byte, view, IsApart, Clear, Apart, Held, view_local, view-Clear, Held-Clear,
}
use v5gdb.Target.Breaks.Toggle.{set_enabled_fields, set_enabled_outside}
use v5gdb.Target.Breaks.Register.Soundness.{Sound, Keeps}

-- A breakpoint put into an empty slot, away from the others.
module _ (b : SwBreakpoint) where
  view-set :
      (bs : Slots) (j : ℕ) (m : Memory) (a : ℕ)
      → get_elem? bs j ≡ some none
      → Clear b bs
      → view (set bs j (some b)) m a ≡ (if b.enabled && covers b a then byte b a else view bs m a)
  unfolding view
  view-set [] j m a e c = absurd (ground arith)
  view-set (none ∷ bs) zero m a e c = refl
  view-set (some d ∷ bs) zero m a e c = absurd (ground arith)
  view-set (none ∷ bs) (suc j) m a e c = view-set bs j m a e c
  view-set (some d ∷ bs) (suc j) m a e c = ground (arith, view-set bs j m a e c.1, c.0)

  Clear-set :
      (d : SwBreakpoint) (bs : Slots) (j : ℕ)
      → IsApart d b
      → Clear d bs
      → Clear d (set bs j (some b))
  Clear-set d [] j i c = tt
  Clear-set d (none ∷ bs) zero i c = (i, c)
  Clear-set d (some x ∷ bs) zero i c = (i, c.1)
  Clear-set d (none ∷ bs) (suc j) i c = Clear-set d bs j i c
  Clear-set d (some x ∷ bs) (suc j) i c = (c.0, Clear-set d bs j i c.1)

  Apart-set :
      (bs : Slots) (j : ℕ)
      → get_elem? bs j ≡ some none
      → Clear b bs
      → Apart bs
      → Apart (set bs j (some b))
  Apart-set [] j e c p = tt
  Apart-set (none ∷ bs) zero e c p = (c, p)
  Apart-set (some d ∷ bs) zero e c p = absurd (ground arith)
  Apart-set (none ∷ bs) (suc j) e c p = Apart-set bs j e c p
  Apart-set (some d ∷ bs) (suc j) e c p =
      (Clear-set d bs j (ground (arith, c.0)) p.0, Apart-set bs j e c.1 p.1)

  Held-set :
      (bs : Slots) (j : ℕ) (m : Memory)
      → get_elem? bs j ≡ some none
      → (b.enabled ≡ false → (a : ℕ) → covers b a ≡ true → m a ≡ byte b a)
      → Held bs m
      → Held (set bs j (some b)) m
  Held-set [] j m e k h = tt
  Held-set (none ∷ bs) zero m e k h = (k, h)
  Held-set (some d ∷ bs) zero m e k h = absurd (ground arith)
  Held-set (none ∷ bs) (suc j) m e k h = Held-set bs j m e k h
  Held-set (some d ∷ bs) (suc j) m e k h = (h.0, Held-set bs j m e k h.1)

activate_fields :
    (paused : Bool) (b : SwBreakpoint) (s : Machine)
    → b.enabled ≡ false
    → let (b', s') = activate paused b s in
      (b'.enabled ≡ not paused)
      × (b'.instr_addr ≡ b.instr_addr)
      × (b'.instr_backup ≡ b.instr_backup)
      × (paused ≡ true → (a : ℕ) → s'.mem a ≡ s.mem a)
      × ((a : ℕ) → covers b a ≡ false → s'.mem a ≡ s.mem a)
unfolding activate sync_instruction
activate_fields true b s off = (off, refl, refl, λ _ a. refl, λ a _. refl)
activate_fields false b s off =
    let (on, at, orig, _) = set_enabled_fields true b s in
    (on, at, orig, λ e. cc, λ a out. set_enabled_outside true b s a out)

module _ (bs : Slots) (s : Machine) (paused : Bool) (b : SwBreakpoint) (j : ℕ)
    (sound : Sound bs s.mem) (empty : get_elem? bs j ≡ some none) (off : b.enabled ≡ false)
    (c : Clear b bs) (orig : (a : ℕ) → covers b a ≡ true → byte b a ≡ s.mem a) where
  unfoldable pub fresh : SwBreakpoint
  fresh = (activate paused b s).0

  unfoldable pub after : Machine
  after = (activate paused b s).1

  clear : Clear fresh bs
  unfolding fresh
  clear = Clear-activated bs c
    where
      Clear-activated : (xs : Slots) → Clear b xs → Clear (activate paused b s).0 xs
      Clear-activated [] k = tt
      Clear-activated (none ∷ xs) k = Clear-activated xs k
      Clear-activated (some d ∷ xs) k =
          (ground (arith, activate_fields paused b s off, k.0), Clear-activated xs k.1)

  placed_view : (a : ℕ) → view (set bs j (some fresh)) after.mem a ≡ view bs s.mem a
  unfolding fresh after
  placed_view a = elim (Bool-cases (covers b a)) [
    | inl e ↦
        view-set fresh bs j after.mem a empty clear
        ∙ ground (
          arith,
          activate_fields paused b s off,
          (λ (p : paused ≡ true). (activate_fields paused b s off).3 p a),
          orig a e,
          view-Clear b bs s.mem a c e,
          view-Clear b bs after.mem a c e,
        )
    | inr e ↦
        view-set fresh bs j after.mem a empty clear
        ∙ ground (
          arith,
          activate_fields paused b s off,
          view_local bs after.mem s.mem a ((activate_fields paused b s off).4 a e),
        )
  ]

  placed-Held : Held (set bs j (some fresh)) after.mem
  unfolding fresh after
  placed-Held =
      Held-set fresh bs j after.mem empty
        (λ still a cov. ground (
          arith,
          activate_fields paused b s off,
          (λ (p : paused ≡ true). (activate_fields paused b s off).3 p a),
          orig a,
        ))
        (Held-Clear b bs s.mem after.mem c (activate_fields paused b s off).4 sound.held)

  pub placed : Keeps bs s.mem (set bs j (some fresh)) after.mem
  placed = record {
    sound = record { apart = Apart-set fresh bs j empty clear sound.apart; held = placed-Held };
    same_view = placed_view;
  }
