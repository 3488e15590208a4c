-- ===== src/Target/Reserve.antt =====
-- The hardware slot that is kept for single steps and interrupts: what it means for a manager.
use v5gdb.Base.{
  ℕ, suc, ◌+◌, ◌≤◌, ◌≡◌, refl, inl, inr, Bool, true, false, Option, none, some, Bool-cases,
  Option-cases, arith,
}
use v5gdb.Cpu.Debug.{raw_of_type}
use v5gdb.Breakpoint.{ok}
use v5gdb.Breakpoint.Hardware.{HwBreakpointManager, match, mismatch, type_of, breakpoints_available}
use v5gdb.Breakpoint.Hardware.Armed.{
  Place, same_place, place, armed, free_slot, armed_slot, insert, armed-armed_slot, armed-disarmed,
}
use v5gdb.Breakpoint.Hardware.Slots.{
  IsValid, available-free_slot, armed_slot-IsValid, available-armed_slot, without,
  available-without, available-without_unarmed, same_place-armed,
}

-- The place of a mismatch breakpoint.
abbrev pub step_place : ℕ → ℕ → Place
step_place word bas = place word bas mismatch

abbrev pub one_if : Bool → ℕ
one_if true = 1
one_if false = 0

-- Without a demand no mismatch breakpoint is set and a slot is available. With one, no other
-- mismatch breakpoint is set, and either this one is or a slot is available.
abbrev pub Reserved : Option Place → HwBreakpointManager → Type 0
Reserved none m =
    ((word bas : ℕ) → armed m (step_place word bas) ≡ false) × (1 ≤ breakpoints_available m)
Reserved (some p) m =
    ((word bas : ℕ)
      → same_place p (step_place word bas) ≡ false
      → armed m (step_place word bas) ≡ false)
    × (1 ≤ breakpoints_available m + one_if (armed m p))

module _ (m : HwBreakpointManager) (v : IsValid m) where
  -- A removal never takes a slot.
  pub without-grows : (q : Place) → breakpoints_available m ≤ breakpoints_available (without m q)
  without-grows q = elim (Bool-cases (armed m q)) [
    | inl e ↦ omega (arith, available-without m q v e)
    | inr e ↦ omega (arith, available-without_unarmed m q v e)
  ]

  pub Reserved-without-none : (q : Place) → Reserved none m → Reserved none (without m q)
  Reserved-without-none q r = (
    λ word bas. ground (arith, armed-disarmed m q (step_place word bas), r.0 word bas),
    omega (arith, without-grows q, r.1),
  )

  pub Reserved-without : (p q : Place) → Reserved (some p) m → Reserved (some p) (without m q)
  Reserved-without p q r = (
    λ word bas h. ground (arith, armed-disarmed m q (step_place word bas), r.0 word bas h),
    elim (Bool-cases (armed m q)) [
      | inl e ↦ omega (arith, available-without m q v e)
      | inr e ↦ ground (
        arith,
        available-without_unarmed m q v e,
        armed-disarmed m q p,
        same_place-armed m q p,
        r.1,
      )
    ],
  )

  -- Removing the demanded place itself leaves a slot available.
  pub Reserved-release : (p : Place) → Reserved (some p) m → Reserved none (without m p)
  Reserved-release p r = (
    λ word bas. ground (arith, armed-disarmed m p (step_place word bas), r.0 word bas),
    elim (Bool-cases (armed m p)) [
      | inl e ↦ omega (arith, available-without m p v e)
      | inr e ↦ ground (arith, available-without_unarmed m p v e, r.1)
    ],
  )

  -- A demanded place that no slot watches gets one.
  pub Reserved-demand :
      (word bas : ℕ)
      → Reserved none m
      → (m' : HwBreakpointManager) × (insert m (step_place word bas) ≡ (ok tt, m'))
        × IsValid m'
        × (m'.mmio.software_lock_status ≡ m.mmio.software_lock_status)
        × (breakpoints_available m ≡ suc (breakpoints_available m'))
        × Reserved (some (step_place word bas)) m'
        × (armed m' (step_place word bas) ≡ true)
  unfolding insert
  Reserved-demand word bas r = elim (Option-cases (free_slot m)) [
    | inl f ↦ absurd (available-free_slot m v r.1 f)
    | inr (i, f) ↦ (
      armed_slot m (step_place word bas) i,
      rw (r.0 word bas, f),
      armed_slot-IsValid m (step_place word bas) i v f (r.0 word bas),
      refl,
      available-armed_slot m (step_place word bas) i v f (r.0 word bas),
      (
        λ a b h.
            ground (arith, armed-armed_slot m (step_place word bas) (step_place a b) i f, r.0 a b),
        ground (arith, armed-armed_slot m (step_place word bas) (step_place word bas) i f),
      ),
      ground (arith, armed-armed_slot m (step_place word bas) (step_place word bas) i f),
    )
  ]

match_ne_mismatch : (w b word bas : ℕ) → same_place (place w b match) (step_place word bas) ≡ false
unfolding type_of raw_of_type
match_ne_mismatch w b word bas = ground arith

module _ (m : HwBreakpointManager) (v : IsValid m) (w b : ℕ) where
  -- A breakpoint of the user takes a slot only if another one stays available.
  pub Reserved-user :
      (d : Option Place)
      → Reserved d m
      → 2 ≤ breakpoints_available m
      → Reserved d (insert m (place w b match)).1
  unfolding insert
  Reserved-user none r h = elim (Bool-cases (armed m (place w b match))) [
    | inl e ↦ rw e r
    | inr e ↦ elim (Option-cases (free_slot m)) [
      | inl f ↦ rw (e, f) r
      | inr (i, f) ↦
          rw (e, f)
            (
              λ word bas. ground (
                arith,
                armed-armed_slot m (place w b match) (step_place word bas) i f,
                match_ne_mismatch w b word bas,
                r.0 word bas,
              ),
              omega (arith, available-armed_slot m (place w b match) i v f e),
            )
    ]
  ]
  Reserved-user (some p) r h = elim (Bool-cases (armed m (place w b match))) [
    | inl e ↦ rw e r
    | inr e ↦ elim (Option-cases (free_slot m)) [
      | inl f ↦ rw (e, f) r
      | inr (i, f) ↦
          rw (e, f)
            (
              λ word bas ne. ground (
                arith,
                armed-armed_slot m (place w b match) (step_place word bas) i f,
                match_ne_mismatch w b word bas,
                r.0 word bas ne,
              ),
              omega (arith, available-armed_slot m (place w b match) i v f e),
            )
    ]
  ]
