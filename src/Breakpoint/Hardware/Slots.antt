-- ===== src/Breakpoint/Hardware/Slots.antt =====
-- The bookkeeping of slots: the invariant of the manager, and how many slots are left.
use v5gdb.Base.{
  ℕ, suc, ◌+◌, ◌≤◌, ◌<◌, ◌≡◌, ◌≢◌, Bool, true, false, none, some, count, update, any-true,
  any-false, any_cong, first-some, first-none, count-update, count_cong, count_extend, count-le,
  count_all, arith,
}
use v5gdb.Breakpoint.Hardware.{HwBreakpointManager, is_armed_at, is_free_at, breakpoints_available}
use v5gdb.Breakpoint.Hardware.Loops.{disarmed, hits}
use v5gdb.Breakpoint.Hardware.Armed.{
  Place, same_place, armed, free_slot, armed_slot, has_type_lem, is_armed_at-armed_slot,
  is_armed_at-disarmed,
}

-- Slot `j` is armed for the place.
abbrev pub is_at : HwBreakpointManager → Place → ℕ → Bool
is_at m p j = is_armed_at m p.word p.bas p.type j

pub record IsValid (m : HwBreakpointManager) : Type 0 where
  pub positive : 1 ≤ m.capabilities.num_breakpoints
  pub small : m.capabilities.num_breakpoints ≤ 16
  pub used_enabled :
      (j : ℕ)
      → j < m.capabilities.num_breakpoints
      → m.used_breakpoints j ≡ (m.mmio.breakpoint_ctrl j).enabled
  pub beyond : (j : ℕ) → m.capabilities.num_breakpoints ≤ j → m.used_breakpoints j ≡ false
  pub distinct :
      (p : Place) (i j : ℕ)
      → i < m.capabilities.num_breakpoints
      → j < m.capabilities.num_breakpoints
      → is_at m p i ≡ true
      → is_at m p j ≡ true
      → i ≡ j

-- The slots in use and the slots available make up all slots.
available-add-count :
    (m : HwBreakpointManager)
    → IsValid m
    → breakpoints_available m + count m.used_breakpoints m.capabilities.num_breakpoints 0
      ≡ m.capabilities.num_breakpoints
unfolding breakpoints_available
available-add-count m v = omega (
  arith,
  count_extend m.used_breakpoints m.capabilities.num_breakpoints 16 0 v.small
      (λ j h. v.beyond j (omega arith)),
  count-le m.used_breakpoints m.capabilities.num_breakpoints 0,
)

taken :
    (m : HwBreakpointManager) (j : ℕ)
    → IsValid m
    → j < m.capabilities.num_breakpoints
    → is_free_at m j ≡ false
    → m.used_breakpoints j ≡ true
unfolding is_free_at
taken m j v h f = ground (arith, v.used_enabled j h)

-- If slots are available, one is free.
pub available-free_slot :
    (m : HwBreakpointManager) → IsValid m → 1 ≤ breakpoints_available m → free_slot m ≢ none
unfolding free_slot
available-free_slot m v h none_free = omega (
  arith,
  available-add-count m v,
  count_all m.used_breakpoints m.capabilities.num_breakpoints 0
      (λ j lo hi. taken m j v (omega arith) (first-none (is_free_at m) _ 0 j none_free lo hi)),
)

-- The same place is watched by the same slots.
same_place-is_at :
    (m : HwBreakpointManager) (p q : Place) (j : ℕ)
    → same_place p q ≡ true
    → is_at m q j ≡ is_at m p j
unfolding is_armed_at
same_place-is_at m p q j h = ground (
  arith,
  has_type_lem (m.mmio.breakpoint_ctrl j).breakpoint_type p.type,
  has_type_lem (m.mmio.breakpoint_ctrl j).breakpoint_type q.type,
)

module _ (m : HwBreakpointManager) (p : Place) (i : ℕ) (v : IsValid m) (f : free_slot m ≡ some i)
    (e : armed m p ≡ false) where
  found : (0 ≤ i) × (i < 0 + m.capabilities.num_breakpoints) × (is_free_at m i ≡ true)
  unfolding free_slot
  found = first-some (is_free_at m) m.capabilities.num_breakpoints 0 i f

  -- No slot watches the place, so none but the new one will.
  alone :
      (q : Place) (a b : ℕ)
      → b < m.capabilities.num_breakpoints
      → a ≡ i
      → is_at (armed_slot m p i) q a ≡ true
      → is_at (armed_slot m p i) q b ≡ true
      → a ≡ b
  unfolding armed
  alone q a b hb ea ta tb = ground (
    arith,
    is_armed_at-armed_slot m p q i a,
    is_armed_at-armed_slot m p q i b,
    same_place-is_at m p q b,
    any-false (is_armed_at m p.word p.bas p.type) m.capabilities.num_breakpoints 0 b e,
  )

  pub armed_slot-IsValid : IsValid (armed_slot m p i)
  unfolding is_free_at
  armed_slot-IsValid = record {
    positive = v.positive;
    small = v.small;
    used_enabled = λ j h. ground (arith, v.used_enabled j h);
    beyond = λ j h. ground (arith, found, v.beyond j h);
    distinct = λ q a b ha hb ta tb. ground (
      arith,
      alone q a b hb,
      alone q b a ha,
      is_armed_at-armed_slot m p q i a,
      is_armed_at-armed_slot m p q i b,
      v.distinct q a b,
    );
  }

  pub available-armed_slot :
      breakpoints_available m ≡ suc (breakpoints_available (armed_slot m p i))
  unfolding is_free_at
  available-armed_slot = ground (
    arith,
    found,
    available-add-count m v,
    available-add-count (armed_slot m p i) armed_slot-IsValid,
    count-update m.used_breakpoints i true m.capabilities.num_breakpoints 0,
  )

-- The manager after the removal of a place.
abbrev pub without : HwBreakpointManager → Place → HwBreakpointManager
without m p = disarmed (hits p.word p.bas p.type m.capabilities.num_breakpoints 0 m) m

module _ (m : HwBreakpointManager) (p : Place) (v : IsValid m) where
  pub without-IsValid : IsValid (without m p)
  without-IsValid = record {
    positive = v.positive;
    small = v.small;
    used_enabled = λ j h. ground (arith, v.used_enabled j h);
    beyond = λ j h. ground (arith, v.beyond j h);
    distinct = λ q a b ha hb ta tb.
        ground (
          arith,
          is_armed_at-disarmed m p q a ha,
          is_armed_at-disarmed m p q b hb,
          v.distinct q a b,
        );
  }

  -- The slot that watches the place is the only one that changes.
  without-used :
      (i j : ℕ)
      → i < m.capabilities.num_breakpoints
      → is_at m p i ≡ true
      → (without m p).used_breakpoints j ≡ update m.used_breakpoints i false j
  without-used i j h t = ground (arith, v.distinct p i j)

  in_use :
      (i : ℕ)
      → i < m.capabilities.num_breakpoints
      → is_at m p i ≡ true
      → m.used_breakpoints i ≡ true
  unfolding is_armed_at
  in_use i h t = ground (arith, v.used_enabled i h)

  pub available-without :
      armed m p ≡ true → breakpoints_available (without m p) ≡ suc (breakpoints_available m)
  unfolding armed
  available-without e =
      let (i, lo, hi, t) = any-true (is_at m p) m.capabilities.num_breakpoints 0 e in
      ground (
        arith,
        in_use i (omega arith) t,
        available-add-count m v,
        available-add-count (without m p) without-IsValid,
        count-update m.used_breakpoints i false m.capabilities.num_breakpoints 0,
        count_cong (without m p).used_breakpoints (update m.used_breakpoints i false)
            m.capabilities.num_breakpoints 0 (λ j _ _. without-used i j (omega arith) t),
      )

  pub available-without_unarmed :
      armed m p ≡ false → breakpoints_available (without m p) ≡ breakpoints_available m
  unfolding armed
  available-without_unarmed e = ground (
    arith,
    available-add-count m v,
    available-add-count (without m p) without-IsValid,
    count_cong (without m p).used_breakpoints m.used_breakpoints m.capabilities.num_breakpoints 0
        (λ j lo hi. ground (arith, any-false (is_at m p) m.capabilities.num_breakpoints 0 j e)),
  )

pub same_place-armed :
    (m : HwBreakpointManager) (p q : Place) → same_place p q ≡ true → armed m q ≡ armed m p
unfolding armed
same_place-armed m p q h =
    any_cong (is_at m q) (is_at m p) m.capabilities.num_breakpoints 0
      (λ j _ _. same_place-is_at m p q j h)
