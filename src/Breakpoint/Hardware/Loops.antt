-- ===== src/Breakpoint/Hardware/Loops.antt =====
-- What the loops of `add_breakpoint_at` and `remove_breakpoint_at` compute.
use v5gdb.Base.{
  ℕ, zero, suc, ◌+◌, ◌≤◌, ◌<◌, ◌≡◌, refl, inl, inr, Bool, true, false, ◌&&◌, ◌||◌, Option, none,
  some, or_else, any, first, Bool-cases, ltb, leb, if◌then◌else◌, arith, fun_ext,
}
use v5gdb.Cpu.Debug.{BreakpointType, BreakpointControl}
use v5gdb.Breakpoint.Hardware.{
  HwBreakpointManager, duplicate, vacant, search_slots, is_armed_at, is_free_at, disarm_slot,
  remove_slots,
}

module _ (m : HwBreakpointManager) (word bas : ℕ) (ty : BreakpointType) where
  -- Inside the array the search finds a duplicate if there is one, else the first free slot.
  pub search_slots_lem :
      (k idx : ℕ) (next : Option ℕ)
      → idx + k ≤ 16
      → search_slots m word bas ty k idx next
        ≡ some (
            if any (is_armed_at m word bas ty) k idx
            then duplicate
            else vacant (or_else next (first (is_free_at m) k idx)))
  unfolding search_slots any first
  search_slots_lem zero idx none h = refl
  search_slots_lem zero idx (some i) h = refl
  search_slots_lem (suc k) idx none h = ground (
    arith,
    search_slots_lem k (suc idx) (some idx) (omega arith),
    search_slots_lem k (suc idx) none (omega arith),
  )
  search_slots_lem (suc k) idx (some i) h =
      ground (arith, search_slots_lem k (suc idx) (some i) (omega arith))

-- Whether `j` is one of the `k` numbers from `idx` on.
abbrev pub in_range : ℕ → ℕ → ℕ → Bool
in_range k idx j = leb idx j && ltb j (idx + k)

-- The manager with every slot of the range disarmed that the test accepts.
abbrev pub disarmed : (ℕ → Bool) → HwBreakpointManager → HwBreakpointManager
disarmed p m = record m {
  mmio = record (m.mmio) {
    breakpoint_ctrl = λ j.
        if p j
        then record (m.mmio.breakpoint_ctrl j) { enabled = false }
        else m.mmio.breakpoint_ctrl j;
  };
  used_breakpoints = λ j. if p j then false else m.used_breakpoints j;
}

-- The test of the removal loop, over the slots of a range.
abbrev pub hits : ℕ → ℕ → BreakpointType → ℕ → ℕ → HwBreakpointManager → ℕ → Bool
hits word bas ty k idx m j = in_range k idx j && is_armed_at m word bas ty j

-- Two managers that differ in control registers and used slots agree if those agree at each index.
abbrev rewired : HwBreakpointManager → (ℕ → BreakpointControl) → (ℕ → Bool) → HwBreakpointManager
rewired m c u = record m { mmio = record (m.mmio) { breakpoint_ctrl = c }; used_breakpoints = u }

rewired_path :
    (m : HwBreakpointManager) (c d : ℕ → BreakpointControl) (u v : ℕ → Bool)
    → ((j : ℕ) → c j ≡ d j)
    → ((j : ℕ) → u j ≡ v j)
    → rewired m c u ≡ rewired m d v
rewired_path m c d u v p q = λ i. rewired m (fun_ext p i) (fun_ext q i)

module _ (word bas : ℕ) (ty : BreakpointType) where
  -- Disarming the first slot if it is hit, and then the later ones, disarms them all.
  disarmed_hit :
      (k idx : ℕ) (m : HwBreakpointManager)
      → is_armed_at m word bas ty idx ≡ true
      → disarmed (hits word bas ty k (suc idx) (disarm_slot m idx)) (disarm_slot m idx)
        ≡ disarmed (hits word bas ty (suc k) idx m) m
  unfolding is_armed_at
  disarmed_hit k idx m e = rewired_path m _ _ _ _ (λ j. ground arith) (λ j. ground arith)

  disarmed_miss :
      (k idx : ℕ) (m : HwBreakpointManager)
      → is_armed_at m word bas ty idx ≡ false
      → disarmed (hits word bas ty k (suc idx) m) m ≡ disarmed (hits word bas ty (suc k) idx m) m
  disarmed_miss k idx m e = rewired_path m _ _ _ _ (λ j. ground arith) (λ j. ground arith)

  -- Disarming a slot leaves the test of the later ones alone.
  any-disarm_slot :
      (k idx i : ℕ) (m : HwBreakpointManager)
      → i < idx
      → any (is_armed_at (disarm_slot m i) word bas ty) k idx
        ≡ any (is_armed_at m word bas ty) k idx
  unfolding any is_armed_at
  any-disarm_slot zero idx i m h = refl
  any-disarm_slot (suc k) idx i m h = ground (arith, any-disarm_slot k (suc idx) i m (omega arith))

  disarmed_none : (idx : ℕ) (m : HwBreakpointManager) → disarmed (hits word bas ty 0 idx m) m ≡ m
  disarmed_none idx m = rewired_path m _ _ _ _ (λ j. ground arith) (λ j. ground arith)

  or_true : (b c : Bool) → true ≡ (b || (true || c))
  or_true b c = ground arith

  -- Inside the array the loop disarms the slots that it hits, and says whether there are any.
  pub remove_slots_lem :
      (k idx : ℕ) (removed : Bool) (m : HwBreakpointManager)
      → idx + k ≤ 16
      → remove_slots word bas ty k idx removed m
        ≡ some (
          removed || any (is_armed_at m word bas ty) k idx,
          disarmed (hits word bas ty k idx m) m,
        )
  unfolding remove_slots any
  remove_slots_lem zero idx removed m h = ground (arith, disarmed_none idx m)
  remove_slots_lem (suc k) idx removed m h = elim (Bool-cases (is_armed_at m word bas ty idx)) [
    | inl e ↦ ground (
      arith,
      remove_slots_lem k (suc idx) true (disarm_slot m idx) (omega arith),
      disarmed_hit k idx m e,
      any-disarm_slot k (suc idx) idx m (omega arith),
    )
    | inr e ↦
        ground
          (arith, remove_slots_lem k (suc idx) removed m (omega arith), disarmed_miss k idx m e)
  ]
