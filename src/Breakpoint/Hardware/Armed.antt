-- ===== src/Breakpoint/Hardware/Armed.antt =====
-- The manager as the set of places that it watches, and its operations as insertion and removal.
use v5gdb.Base.{
  ℕ, ◌+◌, ◌≤◌, ◌<◌, ◌≡◌, sym, ◌∙◌, subst, Bool, true, false, not, ◌&&◌, ◌||◌, Option, none, some,
  any, first, update, any-update, any_cong, any_and, first-some, ◌⊎◌, inl, inr, Bool-cases,
  Option-cases, lt→ltb, ◌==◌, if◌then◌else◌, arith,
}
use v5gdb.Arch.{ArmBreakpointKind}
use v5gdb.Cpu.Debug.{BreakpointType, raw_of_type}
use v5gdb.Breakpoint.{Result, ok, err, already_exists, no_space}
use v5gdb.Breakpoint.Hardware.{
  HwBreakpointManager, Specificity, type_of, locked, split_addr, has_type, is_armed_at, is_free_at,
  arm_slot, add_at, add_breakpoint_at, remove_slots, remove_breakpoint_at, armed_ctrl,
}
use v5gdb.Breakpoint.Hardware.Loops.{search_slots_lem, remove_slots_lem, disarmed, hits}

-- A place: a word, the bytes of it, and the type of the match.
pub record Place : Type 0 where
  pub word : ℕ
  pub bas : ℕ
  pub type : BreakpointType

abbrev pub same_place : Place → Place → Bool
same_place p q = p.word == q.word && (p.bas == q.bas && raw_of_type p.type == raw_of_type q.type)

-- Whether some slot watches the place.
unfoldable pub armed : HwBreakpointManager → Place → Bool
armed m p = any (is_armed_at m p.word p.bas p.type) m.capabilities.num_breakpoints 0

-- The first slot that is neither enabled nor in use.
unfoldable pub free_slot : HwBreakpointManager → Option ℕ
free_slot m = first (is_free_at m) m.capabilities.num_breakpoints 0

-- The manager with a slot given to a place.
abbrev pub armed_slot : HwBreakpointManager → Place → ℕ → HwBreakpointManager
armed_slot m p i = record m {
  mmio = record (m.mmio) {
    breakpoint_value = update m.mmio.breakpoint_value i p.word;
    breakpoint_ctrl = update m.mmio.breakpoint_ctrl i (armed_ctrl p.bas p.type);
  };
  used_breakpoints = update m.used_breakpoints i true;
}

-- What inserting a place should do.
unfoldable pub insert : HwBreakpointManager → Place → Result (Unit {0}) × HwBreakpointManager
insert m p =
    if armed m p
    then (err already_exists, m)
    else elim (free_slot m) [ none ↦ (err no_space, m) | some i ↦ (ok tt, armed_slot m p i) ]

arm_slot_lem :
    (m : HwBreakpointManager) (p : Place) (i : ℕ)
    → i < 16
    → arm_slot m p.word p.bas p.type i ≡ some (ok tt, armed_slot m p i)
unfolding arm_slot
arm_slot_lem m p i h = rw (lt→ltb i 16 h)

-- The code does what the specification says.
pub insert_lem :
    (m : HwBreakpointManager) (p : Place)
    → m.capabilities.num_breakpoints ≤ 16
    → add_at m p.word p.bas p.type ≡ some (insert m p)
unfolding add_at insert armed free_slot
insert_lem m p h =
    rw
      (
        search_slots_lem m p.word p.bas p.type m.capabilities.num_breakpoints 0 none (omega arith),
        add_at,
      )
      (elim (Bool-cases
        (any (is_armed_at m p.word p.bas p.type) m.capabilities.num_breakpoints 0)) [
          | inl e ↦ rw e
          | inr e ↦
              rw e (elim (Option-cases (first (is_free_at m) m.capabilities.num_breakpoints 0)) [
                | inl f ↦ rw f
                | inr (i, f) ↦ rw f (
                    arm_slot_lem m p i (
                      omega
                        (arith, first-some (is_free_at m) m.capabilities.num_breakpoints 0 i f)))
              ])
        ])

-- A type is read back from its own code and from no other.
pub has_type_lem : (raw : ℕ) (ty : BreakpointType) → has_type raw ty ≡ (raw == raw_of_type ty)
unfolding has_type
has_type_lem raw ty = ground arith

-- A slot given to a place watches that place and no other.
pub is_armed_at-armed_slot :
    (m : HwBreakpointManager) (p q : Place) (i j : ℕ)
    → is_armed_at (armed_slot m p i) q.word q.bas q.type j
      ≡ update (is_armed_at m q.word q.bas q.type) i (same_place p q) j
unfolding is_armed_at
is_armed_at-armed_slot m p q i j = ground (arith, has_type_lem (raw_of_type p.type) q.type)

free-unarmed :
    (m : HwBreakpointManager) (p : Place) (i : ℕ)
    → is_free_at m i ≡ true
    → is_armed_at m p.word p.bas p.type i ≡ false
unfolding is_free_at is_armed_at
free-unarmed m p i h = ground arith

pub armed-armed_slot :
    (m : HwBreakpointManager) (p q : Place) (i : ℕ)
    → free_slot m ≡ some i
    → armed (armed_slot m p i) q ≡ (same_place p q || armed m q)
unfolding armed free_slot
armed-armed_slot m p q i f =
    any_cong _ _ n 0 (λ j _ _. is_armed_at-armed_slot m p q i j)
    ∙ any-update (is_armed_at m q.word q.bas q.type) i (same_place p q) n 0 slot.0 slot.1
        (free-unarmed m q i slot.2)
  where
    n : ℕ
    n = m.capabilities.num_breakpoints

    slot : (0 ≤ i) × (i < 0 + n) × (is_free_at m i ≡ true)
    slot = first-some (is_free_at m) n 0 i f

-- Where an address splits, and the type of a specificity: the place that it means.
abbrev pub place : ℕ → ℕ → Specificity → Place
place word bas specificity = record { word = word; bas = bas; type = type_of specificity }

module _ (m : HwBreakpointManager) (addr : ℕ) (specificity : Specificity) (kind : ArmBreakpointKind)
    (word bas : ℕ) (unlocked : locked m ≡ false)
    (split : split_addr addr kind ≡ ok (word, bas)) where
  pub add_unlocked :
      add_breakpoint_at m addr specificity kind ≡ add_at m word bas (type_of specificity)
  unfolding add_breakpoint_at
  add_unlocked = ground arith

  pub remove_unlocked :
      remove_breakpoint_at m addr specificity kind
      ≡ remove_slots word bas (type_of specificity) m.capabilities.num_breakpoints 0 false m
  unfolding remove_breakpoint_at
  remove_unlocked = ground arith

-- The three ways in which an insertion may end.
abbrev pub Inserted :
    HwBreakpointManager → Place → Option (Result (Unit {0}) × HwBreakpointManager) → Type 0
Inserted m p r =
    ((armed m p ≡ true) × (r ≡ some (err already_exists, m)))
    ⊎ (((armed m p ≡ false) × (free_slot m ≡ none) × (r ≡ some (err no_space, m)))
        ⊎ ((m' : HwBreakpointManager) × (armed m p ≡ false)
            × (r ≡ some (ok tt, m'))
            × ((q : Place) → armed m' q ≡ (same_place p q || armed m q))))

insert-Inserted : (m : HwBreakpointManager) (p : Place) → Inserted m p (some (insert m p))
unfolding insert
insert-Inserted m p = elim (Bool-cases (armed m p)) [
  | inl e ↦ inl (e, rw e)
  | inr e ↦ inr (elim (Option-cases (free_slot m)) [
    | inl f ↦ inl (e, f, rw (e, f))
    | inr (i, f) ↦ inr (armed_slot m p i, e, rw (e, f), λ q. armed-armed_slot m p q i f)
  ])
]

-- On an unlocked manager of at most 16 slots and an aligned address, `add_breakpoint_at` does not
-- panic. It reports a duplicate exactly when the place is watched, and a lack of space when it is
-- not and no slot is free; both change nothing. Else it succeeds, and the places watched are then
-- those watched before and the new one.
pub add_breakpoint_at_refines :
    (m : HwBreakpointManager) (addr : ℕ) (specificity : Specificity) (kind : ArmBreakpointKind)
    (word bas : ℕ)
    → locked m ≡ false
    → m.capabilities.num_breakpoints ≤ 16
    → split_addr addr kind ≡ ok (word, bas)
    → Inserted m (place word bas specificity) (add_breakpoint_at m addr specificity kind)
add_breakpoint_at_refines m addr specificity kind word bas unlocked small split =
    subst (Inserted m p)
      (sym (add_unlocked m addr specificity kind word bas unlocked split ∙ insert_lem m p small))
      (insert-Inserted m p)
  where
    p : Place
    p = place word bas specificity

-- Disarming the slots of a place stops the watch of that place and of no other.
pub is_armed_at-disarmed :
    (m : HwBreakpointManager) (p q : Place) (j : ℕ)
    → j < m.capabilities.num_breakpoints
    → is_armed_at
        (disarmed (hits p.word p.bas p.type m.capabilities.num_breakpoints 0 m) m)
        q.word
        q.bas
        q.type
        j
      ≡ (not (same_place p q) && is_armed_at m q.word q.bas q.type j)
unfolding is_armed_at
is_armed_at-disarmed m p q j h = ground (
  arith,
  has_type_lem (m.mmio.breakpoint_ctrl j).breakpoint_type p.type,
  has_type_lem (m.mmio.breakpoint_ctrl j).breakpoint_type q.type,
)

pub armed-disarmed :
    (m : HwBreakpointManager) (p q : Place)
    → armed (disarmed (hits p.word p.bas p.type m.capabilities.num_breakpoints 0 m) m) q
      ≡ (not (same_place p q) && armed m q)
unfolding armed
armed-disarmed m p q =
    any_cong _ _ n 0 (λ j _ h. is_armed_at-disarmed m p q j (omega arith))
    ∙ any_and (is_armed_at m q.word q.bas q.type) (not (same_place p q)) n 0
  where
    n : ℕ
    n = m.capabilities.num_breakpoints

-- On an unlocked manager of at most 16 slots and an aligned address, `remove_breakpoint_at` does
-- not panic and says whether the place was watched; afterwards every other place is watched as
-- before, and this one is not.
pub remove_breakpoint_at_refines :
    (m : HwBreakpointManager) (addr : ℕ) (specificity : Specificity) (kind : ArmBreakpointKind)
    (word bas : ℕ)
    → locked m ≡ false
    → m.capabilities.num_breakpoints ≤ 16
    → split_addr addr kind ≡ ok (word, bas)
    → let p = place word bas specificity in
      (m' : HwBreakpointManager) × (remove_breakpoint_at m addr specificity kind
        ≡ some (armed m p, m'))
      × ((q : Place) → armed m' q ≡ (not (same_place p q) && armed m q))
unfolding armed
remove_breakpoint_at_refines m addr specificity kind word bas unlocked small split = (
  disarmed (hits word bas (type_of specificity) m.capabilities.num_breakpoints 0 m) m,
  remove_unlocked m addr specificity kind word bas unlocked split
      ∙ remove_slots_lem word bas (type_of specificity) m.capabilities.num_breakpoints 0 false m
          (omega arith),
  λ q. armed-disarmed m (place word bas specificity) q,
)
