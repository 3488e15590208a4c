-- ===== src/Breakpoint/Hardware/Reserve.antt =====
-- How many slots the operations of the manager take and give back, and when they succeed.
use v5gdb.Base.{
  ℕ, ◌+◌, ◌≡◌, refl, sym, ◌∙◌, subst, ◌⊎◌, inl, inr, Bool, true, false, none, some, Bool-cases,
  Option-cases, some_inj, if◌then◌else◌, arith,
}
use v5gdb.Arch.{ArmBreakpointKind}
use v5gdb.Breakpoint.{BreakpointError, Result, ok, err}
use v5gdb.Breakpoint.Hardware.{
  HwBreakpointManager, Specificity, type_of, locked, split_addr, add_breakpoint_at,
  remove_breakpoint_at, breakpoints_available,
}
use v5gdb.Breakpoint.Hardware.Loops.{remove_slots_lem}
use v5gdb.Breakpoint.Hardware.Armed.{
  Place, place, armed, free_slot, insert, insert_lem, add_unlocked, remove_unlocked,
}
use v5gdb.Breakpoint.Hardware.Slots.{
  IsValid, armed_slot-IsValid, available-armed_slot, without, without-IsValid, available-without,
  available-without_unarmed,
}

pub Result-cases {ℓ} :
    {A : Type ℓ} (r : Result A) → ((e : BreakpointError) × (r ≡ err e)) ⊎ ((a : A) × (r ≡ ok a))
Result-cases (err e) = inl (e, refl)
Result-cases (ok a) = inr (a, refl)

-- How many slots an insertion with this result takes.
abbrev pub slots_taken : Result (Unit {0}) → ℕ
slots_taken (ok _) = 1
slots_taken (err _) = 0

-- What holds of the result of an insertion, and of a removal.
abbrev Inserts : HwBreakpointManager → Result (Unit {0}) × HwBreakpointManager → Type 0
Inserts m x = IsValid x.1 × (breakpoints_available m ≡ breakpoints_available x.1 + slots_taken x.0)

abbrev Removes : HwBreakpointManager → Bool × HwBreakpointManager → Type 0
Removes m x =
    IsValid x.1 × (breakpoints_available x.1 ≡ breakpoints_available m + (if x.0 then 1 else 0))

insert-Inserts : (m : HwBreakpointManager) (p : Place) → IsValid m → Inserts m (insert m p)
unfolding insert
insert-Inserts m p v = elim (Bool-cases (armed m p)) [
  | inl e ↦ rw e (v, omega arith)
  | inr e ↦ elim (Option-cases (free_slot m)) [
    | inl f ↦ rw (e, f) (v, omega arith)
    | inr (i, f) ↦
        rw (e, f) (armed_slot-IsValid m p i v f e, omega (arith, available-armed_slot m p i v f e))
  ]
]

without-Removes :
    (m : HwBreakpointManager) (p : Place) → IsValid m → Removes m (armed m p, without m p)
without-Removes m p v = elim (Bool-cases (armed m p)) [
  | inl e ↦ (without-IsValid m p v, ground (arith, available-without m p v e))
  | inr e ↦ (without-IsValid m p v, ground (arith, available-without_unarmed m p v e))
]

module _ (m : HwBreakpointManager) (addr : ℕ) (specificity : Specificity) (kind : ArmBreakpointKind)
    (v : IsValid m) where
  add_unaligned :
      (e : BreakpointError)
      → locked m ≡ false
      → split_addr addr kind ≡ err e
      → add_breakpoint_at m addr specificity kind ≡ some (err e, m)
  unfolding add_breakpoint_at
  add_unaligned e unlocked split = ground arith

  remove_unaligned :
      (e : BreakpointError)
      → locked m ≡ false
      → split_addr addr kind ≡ err e
      → remove_breakpoint_at m addr specificity kind ≡ some (false, m)
  unfolding remove_breakpoint_at
  remove_unaligned e unlocked split = ground arith

  pub add_locked : locked m ≡ true → add_breakpoint_at m addr specificity kind ≡ none
  unfolding add_breakpoint_at
  add_locked e = ground arith

  pub remove_locked : locked m ≡ true → remove_breakpoint_at m addr specificity kind ≡ none
  unfolding remove_breakpoint_at
  remove_locked e = ground arith

  -- On an unlocked manager the insertion returns.
  pub add_returns :
      locked m ≡ false
      → (x : Result (Unit {0}) × HwBreakpointManager) × (add_breakpoint_at m addr specificity kind
          ≡ some x)
        × Inserts m x
  add_returns unlocked = elim (Result-cases (split_addr addr kind)) [
    | inl (e, split) ↦ ((err e, m), add_unaligned e unlocked split, (v, omega arith))
    | inr ((word, bas), split) ↦ (
      insert m (place word bas specificity),
      add_unlocked m addr specificity kind word bas unlocked split
          ∙ insert_lem m (place word bas specificity) v.small,
      insert-Inserts m (place word bas specificity) v,
    )
  ]

  remove_some :
      (word bas : ℕ)
      → locked m ≡ false
      → split_addr addr kind ≡ ok (word, bas)
      → remove_breakpoint_at m addr specificity kind
        ≡ some (armed m (place word bas specificity), without m (place word bas specificity))
  unfolding armed
  remove_some word bas unlocked split =
      remove_unlocked m addr specificity kind word bas unlocked split
      ∙ remove_slots_lem word bas (type_of specificity) m.capabilities.num_breakpoints 0 false m
          (omega (arith, v.small))

  -- On an unlocked manager the removal returns.
  pub remove_returns :
      locked m ≡ false
      → (x : Bool × HwBreakpointManager) × (remove_breakpoint_at m addr specificity kind ≡ some x)
        × Removes m x
  remove_returns unlocked = elim (Result-cases (split_addr addr kind)) [
    | inl (e, split) ↦ ((false, m), remove_unaligned e unlocked split, (v, omega arith))
    | inr ((word, bas), split) ↦ (
      (armed m (place word bas specificity), without m (place word bas specificity)),
      remove_some word bas unlocked split,
      without-Removes m (place word bas specificity) v,
    )
  ]

-- What holds of the manager as it was, and without the place if there is one, holds after a removal.
pub remove_rule {ℓ} :
    (P : HwBreakpointManager → Type ℓ) (m : HwBreakpointManager) (addr : ℕ)
    (specificity : Specificity) (kind : ArmBreakpointKind)
    → IsValid m
    → locked m ≡ false
    → ((e : BreakpointError) → split_addr addr kind ≡ err e → P m)
    → ((word bas : ℕ)
        → split_addr addr kind ≡ ok (word, bas)
        → P (without m (place word bas specificity)))
    → (x : Bool × HwBreakpointManager) × (remove_breakpoint_at m addr specificity kind ≡ some x)
      × P x.1
remove_rule P m addr specificity kind v unlocked same gone =
    elim (Result-cases (split_addr addr kind)) [
      | inl (e, split) ↦
          ((false, m), remove_unaligned m addr specificity kind v e unlocked split, same e split)
      | inr ((word, bas), split) ↦ (
        (armed m (place word bas specificity), without m (place word bas specificity)),
        remove_some m addr specificity kind v word bas unlocked split,
        gone word bas split,
      )
    ]

-- What holds of the manager as it was, and of what an insertion makes of it, holds after a call.
pub add_rule {ℓ} :
    (P : HwBreakpointManager → Type ℓ) (m : HwBreakpointManager) (addr : ℕ)
    (specificity : Specificity) (kind : ArmBreakpointKind)
    → IsValid m
    → locked m ≡ false
    → P m
    → ((word bas : ℕ) → P (insert m (place word bas specificity)).1)
    → (x : Result (Unit {0}) × HwBreakpointManager) × (add_breakpoint_at m addr specificity kind
        ≡ some x)
      × P x.1
add_rule P m addr specificity kind v unlocked same done =
    elim (Result-cases (split_addr addr kind)) [
      | inl (e, split) ↦
          ((err e, m), add_unaligned m addr specificity kind v e unlocked split, same)
      | inr ((word, bas), split) ↦ (
        insert m (place word bas specificity),
        add_unlocked m addr specificity kind word bas unlocked split
            ∙ insert_lem m (place word bas specificity) v.small,
        done word bas,
      )
    ]

pub insert-IsValid : (m : HwBreakpointManager) (p : Place) → IsValid m → IsValid (insert m p).1
insert-IsValid m p v = (insert-Inserts m p v).0

pub locked-insert : (m : HwBreakpointManager) (p : Place) → locked (insert m p).1 ≡ locked m
unfolding insert
locked-insert m p = ground arith

-- Whatever `add_breakpoint_at` returns, the manager stays valid; the number of available slots
-- falls by one if it succeeded, and is the same if it failed.
pub add_breakpoint_at_accounts :
    (m : HwBreakpointManager) (addr : ℕ) (specificity : Specificity) (kind : ArmBreakpointKind)
    {r : Result (Unit {0})} {m' : HwBreakpointManager}
    → IsValid m
    → add_breakpoint_at m addr specificity kind ≡ some (r, m')
    → IsValid m' × (breakpoints_available m ≡ breakpoints_available m' + slots_taken r)
add_breakpoint_at_accounts m addr specificity kind v h = elim (Bool-cases (locked m)) [
  | inl e ↦ absurd (cc (add_locked m addr specificity kind v e))
  | inr e ↦
      let (x, eq, post) = add_returns m addr specificity kind v e in
      subst (Inserts m) (some_inj (sym eq ∙ h)) post
]

-- Whatever `remove_breakpoint_at` returns, the manager stays valid; it returns `true` exactly if
-- it gave back a slot, and then it is one slot.
pub remove_breakpoint_at_accounts :
    (m : HwBreakpointManager) (addr : ℕ) (specificity : Specificity) (kind : ArmBreakpointKind)
    {b : Bool} {m' : HwBreakpointManager}
    → IsValid m
    → remove_breakpoint_at m addr specificity kind ≡ some (b, m')
    → IsValid m' × (breakpoints_available m' ≡ breakpoints_available m + (if b then 1 else 0))
remove_breakpoint_at_accounts m addr specificity kind v h = elim (Bool-cases (locked m)) [
  | inl e ↦ absurd (cc (remove_locked m addr specificity kind v e))
  | inr e ↦
      let (x, eq, post) = remove_returns m addr specificity kind v e in
      subst (Removes m) (some_inj (sym eq ∙ h)) post
]

pub ok_inj {ℓ} : {A : Type ℓ} {a b : A} → ok a ≡ ok b → a ≡ b
ok_inj {a} {b} p = cc
