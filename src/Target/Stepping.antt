-- ===== src/Target/Stepping.antt =====
-- Single steps and interrupts always find the slot that is kept for them (src/gdb_target/mod.rs).
use v5gdb.Base.{
  ℕ, ◌≡◌, refl, sym, ◌∙◌, ap, subst, inl, inr, Bool, true, false, Option, none, some, Bool-cases,
  Option-cases, arith,
}
use v5gdb.Arch.{ArmBreakpointKind, kind_arm32}
use v5gdb.Breakpoint.{BreakpointError, ok, err}
use v5gdb.Breakpoint.Hardware.{
  HwBreakpointManager, mismatch, locked, set_locked, split_addr, add_breakpoint_at,
  remove_breakpoint_at, breakpoints_available, is_armed_at,
}
use v5gdb.Breakpoint.Hardware.Armed.{Place, armed, insert_lem, add_unlocked}
use v5gdb.Breakpoint.Hardware.Slots.{IsValid, without, without-IsValid}
use v5gdb.Breakpoint.Hardware.Reserve.{ok_inj, remove_rule}
use v5gdb.Target.{V5Target, SingleStepRequest}
use v5gdb.Target.Entry.{
  async_halt_sentinel, finalize_single_step, finalize_interrupt, reuse_step, request_interrupt,
}
use v5gdb.Target.Reserve.{step_place, Reserved, Reserved-without, Reserved-release, Reserved-demand}

-- The place of the sentinel.
abbrev pub sentinel_place : Place
sentinel_place = step_place 0xfffffffc 15

-- The place of an aligned single step; an unaligned one has none.
abbrev pub request_place : Option SingleStepRequest → Option Place
request_place none = none
request_place (some r) = elim (split_addr r.target_addr r.kind) [
  | err e ↦ none
  | ok (word, bas) ↦ some (step_place word bas)
]

-- The mismatch breakpoint that the state of the target calls for.
abbrev pub demand : Bool → Option SingleStepRequest → Option Place
demand true r = some sentinel_place
demand false r = request_place r

-- What holds of a target at all times: its manager is valid, and the kept slot is either available
-- or in use for what the target's state calls for.
pub record Ready (t : V5Target) : Type 0 where
  pub valid : IsValid t.hw_manager
  pub reserved : Reserved (demand t.interrupt_pending t.single_step_request) t.hw_manager

-- Locking changes no slot.
pub set_locked-IsValid : (b : Bool) (m : HwBreakpointManager) → IsValid m → IsValid (set_locked b m)
unfolding set_locked is_armed_at
set_locked-IsValid b m v = record {
  positive = v.positive;
  small = v.small;
  used_enabled = v.used_enabled;
  beyond = v.beyond;
  distinct = v.distinct;
}

pub set_locked-Reserved :
    (b : Bool) (m : HwBreakpointManager) (d : Option Place)
    → Reserved d m
    → Reserved d (set_locked b m)
unfolding set_locked is_armed_at armed breakpoints_available
set_locked-Reserved b m none r = r
set_locked-Reserved b m (some p) r = r

-- An unlocked valid manager with the kept slot as demanded.
abbrev pub Kept : Option Place → HwBreakpointManager → Type 0
Kept d m = IsValid m × (locked m ≡ false) × Reserved d m

-- After the removal of a single step its demand is gone.
release_step :
    (m : HwBreakpointManager) (pending : Bool) (r : SingleStepRequest)
    → Kept (demand pending (some r)) m
    → (x : Bool × HwBreakpointManager) × (remove_breakpoint_at m r.target_addr mismatch r.kind
        ≡ some x)
      × Kept (demand pending none) x.1
release_step m true r (v, u, k) =
    remove_rule (Kept (demand true none)) m r.target_addr mismatch r.kind v u (λ e split. (v, u, k))
      (λ word bas split. (
        without-IsValid m (step_place word bas) v,
        u,
        Reserved-without m v sentinel_place (step_place word bas) k,
      ))
release_step m false r (v, u, k) =
    remove_rule (Kept none) m r.target_addr mismatch r.kind v u
      (λ e split. (v, u, subst (λ d. Reserved d m) (no_place e split) k))
      (λ word bas split. (
        without-IsValid m (step_place word bas) v,
        u,
        Reserved-release m v (step_place word bas)
            (subst (λ d. Reserved d m) (a_place word bas split) k),
      ))
  where
    no_place :
        (e : BreakpointError)
        → split_addr r.target_addr r.kind ≡ err e
        → request_place (some r) ≡ none
    no_place e split = rw (split, request_place)

    a_place :
        (word bas : ℕ)
        → split_addr r.target_addr r.kind ≡ ok (word, bas)
        → request_place (some r) ≡ some (step_place word bas)
    a_place word bas split = rw (split, request_place)

sentinel_split : split_addr async_halt_sentinel kind_arm32 ≡ ok (0xfffffffc, 15)
unfolding split_addr
sentinel_split = refl

-- After the removal of the sentinel its demand is gone.
release_interrupt :
    (m : HwBreakpointManager)
    → Kept (some sentinel_place) m
    → (x : Bool × HwBreakpointManager) × (remove_breakpoint_at m async_halt_sentinel mismatch
          kind_arm32
        ≡ some x)
      × Kept none x.1
release_interrupt m (v, u, k) =
    remove_rule (Kept none) m async_halt_sentinel mismatch kind_arm32 v u
      (λ e split. absurd (cc (split, sentinel_split)))
      (λ word bas split.
        let same = ok_inj (sym sentinel_split ∙ split) in
        (
          without-IsValid m (step_place word bas) v,
          u,
          subst (λ p. Reserved none (without m (step_place p.0 p.1))) same
              (Reserved-release m v sentinel_place k),
        ))

-- A demand of a free slot is met.
pub demand_slot :
    (m : HwBreakpointManager) (addr : ℕ) (kind : ArmBreakpointKind) (word bas : ℕ)
    → split_addr addr kind ≡ ok (word, bas)
    → Kept none m
    → (m' : HwBreakpointManager) × (add_breakpoint_at m addr mismatch kind ≡ some (ok tt, m'))
      × Kept (some (step_place word bas)) m'
      × (armed m' (step_place word bas) ≡ true)
demand_slot m addr kind word bas split (v, u, k) =
    let (m', e, v', l, a, k', s) = Reserved-demand m v word bas k in
    (
      m',
      add_unlocked m addr mismatch kind word bas u split
          ∙ insert_lem m (step_place word bas) v.small
          ∙ ap some e,
      (v', l ∙ u, k'),
      s,
    )

-- What an operation leaves: the target ready, its registers unlocked.
abbrev pub Unlocked : V5Target → Type 0
Unlocked t = Ready t × (locked t.hw_manager ≡ false)

-- On a ready, unlocked target `finalize_single_step` does not panic. It leaves no request, the target
-- ready and unlocked, and a pending interrupt pending.
pub finalize_single_step_returns :
    (t : V5Target)
    → Ready t
    → locked t.hw_manager ≡ false
    → (t' : V5Target) × (finalize_single_step t ≡ some t')
      × Ready t'
      × (locked t'.hw_manager ≡ false)
      × (t'.single_step_request ≡ none)
      × (t'.interrupt_pending ≡ t.interrupt_pending)
unfolding finalize_single_step
finalize_single_step_returns t r u = elim (Option-cases t.single_step_request) [
  | inl e ↦ (t, ground arith, r, u, e, refl)
  | inr (q, e) ↦
      let (x, eq, kept) = release_step t.hw_manager t.interrupt_pending q (
        r.valid,
        u,
        subst (λ o. Reserved (demand t.interrupt_pending o) t.hw_manager) e r.reserved,
      ) in
      (
        record t { hw_manager = x.1; single_step_request = none },
        ground (arith, eq),
        record { valid = kept.0; reserved = kept.2 },
        kept.1,
        refl,
        refl,
      )
]

-- On a ready, unlocked target without a single step, `finalize_interrupt` does not panic. It leaves no
-- interrupt pending, no single step, and the target ready and unlocked.
pub finalize_interrupt_returns :
    (t : V5Target)
    → Ready t
    → locked t.hw_manager ≡ false
    → t.single_step_request ≡ none
    → (t' : V5Target) × (finalize_interrupt t ≡ some t')
      × Ready t'
      × (locked t'.hw_manager ≡ false)
      × (t'.single_step_request ≡ none)
      × (t'.interrupt_pending ≡ false)
unfolding finalize_interrupt
finalize_interrupt_returns t r u none_left = elim (Bool-cases t.interrupt_pending) [
  | inl e ↦
      let (x, eq, kept) = release_interrupt t.hw_manager (
        r.valid,
        u,
        subst (λ b. Reserved (demand b t.single_step_request) t.hw_manager) e r.reserved,
      ) in
      (
        record t { hw_manager = x.1; interrupt_pending = false },
        ground (arith, eq),
        record {
          valid = kept.0;
          reserved = subst (λ o. Reserved (demand false o) x.1) (sym none_left) kept.2;
        },
        kept.1,
        none_left,
        refl,
      )
  | inr e ↦ (t, ground arith, r, u, none_left, e)
]

reuse_step_returns :
    (r : Option SingleStepRequest) (m : HwBreakpointManager)
    → Kept (request_place r) m
    → (m' : HwBreakpointManager) × (reuse_step r m ≡ some m') × Kept none m'
unfolding reuse_step
reuse_step_returns none m k = (m, refl, k)
reuse_step_returns (some r) m k = let (x, eq, kept) = release_step m false r k in (x.1, rw eq, kept)

pub locked-set_locked : (b : Bool) (m : HwBreakpointManager) → locked (set_locked b m) ≡ b
unfolding set_locked
locked-set_locked true m = refl
locked-set_locked false m = refl

unlocked_for_interrupt :
    (t : V5Target)
    → Ready t
    → t.interrupt_pending ≡ false
    → Kept (request_place t.single_step_request) (set_locked false t.hw_manager)
unlocked_for_interrupt t r e = (
  set_locked-IsValid false t.hw_manager r.valid,
  locked-set_locked false t.hw_manager,
  set_locked-Reserved false t.hw_manager (request_place t.single_step_request)
      (subst (λ b. Reserved (demand b t.single_step_request) t.hw_manager) e r.reserved),
)

-- On a ready target, whose manager is valid and whose kept slot is reserved, `request_interrupt` does
-- not panic, however else the target stands: if no interrupt is pending yet, a slot is found for the sentinel, also while a single step holds the slot that is kept. Afterwards
-- one is pending, the target is still ready, and the lock is as it was.
pub request_interrupt_returns :
    (t : V5Target)
    → Ready t
    → (t' : V5Target) × (request_interrupt t ≡ some t')
      × Ready t'
      × (t'.interrupt_pending ≡ true)
      × (locked t'.hw_manager ≡ locked t.hw_manager)
unfolding request_interrupt
request_interrupt_returns t r = elim (Bool-cases t.interrupt_pending) [
  | inl e ↦ (t, ground arith, r, e, refl)
  | inr e ↦
      let (m, reused, kept) =
        reuse_step_returns t.single_step_request (set_locked false t.hw_manager)
          (unlocked_for_interrupt t r e) in
      let (m', added, kept', set) =
        demand_slot m async_halt_sentinel kind_arm32 0xfffffffc 15 sentinel_split kept in
      (
        record t { hw_manager = set_locked (locked t.hw_manager) m'; interrupt_pending = true },
        ground (arith, reused, added),
        record {
          valid = set_locked-IsValid (locked t.hw_manager) m' kept'.0;
          reserved = set_locked-Reserved (locked t.hw_manager) m' (some sentinel_place) kept'.2;
        },
        refl,
        locked-set_locked (locked t.hw_manager) m',
      )
]
