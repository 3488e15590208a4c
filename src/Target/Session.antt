-- ===== src/Target/Session.antt =====
-- What the operations of a debug session do to the kept slot (src/gdb_target/mod.rs and
-- src/gdb_target/breakpoint/hardware.rs).
use v5gdb.Base.{
  ℕ, ◌≤◌, ◌≡◌, refl, sym, ◌∙◌, subst, inl, inr, Bool, true, false, Option, none, some, Bool-cases,
  leb, arith,
}
use v5gdb.Arch.{ArmBreakpointKind}
use v5gdb.Breakpoint.{ok, err}
use v5gdb.Breakpoint.Hardware.{
  HwBreakpointManager, match, locked, split_addr, breakpoints_available,
}
use v5gdb.Breakpoint.Hardware.Armed.{Place, place, armed, insert}
use v5gdb.Breakpoint.Hardware.Slots.{without, without-IsValid}
use v5gdb.Breakpoint.Hardware.Reserve.{remove_rule, add_rule, insert-IsValid, locked-insert}
use v5gdb.Target.{V5Target, SingleStepRequest}
use v5gdb.Target.Entry.{request_single_step, step_kind, add_hw_breakpoint, remove_hw_breakpoint}
use v5gdb.Target.Reserve.{
  step_place, Reserved, Reserved-without-none, Reserved-without, Reserved-user,
}
use v5gdb.Target.Stepping.{Ready, Kept, demand, request_place, demand_slot}

-- The target with a single step requested.
abbrev pub requested : V5Target → HwBreakpointManager → V5Target
requested t m = record t {
  hw_manager = m;
  single_step_request =
      some (record { target_addr = t.exception_ctx.program_counter; kind = step_kind t });
}

-- A request that succeeds changes the manager and the request alone.
pub request_single_step_lem :
    (t : V5Target) (word bas : ℕ)
    → Ready t
    → locked t.hw_manager ≡ false
    → t.interrupt_pending ≡ false
    → t.single_step_request ≡ none
    → split_addr t.exception_ctx.program_counter (step_kind t) ≡ ok (word, bas)
    → (m : HwBreakpointManager) × (request_single_step t ≡ some (ok tt, requested t m))
      × Ready (requested t m)
      × (locked m ≡ false)
      × (armed m (step_place word bas) ≡ true)
unfolding request_single_step
request_single_step_lem t word bas r u not_pending no_request split =
    let (m, added, kept, watched) =
      demand_slot t.hw_manager t.exception_ctx.program_counter (step_kind t) word bas split (
        r.valid,
        u,
        subst (λ o. Reserved (request_place o) t.hw_manager) no_request
            (subst (λ b. Reserved (demand b t.single_step_request) t.hw_manager) not_pending
              r.reserved),
      ) in
    let q : SingleStepRequest = record {
      target_addr = t.exception_ctx.program_counter;
      kind = step_kind t;
    } in
    (
      m,
      ground (arith, added),
      record {
        valid = kept.0;
        reserved =
            subst (λ b. Reserved (demand b (some q)) m) (sym not_pending)
              (subst (λ d. Reserved d m) (sym (at_place q split)) kept.2);
      },
      kept.1,
      watched,
    )
  where
    at_place :
        (q : SingleStepRequest)
        → split_addr q.target_addr q.kind ≡ ok (word, bas)
        → request_place (some q) ≡ some (step_place word bas)
    at_place q e = rw (e, request_place)

-- In a ready target with no request and no pending interrupt, its registers unlocked,
-- `request_single_step` at a program counter aligned for its instruction set succeeds: the
-- mismatch breakpoint is set, the request is recorded, and the target is still ready.
pub request_single_step_returns :
    (t : V5Target) (word bas : ℕ)
    → Ready t
    → locked t.hw_manager ≡ false
    → t.interrupt_pending ≡ false
    → t.single_step_request ≡ none
    → split_addr t.exception_ctx.program_counter (step_kind t) ≡ ok (word, bas)
    → (t' : V5Target) × (request_single_step t ≡ some (ok tt, t'))
      × Ready t'
      × (armed t'.hw_manager (step_place word bas) ≡ true)
      × (t'.single_step_request
          ≡ some (record { target_addr = t.exception_ctx.program_counter; kind = step_kind t }))
request_single_step_returns t word bas r u not_pending no_request split =
    let (m, e, ready, _, watched) =
      request_single_step_lem t word bas r u not_pending no_request split in
    (requested t m, e, ready, watched, refl)

Kept-insert_user :
    (m : HwBreakpointManager) (d : Option Place) (word bas : ℕ)
    → 2 ≤ breakpoints_available m
    → Kept d m
    → Kept d (insert m (place word bas match)).1
Kept-insert_user m d word bas h (v, u, k) = (
  insert-IsValid m (place word bas match) v,
  locked-insert m (place word bas match) ∙ u,
  Reserved-user m v word bas d k h,
)

Kept-without :
    (m : HwBreakpointManager) (d : Option Place) (q : Place) → Kept d m → Kept d (without m q)
Kept-without m none q (v, u, k) = (without-IsValid m q v, u, Reserved-without-none m v q k)
Kept-without m (some p) q (v, u, k) = (without-IsValid m q v, u, Reserved-without m v p q k)

-- Whatever hardware breakpoint GDB asks for, `add_hw_breakpoint` on a ready, unlocked target does
-- not panic, and leaves it ready and unlocked: the last slot is never given away.
pub add_hw_breakpoint-Ready :
    (addr : ℕ) (kind : ArmBreakpointKind) (t : V5Target)
    → Ready t
    → locked t.hw_manager ≡ false
    → (x : Bool × V5Target) × (add_hw_breakpoint addr kind t ≡ some x)
      × Ready x.1
      × (locked x.1.hw_manager ≡ false)
unfolding add_hw_breakpoint
add_hw_breakpoint-Ready addr kind t r u =
    elim (Bool-cases (leb (breakpoints_available t.hw_manager) 1)) [
      | inl e ↦ ((false, t), ground (arith, e), r, u)
      | inr e ↦
          let d = demand t.interrupt_pending t.single_step_request in
          let (x, added, kept) =
            add_rule (Kept d) t.hw_manager addr match kind r.valid u (r.valid, u, r.reserved)
              (λ word bas.
                Kept-insert_user t.hw_manager d word bas (ground arith) (r.valid, u, r.reserved)) in
          (
            (elim x.0 [ ok _ ↦ true | err _ ↦ false ], record t { hw_manager = x.1 }),
            ground (arith, added, e),
            record { valid = kept.0; reserved = kept.2 },
            kept.1,
          )
    ]

-- Whatever hardware breakpoint GDB takes back, `remove_hw_breakpoint` on a ready, unlocked target
-- does not panic, and leaves it ready and unlocked.
pub remove_hw_breakpoint-Ready :
    (addr : ℕ) (kind : ArmBreakpointKind) (t : V5Target)
    → Ready t
    → locked t.hw_manager ≡ false
    → (x : Bool × V5Target) × (remove_hw_breakpoint addr kind t ≡ some x)
      × Ready x.1
      × (locked x.1.hw_manager ≡ false)
unfolding remove_hw_breakpoint
remove_hw_breakpoint-Ready addr kind t r u =
    let d = demand t.interrupt_pending t.single_step_request in
    let (x, removed, kept) =
      remove_rule (Kept d) t.hw_manager addr match kind r.valid u (λ _ _. (r.valid, u, r.reserved))
        (λ word bas _.
          Kept-without t.hw_manager d (place word bas match) (r.valid, u, r.reserved)) in
    (
      (x.0, record t { hw_manager = x.1 }),
      rw removed,
      record { valid = kept.0; reserved = kept.2 },
      kept.1,
    )
