-- ===== src/Target/Registers/Step.antt =====
-- A single step asked for by GDB.
use v5gdb.Base.{
  ℕ, ◌-◌, ◌%◌, ◌≡◌, refl, inl, inr, Bool, Bool-cases, true, false, none, some, ◌==◌, if◌then◌else◌,
  arith,
}
use v5gdb.Exceptions.{thumb}
use v5gdb.Breakpoint.{BreakpointError, not_aligned_correctly, ok, err}
use v5gdb.Breakpoint.Hardware.{split_addr, add_breakpoint_at}
use v5gdb.Breakpoint.Hardware.Armed.{armed}
use v5gdb.Target.{V5Target, resuming_program}
use v5gdb.Target.Entry.{step_kind, request_single_step}
use v5gdb.Target.Events.{IsEntered, held}
use v5gdb.Target.Reserve.{step_place}
use v5gdb.Target.Registers.{step, resume}
use v5gdb.Target.Session.{request_single_step_returns}
use v5gdb.Target.Stepping.{Ready}

-- Instructions of ARM lie at multiples of 4, those of Thumb at multiples of 2.
abbrev pub alignment : V5Target → ℕ
alignment t = if thumb t.exception_ctx then 2 else 4

-- The bytes that the instruction takes of the word that holds its address, as a mask: all four in
-- ARM, the lower or the upper two in Thumb.
abbrev pub bytes_taken : V5Target → ℕ
bytes_taken t =
    if thumb t.exception_ctx
    then (if t.exception_ctx.program_counter % 4 == 0 then 3 else 12)
    else 15

-- The word that holds the program counter.
abbrev pub word : V5Target → ℕ
word t = t.exception_ctx.program_counter - t.exception_ctx.program_counter % 4

-- What a step should do, by whether the program counter is aligned.
abbrev pub Stepped : V5Target → Bool → Type 0
Stepped t false = step t ≡ none
Stepped t true =
    (t' : V5Target) × (step t ≡ some t')
    × Ready t'
    × (armed t'.hw_manager (step_place (word t) (bytes_taken t)) ≡ true)
    × (t'.monitor_status ≡ resuming_program)
    × (held t' ≡ 1)

abbrev pub is_aligned : V5Target → Bool
is_aligned t = t.exception_ctx.program_counter % alignment t == 0

splits :
    (t : V5Target)
    → is_aligned t ≡ true
    → split_addr t.exception_ctx.program_counter (step_kind t) ≡ ok (word t, bytes_taken t)
unfolding split_addr
splits t h = elim (Bool-cases (thumb t.exception_ctx)) [
  | inl e ↦ ground (arith, e, h)
  | inr e ↦ ground (arith, e, h)
]

does_not_split :
    (t : V5Target)
    → is_aligned t ≡ false
    → (x : BreakpointError) × (split_addr t.exception_ctx.program_counter (step_kind t) ≡ err x)
unfolding split_addr
does_not_split t h = elim (Bool-cases (thumb t.exception_ctx)) [
  | inl e ↦ (not_aligned_correctly, ground (arith, e, h))
  | inr e ↦ (not_aligned_correctly, ground (arith, e, h))
]

by_alignment :
    (before t : V5Target) → IsEntered before t → (b : Bool) → is_aligned t ≡ b → Stepped t b
unfolding step resume request_single_step add_breakpoint_at
by_alignment before t entered false h =
    let (x, q) = does_not_split t h in rw entered.no_request (rw entered.unlocked (rw q refl))
by_alignment before t entered true h =
    let (t', e, r, a, req) =
      request_single_step_returns t (word t) (bytes_taken t) entered.ready entered.unlocked
        entered.not_pending entered.no_request (splits t h) in
    (
      resume t',
      rw e refl,
      record { valid = r.valid; reserved = r.reserved },
      a,
      refl,
      ground (arith, req),
    )

-- In a target that was entered, `step` panics if the program counter is no multiple of 4 in ARM state,
-- or of 2 in Thumb state. Otherwise it does not panic: the mismatch breakpoint is set on the word
-- that holds the program counter, on all four bytes in ARM state and on the two of the halfword in
-- Thumb state, the program is to be resumed with the scheduler held, and the target is still ready.
pub step_returns :
    (before t : V5Target)
    → IsEntered before t
    → Stepped t (t.exception_ctx.program_counter % (if thumb t.exception_ctx then 2 else 4) == 0)
step_returns before t entered = by_alignment before t entered (is_aligned t) refl
