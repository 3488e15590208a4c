-- ===== src/Target/Breaks/Register.antt =====
-- Registering a breakpoint leaves the program's memory as it is under the breakpoints.
pub mod Read
pub mod Soundness
mod Place
mod Reason
use v5gdb.Base.{
  ◌%◌, ◌==◌, ◌≢◌, ℕ, zero, suc, ◌+◌, ◌-◌, ◌≤◌, ◌<◌, ◌≡◌, refl, sym, ◌∙◌, ap, subst, ◌⊎◌, inl, inr,
  Bool, true, false, not, ◌&&◌, Option, none, some, List, [], ◌∷◌, ◌>>=◌, some_inj, or_else, get_or,
  get_elem?, set, within, Memory, load, get_or-load, to_le_bytes-load, Bool-cases, Option-cases,
  same, ltb, leb, ◌==◌, if◌then◌else◌, arith,
}
use v5gdb.Cpu.Instruction.{
  Instruction, arm, thumb16, thumb32, bytes, size, read, thumb_at, read_halfword, read_word,
  is_thumb32,
}
use v5gdb.Cpu.Cache.{Machine, sync_instruction}
use v5gdb.Breakpoint.{Result, ok, err}
use v5gdb.Breakpoint.Software.{SwBreakpoint, bkpt_instr, new, set_enabled, cache_target}
use v5gdb.Target.{V5Target, Slots}
use v5gdb.Target.Breaks.{
  Search, merged, duplicate, vacant, search_slots, activate, place_at, register_sw_breakpoint,
  register_found, position,
}
use v5gdb.Target.Breaks.Find.{search_slots-position, search_slots_vacant, search_slots_merged}
use v5gdb.Target.Breaks.View.{
  covers, byte, view, IsApart, Clear, Apart, Held, view_local, view-Clear, Held-Clear,
}
use v5gdb.Target.Breaks.Toggle.{set_enabled_fields, set_enabled_outside}
use v5gdb.Target.Breaks.Register.Read.{IsBytes, read-bytes, new-byte, new_fields}
use v5gdb.Target.Breaks.Register.Soundness.{Sound, Keeps}
use v5gdb.Target.Breaks.Register.Place.{placed, fresh, after}
use v5gdb.Target.Breaks.Register.Reason.{
  view-reason, Clear-reason, Clear-alike, Apart-reason, Held-reason,
}

-- What holds of every result that a call may return.
abbrev Always :
    (Result (Unit {0}) × V5Target × Machine → Type 0)
    → Option (Result (Unit {0}) × V5Target × Machine)
    → Type 0
Always P none = Unit {0}
Always P (some x) = P x

Always_some :
    (P : Result (Unit {0}) × V5Target × Machine → Type 0)
    (o : Option (Result (Unit {0}) × V5Target × Machine))
    (x : Result (Unit {0}) × V5Target × Machine)
    → Always P o
    → o ≡ some x
    → P x
Always_some P none x h e = absurd (cc)
Always_some P (some y) x h e = subst P (some_inj e) h

-- The slots and the memory of a result keep what the program sees.
abbrev KeepsResult : V5Target → Machine → Result (Unit {0}) × V5Target × Machine → Type 0
KeepsResult t s x = Keeps t.breaks s.mem x.1.breaks x.2.mem

module _ (addr : ℕ) (thumb internal : Bool) (t : V5Target) (s : Machine)
    (sound : Sound t.breaks s.mem) (in_bytes : IsBytes s.mem)
    (fits : position addr t.breaks 0 ≡ none
      → (b : SwBreakpoint) → new s addr thumb internal ≡ some b
      → Clear b t.breaks) where
  unchanged : Keeps t.breaks s.mem t.breaks s.mem
  unchanged = record { sound = sound; same_view = λ a. refl }

  place_at_keeps :
      (j : ℕ)
      → position addr t.breaks 0 ≡ none
      → get_elem? t.breaks j ≡ some none
      → Always (KeepsResult t s) (place_at addr thumb internal j t s)
  unfolding place_at fresh after
  place_at_keeps j p e = elim (Option-cases (new s addr thumb internal)) [
    | inl f ↦ rw f tt
    | inr (b, f) ↦ rw f (
        placed t.breaks s t.breaks_paused b j sound e (new_fields s addr thumb internal b f).0
          (fits p b f) (λ a cov. new-byte s addr thumb internal b a in_bytes f cov))
  ]

  merged_keeps :
      (j : ℕ) (b' : SwBreakpoint)
      → search_slots addr internal t.breaks 0 none ≡ merged j b'
      → Keeps t.breaks s.mem (set t.breaks j (some b')) s.mem
  merged_keeps j b' h =
      let (b, k, e, at, on, same_addr, same_backup) =
        search_slots_merged addr internal t.breaks 0 none j b' h in
      let here : get_elem? t.breaks j ≡ some (some b) =
        subst (λ i. get_elem? t.breaks i ≡ some (some b)) (omega arith) at in
      record {
        sound = record {
          apart = Apart-reason b b' on same_addr same_backup t.breaks j here sound.apart;
          held = Held-reason b b' on same_addr same_backup t.breaks j s.mem here sound.held;
        };
        same_view = λ a. view-reason b b' on same_addr same_backup t.breaks j s.mem a here;
      }

  found_keeps :
      (q : Search)
      → search_slots addr internal t.breaks 0 none ≡ q
      → Always (KeepsResult t s) (register_found addr thumb internal t s q)
  unfolding register_found
  found_keeps (merged j b) h = merged_keeps j b h
  found_keeps duplicate h = unchanged
  found_keeps (vacant none) h = unchanged
  found_keeps (vacant (some j)) h =
      let (k, e, at) = search_slots_vacant addr internal t.breaks 0 j h in
      place_at_keeps j (search_slots-position addr internal t.breaks 0 none (some j) h)
        (subst (λ i. get_elem? t.breaks i ≡ some none) (omega arith) at)

  register_keeps : Always (KeepsResult t s) (register_sw_breakpoint addr thumb internal t s)
  unfolding register_sw_breakpoint
  register_keeps = elim (Bool-cases (ltb addr 0x03000000)) [
    | inl e ↦ rw e unchanged
    | inr e ↦ rw e (found_keeps (search_slots addr internal t.breaks 0 none) refl)
  ]

-- Instructions of the kind lie at the address.
abbrev pub aligned : ℕ → Bool → Bool
aligned addr thumb = if thumb then addr % 2 == 0 else addr % 4 == 0

pub new_returns :
    (s : Machine) (addr : ℕ) (thumb internal : Bool)
    → aligned addr thumb ≡ true
    → ltb addr 0x03000000 ≡ false
    → new s addr thumb internal ≢ none
unfolding new read
new_returns s addr thumb internal h k e = ground (arith, h, k, e)

register_returns :
    (addr : ℕ) (thumb internal : Bool) (t : V5Target) (s : Machine)
    → aligned addr thumb ≡ true
    → register_sw_breakpoint addr thumb internal t s ≢ none
unfolding register_sw_breakpoint register_found place_at
register_returns addr thumb internal t s h e =
    ground (arith, e, new_returns s addr thumb internal h)

-- At an address aligned for the instruction set `register_sw_breakpoint` does not panic. Whatever it
-- returns, no two tracked instructions overlap afterwards, disabled ones are in memory, and the
-- program's memory under the breakpoints is the same at every address. This supposes that it was so
-- before, that memory holds bytes, and that a breakpoint at an address not yet tracked shares no
-- byte with a tracked one.
pub register_sw_breakpoint_keeps :
    (addr : ℕ) (thumb internal : Bool) (t : V5Target) (s : Machine)
    → aligned addr thumb ≡ true
    → Sound t.breaks s.mem
    → IsBytes s.mem
    → (position addr t.breaks 0 ≡ none
        → (b : SwBreakpoint) → new s addr thumb internal ≡ some b
        → Clear b t.breaks)
    → (x : Result (Unit {0}) × V5Target × Machine) × (register_sw_breakpoint addr thumb internal t s
        ≡ some x)
      × Sound x.1.breaks x.2.mem
      × ((a : ℕ) → view x.1.breaks x.2.mem a ≡ view t.breaks s.mem a)
register_sw_breakpoint_keeps addr thumb internal t s h sound in_bytes fits =
    elim (Option-cases (register_sw_breakpoint addr thumb internal t s)) [
      | inl e ↦ absurd (register_returns addr thumb internal t s h e)
      | inr (x, e) ↦
          let k =
            Always_some (KeepsResult t s) (register_sw_breakpoint addr thumb internal t s) x
              (register_keeps addr thumb internal t s sound in_bytes fits) e in
          (x, e, k.sound, k.same_view)
    ]
