-- ===== src/Target/Breaks/Find.antt =====
-- What the search of `register_sw_breakpoint` finds.
use v5gdb.Base.{
  ℕ, suc, ◌+◌, ◌≡◌, refl, inl, inr, Bool, Option, none, some, [], ◌∷◌, or_else, get_elem?,
  Bool-cases, ◌==◌, arith,
}
use v5gdb.Breakpoint.Software.{SwBreakpoint}
use v5gdb.Target.{Slots}
use v5gdb.Target.Breaks.{merged, vacant, search_slots, position}

-- Without a match no slot has the address.
pub search_slots-position :
    (addr : ℕ) (internal : Bool) (bs : Slots) (i : ℕ) (next o : Option ℕ)
    → search_slots addr internal bs i next ≡ vacant o
    → position addr bs i ≡ none
unfolding search_slots position
search_slots-position addr internal [] i next o h = refl
search_slots-position addr internal (none ∷ bs) i next o h =
    search_slots-position addr internal bs (suc i) (or_else next (some i)) o h
search_slots-position addr internal (some b ∷ bs) i next o h =
    ground (arith, search_slots-position addr internal bs (suc i) next o)

-- The first empty slot is kept.
search_slots_keeps :
    (addr : ℕ) (internal : Bool) (bs : Slots) (i k : ℕ) (o : Option ℕ)
    → search_slots addr internal bs i (some k) ≡ vacant o
    → o ≡ some k
unfolding search_slots
search_slots_keeps addr internal [] i k o h = ground arith
search_slots_keeps addr internal (none ∷ bs) i k o h =
    search_slots_keeps addr internal bs (suc i) k o h
search_slots_keeps addr internal (some b ∷ bs) i k o h =
    ground (arith, search_slots_keeps addr internal bs (suc i) k o)

-- The slot that the search gives is empty.
pub search_slots_vacant :
    (addr : ℕ) (internal : Bool) (bs : Slots) (i j : ℕ)
    → search_slots addr internal bs i none ≡ vacant (some j)
    → (k : ℕ) × (j ≡ i + k) × (get_elem? bs k ≡ some none)
unfolding search_slots
search_slots_vacant addr internal [] i j h = absurd (ground arith)
search_slots_vacant addr internal (none ∷ bs) i j h =
    (0, ground (arith, search_slots_keeps addr internal bs (suc i) i (some j)), refl)
search_slots_vacant addr internal (some b ∷ bs) i j h =
    let (k, e, g) = search_slots_vacant addr internal bs (suc i) j (ground arith) in
    (suc k, omega arith, g)

-- The breakpoint that the search merges differs from the one in its slot in the reason alone.
pub search_slots_merged :
    (addr : ℕ) (internal : Bool) (bs : Slots) (i : ℕ) (next : Option ℕ) (j : ℕ) (b' : SwBreakpoint)
    → search_slots addr internal bs i next ≡ merged j b'
    → (b : SwBreakpoint) × (k : ℕ) × (j ≡ i + k)
      × (get_elem? bs k ≡ some (some b))
      × (b'.enabled ≡ b.enabled)
      × (b'.instr_addr ≡ b.instr_addr)
      × (b'.instr_backup ≡ b.instr_backup)
unfolding search_slots
search_slots_merged addr internal [] i next j b' h = absurd (ground arith)
search_slots_merged addr internal (none ∷ bs) i next j b' h =
    let (b, k, e, g, x, y, z) =
      search_slots_merged addr internal bs (suc i) (or_else next (some i)) j b' h in
    (b, suc k, omega arith, g, x, y, z)
search_slots_merged addr internal (some b ∷ bs) i next j b' h =
    elim (Bool-cases (b.instr_addr == addr)) [
      | inl e ↦ (b, 0, ground arith, refl, ground arith, ground arith, ground arith)
      | inr e ↦
          let (d, k, f, g, x, y, z) =
            search_slots_merged addr internal bs (suc i) next j b' (ground arith) in
          (d, suc k, omega arith, g, x, y, z)
    ]
