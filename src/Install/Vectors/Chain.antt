-- ===== src/Install/Vectors/Chain.antt =====
-- The debugger's vectors fall back on the program's own, not on themselves.
use v5gdb.Base.{
  ℕ, zero, suc, ◌+◌, ◌*◌, ◌%◌, ◌≡◌, ◌≢◌, ◌<◌, ◌≤◌, refl, sym, ◌∙◌, ap, subst, true, false, Option,
  some, List, [], ◌∷◌, ◌>>=◌, within, arith,
}
use v5gdb.Install.Vectors.{
  VectorState, vbar_new, vbar_ptr, vector_addresses, save_original, install_vectors,
}

-- The vectors are installed any number of times, each time from some table.
unfoldable pub install_again : ℕ → ℕ → VectorState → Option VectorState
unfolding install_vectors
install_again table zero v = some v
install_again table (suc n) v = do v' ← install_vectors table v; install_again table n v'

-- The table is in force, and the addresses are those of the vectors before the first time.
abbrev pub IsChained : ℕ → VectorState → VectorState → Type 0
IsChained table before v =
    (v.vbar ≡ table)
    × (v.original_vector_addresses_set ≡ true)
    × (v.original_vector_addresses ≡ vector_addresses (vbar_ptr before.vbar) 0 8)

aligned : (table : ℕ) → table % 32 ≡ 0 → vbar_new table ≡ some table
unfolding vbar_new
aligned table h = ground (arith, h)

pub installed :
    (table : ℕ) (v : VectorState)
    → table % 32 ≡ 0
    → install_vectors table v ≡ some (record (save_original v) { vbar = table })
unfolding install_vectors
installed table v h = rw (aligned table h) refl

kept :
    (table : ℕ) (before v : VectorState)
    → IsChained table before v
    → IsChained table before (record (save_original v) { vbar = table })
unfolding save_original
kept table before v (at, set, same) = (refl, ground (arith, set), ground (arith, set, same))

again :
    (table n : ℕ) (before v : VectorState)
    → table % 32 ≡ 0
    → IsChained table before v
    → (v' : VectorState) × (install_again table n v ≡ some v') × IsChained table before v'
unfolding install_again
again table zero before v h c = (v, refl, c)
again table (suc n) before v h c =
    let (v', e, c') =
      again table n before (record (save_original v) { vbar = table }) h (kept table before v c) in
    (v', ap (λ o. o >>= install_again table n) (installed table v h) ∙ e, c')

-- The state after the first time.
pub first_installed :
    (table : ℕ) (v : VectorState)
    → v.original_vector_addresses_set ≡ false
    → IsChained table v (record (save_original v) { vbar = table })
unfolding save_original
first_installed table v unset = (refl, ground (arith, unset), ground (arith, unset))

-- No address lies in the eight words of the table.
abbrev pub AllOutside : ℕ → List ℕ → Type 0
AllOutside table [] = Unit {0}
AllOutside table (a ∷ addresses) = (within table 32 a ≡ false) × AllOutside table addresses

-- Another aligned table shares no vector with it.
outside :
    (table base i : ℕ)
    → table % 32 ≡ 0
    → base % 32 ≡ 0
    → base ≢ table
    → i < 8
    → within table 32 (base + i * 4) ≡ false
outside table base i h g other n = ground (arith, h, g, other, n)

addresses_outside :
    (table base i count : ℕ)
    → table % 32 ≡ 0
    → base % 32 ≡ 0
    → base ≢ table
    → i + count ≤ 8
    → AllOutside table (vector_addresses base i count)
addresses_outside table base i zero h g other n = tt
addresses_outside table base i (suc count) h g other n = (
  outside table base i h g other (omega (arith, n)),
  addresses_outside table base (suc i) count h g other (omega (arith, n)),
)

-- If the debugger's vector table is aligned to 32 bytes, the original vectors are not known yet and
-- the table in force is not the debugger's own, `install_vectors` succeeds once and as often as it
-- is repeated. The debugger's table is then in force, and the addresses that exceptions go on to are
-- the eight vectors that were in force before the first time, none of which lies in the debugger's
-- own table.
pub install_again_chains :
    (table n : ℕ) (v : VectorState)
    → table % 32 ≡ 0
    → v.original_vector_addresses_set ≡ false
    → vbar_ptr v.vbar ≢ table
    → (v' : VectorState) × (install_again table (suc n) v ≡ some v')
      × IsChained table v v'
      × AllOutside table v'.original_vector_addresses
unfolding install_again
install_again_chains table n v h unset other =
    let (v', e, c) =
      again table n v (record (save_original v) { vbar = table }) h
        (first_installed table v unset) in
    (
      v',
      ap (λ o. o >>= install_again table n) (installed table v h) ∙ e,
      c,
      subst (AllOutside table) (sym c.2)
          (addresses_outside table (vbar_ptr v.vbar) 0 8 h (omega arith) other (omega arith)),
    )
