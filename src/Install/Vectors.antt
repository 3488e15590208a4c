-- ===== src/Install/Vectors.antt =====
-- The exception vectors (`install_vectors` of src/exceptions/mod.rs and the register VBAR of
-- src/cpu/exception.rs). The stack of the abort mode and the mask of fast interrupts are set by
-- assembly, which has no counterpart. `none` is a panic.
pub mod Chain
use v5gdb.Base.{
  ℕ, zero, suc, ◌+◌, ◌*◌, ◌/◌, ◌%◌, Bool, true, false, Option, none, some, List, [], ◌∷◌, ◌>>=◌,
  ◌==◌, if◌then◌else◌,
}

-- The register, whether the original vectors are known, and their eight addresses.
pub record VectorState : Type 0 where
  pub vbar : ℕ
  pub original_vector_addresses_set : Bool
  pub original_vector_addresses : List ℕ

-- `VectorBaseAddressRegister::new`
unfoldable pub vbar_new : ℕ → Option ℕ
vbar_new addr = if addr % 32 == 0 then some addr else none

-- `VectorBaseAddressRegister::ptr`: bits 5..=31
abbrev pub vbar_ptr : ℕ → ℕ
vbar_ptr raw = raw / 32 % 134217728 * 32

-- The addresses of `count` vectors from number `i` on
abbrev pub vector_addresses : ℕ → ℕ → ℕ → List ℕ
vector_addresses base i zero = []
vector_addresses base i (suc count) = (base + i * 4) ∷ vector_addresses base (suc i) count

-- The part of `install_vectors` that is done once
unfoldable pub save_original : VectorState → VectorState
save_original v = if v.original_vector_addresses_set then v else record v {
  original_vector_addresses_set = true;
  original_vector_addresses = vector_addresses (vbar_ptr v.vbar) 0 8;
}

-- `install_vectors`, with the address of the debugger's vector table
unfoldable pub install_vectors : ℕ → VectorState → Option VectorState
unfolding save_original vbar_new
install_vectors table v = do vbar ← vbar_new table; some (record (save_original v) { vbar = vbar })
