-- ===== src/Target/MemoryMap.antt =====
-- The memory map that GDB reads in pieces (src/gdb_target/mod.rs, `memory_map_xml`); its bytes, those
-- of src/gdb_target/arch/memory_map.xml, are an argument. `none` is a panic.
pub mod Pieces
use v5gdb.Base.{
  ℕ, zero, suc, ◌+◌, Option, none, some, List, [], ◌∷◌, ◌++◌, ◌>>=◌, take, drop, length, min, ltb,
  leb, if◌then◌else◌,
}

-- The piece of at most `len` bytes at an offset, copied to a buffer of `buf_len` bytes.
unfoldable pub memory_map_xml : List ℕ → ℕ → ℕ → ℕ → Option (List ℕ)
memory_map_xml memory_map offset len buf_len =
    if ltb (length memory_map) offset
    then some []
    else (let slice = drop offset memory_map in
        let count = min (length slice) len in
        if leb count buf_len then some (take count slice) else none)

-- A piece, and what is read from its end on unless it is empty.
unfoldable pub append_rest : (ℕ → Option (List ℕ)) → ℕ → List ℕ → Option (List ℕ)
append_rest read offset [] = some []
append_rest read offset (b ∷ bs) = do
  rest ← read (offset + length (b ∷ bs))
  some ((b ∷ bs) ++ rest)

-- A reader of all of the map: it asks for pieces until one is empty; `none` also when the rounds end before that.
unfoldable pub read_pieces : List ℕ → ℕ → ℕ → ℕ → ℕ → Option (List ℕ)
unfolding memory_map_xml append_rest
read_pieces memory_map zero offset len buf_len = none
read_pieces memory_map (suc rounds) offset len buf_len = do
  piece ← memory_map_xml memory_map offset len buf_len
  append_rest (λ next. read_pieces memory_map rounds next len buf_len) offset piece
