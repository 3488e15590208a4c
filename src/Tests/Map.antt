-- ===== src/Tests/Map.antt =====
-- The memory map in pieces at a concrete input.
use v5gdb.Base.{◌≡◌, some, [], ◌∷◌, arith}
use v5gdb.Target.MemoryMap.{read_pieces}
use v5gdb.Target.MemoryMap.Pieces.{read_pieces_returns}

read_pieces_returns_example :
    read_pieces (60 ∷ 63 ∷ 120 ∷ 109 ∷ 108 ∷ []) 6 0 2 4 ≡ some (60 ∷ 63 ∷ 120 ∷ 109 ∷ 108 ∷ [])
read_pieces_returns_example =
    read_pieces_returns (60 ∷ 63 ∷ 120 ∷ 109 ∷ 108 ∷ []) 2 4 6 (omega arith) (omega arith)
      (omega arith)
