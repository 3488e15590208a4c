-- ===== src/Target/MemoryMap/Pieces.antt =====
-- The pieces of the memory map give all of it.
use v5gdb.Base.{
  ℕ, zero, suc, ◌+◌, ◌-◌, ◌<◌, ◌≤◌, ◌≡◌, refl, sym, ◌∙◌, ap, Option, some, List, [], ◌∷◌, take,
  drop, length, length-take, length-drop, take-append-drop, min, arith,
}
use v5gdb.Target.MemoryMap.{memory_map_xml, append_rest, read_pieces}

drop-nil : (n : ℕ) → drop {A = ℕ} n [] ≡ []
drop-nil zero = refl
drop-nil (suc n) = refl

suc_add : (a b : ℕ) → suc (a + b) ≡ suc a + b
suc_add a b = omega arith

drop-drop : (a b : ℕ) (xs : List ℕ) → drop b (drop a xs) ≡ drop (a + b) xs
drop-drop zero b xs = ap (λ n. drop n xs) (omega arith)
drop-drop (suc a) b [] = drop-nil b ∙ sym (drop-nil (suc a + b))
drop-drop (suc a) b (x ∷ xs) = drop-drop a b xs ∙ ap (λ n. drop n (x ∷ xs)) (suc_add a b)

take-nil : (n : ℕ) → take {A = ℕ} n [] ≡ []
take-nil zero = refl
take-nil (suc n) = refl

append_rest_lem :
    (read : ℕ → Option (List ℕ)) (offset len : ℕ) (slice : List ℕ)
    → 0 < len
    → ((count : ℕ)
        → 0 < count
        → count ≤ length slice
        → read (offset + count) ≡ some (drop count slice))
    → append_rest read offset (take (min (length slice) len) slice) ≡ some slice
unfolding append_rest
append_rest_lem read offset len [] pos h = ap (append_rest read offset) (take-nil (min 0 len))
append_rest_lem read offset len (b ∷ bs) pos h =
    ap (λ n. append_rest read offset (take n (b ∷ bs))) (predecessor len bs pos)
    ∙ whole (min (length bs) (len - 1)) (omega arith)
  where
    predecessor :
        (len : ℕ) (bs : List ℕ)
        → 0 < len
        → min (length (b ∷ bs)) len ≡ suc (min (length bs) (len - 1))
    predecessor len bs pos = omega (arith, pos)

    whole : (k : ℕ) → k ≤ length bs → append_rest read offset (b ∷ take k bs) ≡ some (b ∷ bs)
    whole k le =
        let e : length (b ∷ take k bs) ≡ suc k = omega (arith, length-take k bs, le) in
        rw (e, h (suc k) (omega arith) (omega (arith, le)), take-append-drop k bs) refl

module _ (memory_map : List ℕ) (len buf_len : ℕ) (fits : len ≤ buf_len) where
  -- The piece at an offset within the map.
  piece :
      (offset : ℕ)
      → offset ≤ length memory_map
      → memory_map_xml memory_map offset len buf_len
        ≡ some (take (min (length (drop offset memory_map)) len) (drop offset memory_map))
  unfolding memory_map_xml
  piece offset h = ground (arith, h, fits)

  read_pieces_from :
      (rounds offset : ℕ)
      → 0 < len
      → offset ≤ length memory_map
      → length memory_map - offset < rounds
      → read_pieces memory_map rounds offset len buf_len ≡ some (drop offset memory_map)
  unfolding read_pieces
  read_pieces_from zero offset pos h lt = absurd (omega (arith, lt))
  read_pieces_from (suc rounds) offset pos h lt = rw (piece offset h) (
      append_rest_lem (λ next. read_pieces memory_map rounds next len buf_len) offset len
        (drop offset memory_map) pos
        (λ count pos' le.
          read_pieces_from rounds (offset + count) pos
            (omega (arith, h, le, length-drop offset memory_map))
            (omega (arith, h, le, lt, pos', length-drop offset memory_map))
          ∙ ap some (sym (drop-drop offset count memory_map))))

-- Pieces of any length, read one after the other until one is empty, give the whole of the map: at
-- most one round more than the map has bytes is needed. This supposes that the length asked for is
-- not zero and fits in the buffer.
pub read_pieces_returns :
    (memory_map : List ℕ) (len buf_len rounds : ℕ)
    → 0 < len
    → len ≤ buf_len
    → length memory_map < rounds
    → read_pieces memory_map rounds 0 len buf_len ≡ some memory_map
read_pieces_returns memory_map len buf_len rounds pos fits enough =
    read_pieces_from memory_map len buf_len fits rounds 0 pos (omega arith) (omega (arith, enough))
