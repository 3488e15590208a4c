-- ===== src/Transport/Foreign.antt =====
-- A transport that a C program gives (src/ffi/src/lib.rs of the repository's ffi, `TransportImpl`).
-- Its functions are arguments, on a state that stands for `data` and whatever they act on.
use v5gdb.Base.{ℕ, String, Option, none, some, List, [], ◌∷◌}

-- `ReadResult` and `PeekResult`; an error is a C string, by its bytes.
pub data ReadResult : Type 0 where
  read_ok : ℕ → ReadResult
  read_err : List ℕ → ReadResult

pub data PeekResult : Type 0 where
  peek_ok : ℕ → PeekResult
  peek_empty : PeekResult
  peek_err : List ℕ → PeekResult

-- `TransportImpl`; `none` of `write_buf` and of `flush_all` is a null pointer.
pub record TransportImpl : Type 1 where
  pub C : Type 0
  pub initialize : C → C
  pub write_buf : List ℕ → C → Option (List ℕ) × C
  pub flush_all : C → Option (List ℕ) × C
  pub peek_byte : C → PeekResult × C
  pub read_byte : C → ReadResult × C

-- A `Result` with a `TransportError`
pub data Transported (A : Type 0) : Type 0 where
  sent : A → Transported A
  transport_error : String → Transported A

-- `wrap_err`, on the decoding of UTF-8
abbrev pub wrap_err : (List ℕ → Option String) → List ℕ → String
wrap_err to_str error = elim (to_str error) [ some s ↦ s | none ↦ "<error with invalid utf8>" ]

module _ (to_str : List ℕ → Option String) (x : TransportImpl) where
  open x use {C}

  -- An error pointer, null on success
  abbrev checked_error : Option (List ℕ) → Transported (Unit {0})
  checked_error none = sent tt
  checked_error (some error) = transport_error (wrap_err to_str error)

  unfoldable pub write_all : List ℕ → C → Transported (Unit {0}) × C
  write_all buf c = let (error, c') = x.write_buf buf c in (checked_error error, c')

  unfoldable pub write : ℕ → C → Transported (Unit {0}) × C
  unfolding write_all
  write byte c = write_all (byte ∷ []) c

  unfoldable pub flush : C → Transported (Unit {0}) × C
  flush c = let (error, c') = x.flush_all c in (checked_error error, c')

  abbrev pub on_session_start : C → Transported (Unit {0}) × C
  on_session_start c = (sent tt, x.initialize c)

  unfoldable pub peek : C → Transported (Option ℕ) × C
  peek c = let (result, c') = x.peek_byte c in (peeked result, c')
    where
      peeked : PeekResult → Transported (Option ℕ)
      peeked (peek_ok byte) = sent (some byte)
      peeked peek_empty = sent none
      peeked (peek_err error) = transport_error (wrap_err to_str error)

  unfoldable pub read : C → Transported ℕ × C
  read c = let (result, c') = x.read_byte c in (of_read result, c')
    where
      of_read : ReadResult → Transported ℕ
      of_read (read_ok byte) = sent byte
      of_read (read_err error) = transport_error (wrap_err to_str error)

  -- `Transport::try_read`, as it is without an override
  unfoldable pub try_read : C → Transported (Option ℕ) × C
  unfolding peek read
  try_read c = let (peeked, c') = peek c in next peeked c'
    where
      got : Transported ℕ × C → Transported (Option ℕ) × C
      got (sent byte, c') = (sent (some byte), c')
      got (transport_error e, c') = (transport_error e, c')

      next : Transported (Option ℕ) → C → Transported (Option ℕ) × C
      next (transport_error e) c' = (transport_error e, c')
      next (sent none) c' = (sent none, c')
      next (sent (some _)) c' = got (read c')
