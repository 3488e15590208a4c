-- ===== src/Transport/Cobs.antt =====
-- What is used of COBS coding, which a library does: the encoder and the decoder, as their
-- documentation has them.
use v5gdb.Base.{ℕ, ◌+◌, ◌/◌, ◌≤◌, ◌≡◌, Bool, true, List, [], ◌∷◌, ◌++◌, length}

-- What the decoder says of bytes that are pushed: a frame with its content and the number of bytes
-- taken, that more are needed, or that they are not COBS.
pub data Pushed (D : Type 0) : Type 0 where
  frame : List ℕ → ℕ → Pushed D
  more : D → Pushed D
  invalid : Pushed D

pub record Cobs : Type 1 where
  pub Encoder : Type 0
  pub new : ℕ → Encoder
  pub push : Encoder → ℕ → Bool × Encoder
  pub finalize : Encoder → List ℕ
  pub Decoder : Type 0
  pub reset : Decoder
  pub feed : Decoder → List ℕ → Pushed Decoder

-- An encoder over a buffer takes a byte if the longest encoding that the library documents for that
-- many bytes, one more and one more for each 254, fits. What it holds after a byte that it did not
-- take is left open. A decoder that is fed an encoding and a zero in pieces gives back the content.
pub record IsCobs (c : Cobs) : Type 0 where
  pub content : c.Encoder → List ℕ
  pub capacity : c.Encoder → ℕ
  pub content_new : (n : ℕ) → content (c.new n) ≡ []
  pub capacity_new : (n : ℕ) → capacity (c.new n) ≡ n
  pub content_push :
      (e e' : c.Encoder) (b : ℕ) → c.push e b ≡ (true, e') → content e' ≡ content e ++ (b ∷ [])
  pub capacity_push :
      (e e' : c.Encoder) (b : ℕ) → c.push e b ≡ (true, e') → capacity e' ≡ capacity e
  pub push_fits :
      (e : c.Encoder) (b : ℕ)
      → length (content e) + 1 + (length (content e) + 1) / 254 + 1 ≤ capacity e
      → (e' : c.Encoder) × (c.push e b ≡ (true, e'))
  pub max_encoding_length :
      (e : c.Encoder) → length (c.finalize e) ≤ length (content e) + length (content e) / 254 + 1
  pub pending : c.Decoder → List ℕ
  pub pending_reset : pending c.reset ≡ []
  pub feed_frame :
      (d : c.Decoder) (e : c.Encoder) (bs rest : List ℕ)
      → pending d ++ bs ≡ c.finalize e
      → c.feed d (bs ++ (0 ∷ rest)) ≡ frame (content e) (length bs + 1)
  pub feed_more :
      (d : c.Decoder) (e : c.Encoder) (bs later : List ℕ)
      → pending d ++ (bs ++ later) ≡ c.finalize e
      → (d' : c.Decoder) × (c.feed d bs ≡ more d') × (pending d' ≡ pending d ++ bs)
