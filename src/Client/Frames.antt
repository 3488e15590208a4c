-- ===== src/Client/Frames.antt =====
-- What the debugger writes on a channel arrives there (src/transport/mux.rs and the client's
-- src/bin/v5gdb.rs).
pub mod Delivery
pub mod Arrival
use v5gdb.Base.{
  ℕ, zero, suc, ◌+◌, ◌≤◌, ◌≡◌, refl, sym, ◌∙◌, ap, subst, ◌⊎◌, inl, inr, true, Option, none, some,
  List, [], ◌∷◌, ◌++◌, length, length-append, drop, take, arith,
}
use mathlib.Core.List.{append_assoc, append-nil}
use v5gdb.Transport.Cobs.{Cobs, IsCobs, frame, more}
use v5gdb.Transport.Mux.{ChannelId, user, debug, channel_byte}
use v5gdb.Transport.Mux.Frames.{flat}
use v5gdb.Client.{Outputs, handle_packet, handle_frame, decode}

-- Bytes on a channel.
abbrev pub append_to : Outputs → ChannelId → List ℕ → Outputs
append_to o user bytes = record o { user_out = o.user_out ++ bytes }
append_to o debug bytes = record o { debug_out = o.debug_out ++ bytes }

abbrev pub deliver : Outputs → List (ChannelId × List ℕ) → Outputs
deliver o [] = o
deliver o ((channel, bytes) ∷ parts) = deliver (append_to o channel bytes) parts

pub handle_frame_lem :
    (o : Outputs) (channel : ChannelId) (part raw : List ℕ)
    → handle_frame o (channel_byte channel ∷ part) raw ≡ append_to o channel part
unfolding handle_frame
handle_frame_lem o user part raw = refl
handle_frame_lem o debug part raw = refl

-- Where the end of a frame lies: in the first bytes, or in the later ones.
pub split_frame :
    (xs later q zs : List ℕ)
    → xs ++ later ≡ q ++ (0 ∷ zs)
    → ((bs : List ℕ) × (xs ≡ q ++ (0 ∷ bs)) × (bs ++ later ≡ zs))
      ⊎ ((cs : List ℕ) × (q ≡ xs ++ cs) × (later ≡ cs ++ (0 ∷ zs)))
split_frame [] later q zs e = inr (q, refl, e)
split_frame (x ∷ xs) later [] zs e = inl (xs, cc, cc)
split_frame (x ∷ xs) later (b ∷ q) zs e = elim (split_frame xs later q zs (cc)) [
  | inl (bs, f, g) ↦ inl (bs, cc, g)
  | inr (cs, f, g) ↦ inr (cs, cc, g)
]

pub drop-frame : (q bs : List ℕ) → drop (length q + 1) (q ++ (0 ∷ bs)) ≡ bs
drop-frame [] bs = refl
drop-frame (x ∷ q) bs = ground (arith, drop-frame q bs)

module _ (c : Cobs) (k : IsCobs c) where
  open c use {Encoder, finalize, Decoder, reset}

  -- The frames hold these parts.
  abbrev pub Hold : List (ChannelId × List ℕ) → List Encoder → Type 0
  Hold [] [] = Unit {0}
  Hold ((channel, part) ∷ parts) (e ∷ es) =
      (k.content e ≡ channel_byte channel ∷ part) × Hold parts es
  Hold _ _ = ⊥

  -- The decoder has seen a beginning of the first frame, and these bytes are to come.
  abbrev pub Mid : Decoder → List Encoder → List ℕ → Type 0
  Mid d [] rest = (k.pending d ≡ []) × (rest ≡ [])
  Mid d (e ∷ es) rest =
      (q : List ℕ) × (k.pending d ++ q ≡ finalize e) × (rest ≡ q ++ (0 ∷ flat c k es))

  pub Mid-reset : (es : List Encoder) → Mid reset es (flat c k es)
  Mid-reset [] = (k.pending_reset, refl)
  Mid-reset (e ∷ es) = (finalize e, ap (λ l. l ++ finalize e) k.pending_reset, refl)

  -- How a read leaves the client, with the bytes that come later.
  abbrev pub Read :
      Outputs → List (ChannelId × List ℕ) → List ℕ → Option (Decoder × Outputs) → Type 0
  Read o parts later r =
      (x : Decoder × Outputs) × (r ≡ some x)
      × (parts' : List (ChannelId × List ℕ)) × (es' : List Encoder) × Hold parts' es'
      × Mid x.0 es' later
      × (deliver x.1 parts' ≡ deliver o parts)
