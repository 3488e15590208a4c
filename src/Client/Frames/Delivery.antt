-- ===== src/Client/Frames/Delivery.antt =====
-- Reads of the client deliver what the frames hold (src/bin/v5gdb.rs of the client).
use v5gdb.Base.{
  ℕ, zero, suc, ◌+◌, ◌≤◌, ◌≡◌, ◌≢◌, refl, sym, ◌∙◌, ap, subst, inl, inr, some, List, [], ◌∷◌, ◌++◌,
  length, length-append, drop, take, arith,
}
use mathlib.Core.List.{append_assoc}
use v5gdb.Transport.Cobs.{Cobs, IsCobs, frame, more}
use v5gdb.Transport.Mux.{ChannelId, channel_byte}
use v5gdb.Transport.Mux.Frames.{flat}
use v5gdb.Client.{Outputs, handle_frame, decode, serve}
use v5gdb.Client.Frames.{
  append_to, handle_frame_lem, split_frame, drop-frame, Hold, Mid, Mid-reset, Read,
}

module _ (c : Cobs) (k : IsCobs c) where
  open c use {Encoder, finalize, Decoder, reset, feed}

  -- A frame that ends in these bytes.
  decode-frame :
      (rounds : ℕ) (d : Decoder) (o : Outputs) (b : ℕ) (bs q rest : List ℕ) (e : Encoder)
      (channel : ChannelId) (part : List ℕ)
      → b ∷ bs ≡ q ++ (0 ∷ rest)
      → k.pending d ++ q ≡ finalize e
      → k.content e ≡ channel_byte channel ∷ part
      → decode c (suc rounds) d o (b ∷ bs) ≡ decode c rounds reset (append_to o channel part) rest
  unfolding decode
  decode-frame rounds d o b bs q rest e channel part split at holds =
      let fed : feed d (b ∷ bs) ≡ frame (channel_byte channel ∷ part) (length q + 1) =
        ap (feed d) split ∙ k.feed_frame d e q rest at ∙ ap (λ l. frame l (length q + 1)) holds in
      rw (fed, decode)
        (ap
            (λ l.
              decode c rounds reset
                (handle_frame o (channel_byte channel ∷ part) (take (length q + 1) (b ∷ bs))) l)
            (ap (drop (length q + 1)) split ∙ drop-frame q rest)
          ∙ ap (λ u. decode c rounds reset u rest)
              (handle_frame_lem o channel part (take (length q + 1) (b ∷ bs))))

  -- Bytes inside a frame.
  decode-more :
      (rounds : ℕ) (d d' : Decoder) (o : Outputs) (b : ℕ) (bs : List ℕ)
      → feed d (b ∷ bs) ≡ more d'
      → decode c (suc rounds) d o (b ∷ bs) ≡ some (d', o)
  unfolding decode
  decode-more rounds d d' o b bs e = rw (e, decode) refl

  decode_reads :
      (rounds : ℕ) (d : Decoder) (o : Outputs) (bs later : List ℕ)
      (parts : List (ChannelId × List ℕ)) (es : List Encoder)
      → length bs ≤ rounds
      → Hold c k parts es
      → Mid c k d es (bs ++ later)
      → Read c k o parts later (decode c rounds d o bs)
  unfolding decode
  decode_reads rounds d o [] later parts es n h m = ((d, o), refl, parts, es, h, m, refl)
  decode_reads zero d o (b ∷ bs) later parts es n h m = absurd (omega arith)
  decode_reads (suc rounds) d o (b ∷ bs) later [] [] n h m = absurd (cc (m.1))
  decode_reads (suc rounds) d o (b ∷ bs) later [] (e ∷ es) n h m = elim h [ ]
  decode_reads (suc rounds) d o (b ∷ bs) later (x ∷ parts) [] n h m = elim h [ ]
  decode_reads (suc rounds) d o (b ∷ bs) later ((channel, part) ∷ parts) (e ∷ es) n h m =
      let (q, at, total) = m in
      elim (split_frame (b ∷ bs) later q (flat c k es) total) [
        | inl (rest, split, later_split) ↦
            let (y, f, parts', es', h', m', same) =
              decode_reads rounds reset (append_to o channel part) rest later parts es
                (omega (arith, ap length split, length-append q (0 ∷ rest))) h.1
                (subst (Mid c k reset es) (sym later_split) (Mid-reset c k es)) in
            (
              y,
              decode-frame rounds d o b bs q rest e channel part split at h.0 ∙ f,
              parts',
              es',
              h',
              m',
              same,
            )
        | inr (cs, whole, rest) ↦
            let (d', f, g) =
              k.feed_more d e (b ∷ bs) cs (ap (λ l. k.pending d ++ l) (sym whole) ∙ at) in
            (
              (d', o),
              decode-more rounds d d' o b bs f,
              (channel, part) ∷ parts,
              e ∷ es,
              h,
              (
                cs,
                ap (λ l. l ++ cs) g
                    ∙ append_assoc (k.pending d) (b ∷ bs) cs
                    ∙ ap (λ l. k.pending d ++ l) (sym whole)
                    ∙ at,
                rest,
              ),
              refl,
            )
      ]

  -- The bytes of all reads.
  abbrev pub concat : List (List ℕ) → List ℕ
  concat [] = []
  concat (chunk ∷ chunks) = chunk ++ concat chunks

  -- A bound on the length of every read.
  abbrev pub AllShort : ℕ → List (List ℕ) → Type 0
  AllShort n [] = Unit {0}
  AllShort n (chunk ∷ chunks) = (length chunk ≤ n) × AllShort n chunks

  pub serve_reads :
      (rounds : ℕ) (d : Decoder) (o : Outputs) (chunks : List (List ℕ))
      (parts : List (ChannelId × List ℕ)) (es : List Encoder)
      → AllShort rounds chunks
      → Hold c k parts es
      → Mid c k d es (concat chunks)
      → Read c k o parts [] (serve c rounds d o chunks)
  unfolding serve
  serve_reads rounds d o [] parts es s h m = ((d, o), refl, parts, es, h, m, refl)
  serve_reads rounds d o (chunk ∷ chunks) parts es s h m =
      let ((d', o'), f, parts', es', h', m', same) =
        decode_reads rounds d o chunk (concat chunks) parts es s.0 h m in
      let (y, f', parts'', es'', h'', m'', same') =
        serve_reads rounds d' o' chunks parts' es' s.1 h' m' in
      (y, rw f f', parts'', es'', h'', m'', same' ∙ same)

  -- At the end nothing is left.
  pub Mid-end : (d : Decoder) (es : List Encoder) → Mid c k d es [] → es ≡ []
  Mid-end d [] m = refl
  Mid-end d (e ∷ es) m = absurd (not_end m.0 (flat c k es) m.2)
    where
      not_end : (q zs : List ℕ) → [] ≢ q ++ (0 ∷ zs)
      not_end [] zs e' = cc
      not_end (x ∷ q) zs e' = cc

  pub Hold-nil : (parts : List (ChannelId × List ℕ)) → Hold c k parts [] → parts ≡ []
  Hold-nil [] h = refl
  Hold-nil (x ∷ parts) h = elim h [ ]
