-- ===== src/Client/Frames/Arrival.antt =====
-- From the debugger's writes to the client's outputs (src/transport/mux.rs and the client's
-- src/bin/v5gdb.rs).
use v5gdb.Base.{
  ℕ, ◌≤◌, ◌≡◌, refl, sym, ◌∙◌, ap, subst, Option, some, List, [], ◌∷◌, ◌++◌, ◌>>=◌, length, suc,
}
use mathlib.Core.List.{append_assoc, append-nil}
use v5gdb.Transport.Cobs.{Cobs, IsCobs}
use v5gdb.Transport.Serial.{SysSerial}
use v5gdb.Transport.Serial.Sent.{Drains}
use v5gdb.Transport.Mux.{ChannelId, user, debug, write_all}
use v5gdb.Transport.Mux.Frames.{flat, Carry, write_all_frames}
use v5gdb.Client.{Outputs, serve}
use v5gdb.Client.Frames.{append_to, deliver, Hold, Mid-reset, Mid}
use v5gdb.Client.Frames.Delivery.{concat, AllShort, serve_reads, Mid-end, Hold-nil}

append_to_nil : (o : Outputs) (channel : ChannelId) → append_to o channel [] ≡ o
append_to_nil o user = ap (λ l. record o { user_out = l }) (append-nil o.user_out)
append_to_nil o debug = ap (λ l. record o { debug_out = l }) (append-nil o.debug_out)

append_to_twice :
    (o : Outputs) (channel : ChannelId) (xs ys : List ℕ)
    → append_to (append_to o channel xs) channel ys ≡ append_to o channel (xs ++ ys)
append_to_twice o user xs ys = ap (λ l. record o { user_out = l }) (append_assoc o.user_out xs ys)
append_to_twice o debug xs ys =
    ap (λ l. record o { debug_out = l }) (append_assoc o.debug_out xs ys)

deliver-append :
    (o : Outputs) (xs ys : List (ChannelId × List ℕ))
    → deliver o (xs ++ ys) ≡ deliver (deliver o xs) ys
deliver-append o [] ys = refl
deliver-append o ((channel, bytes) ∷ xs) ys = deliver-append (append_to o channel bytes) xs ys

module _ (c : Cobs) (k : IsCobs c) where
  open c use {Encoder, finalize}

  Carry-parts :
      (channel : ChannelId) (bytes : List ℕ) (es : List Encoder)
      → Carry c k channel bytes es
      → (parts : List (ChannelId × List ℕ)) × Hold c k parts es
        × ((o : Outputs) → deliver o parts ≡ append_to o channel bytes)
  Carry-parts channel bytes [] h =
      ([], tt, λ o. sym (append_to_nil o channel) ∙ ap (append_to o channel) (sym h))
  Carry-parts channel bytes (e ∷ es) (part, rest, holds, whole, carried) =
      let (parts, h, d) = Carry-parts channel rest es carried in
      (
        (channel, part) ∷ parts,
        (holds, h),
        λ o.
            d (append_to o channel part)
            ∙ append_to_twice o channel part rest
            ∙ ap (append_to o channel) whole,
      )

  flat-append : (es fs : List Encoder) → flat c k (es ++ fs) ≡ flat c k es ++ flat c k fs
  flat-append [] fs = refl
  flat-append (e ∷ es) fs =
      ap (λ l. finalize e ++ (0 ∷ l)) (flat-append es fs)
      ∙ sym (append_assoc (finalize e) (0 ∷ flat c k es) (flat c k fs))

  Hold-append :
      (xs ys : List (ChannelId × List ℕ)) (es fs : List Encoder)
      → Hold c k xs es
      → Hold c k ys fs
      → Hold c k (xs ++ ys) (es ++ fs)
  Hold-append [] ys [] fs h g = g
  Hold-append [] ys (e ∷ es) fs h g = elim h [ ]
  Hold-append (x ∷ xs) ys [] fs h g = elim h [ ]
  Hold-append ((channel, part) ∷ xs) ys (e ∷ es) fs h g = (h.0, Hold-append xs ys es fs h.1 g)

  module _ (y : SysSerial) (v : Drains y) (packets rounds : ℕ) where
    -- The messages, each by one `write_all`.
    abbrev pub write_messages : List (ChannelId × List ℕ) → y.Port → Option y.Port
    write_messages [] p = some p
    write_messages ((channel, bytes) ∷ ms) p =
        write_all c y (suc packets) rounds channel bytes p >>= write_messages ms

    -- Each message fits into one packet.
    abbrev pub AllFit : List (ChannelId × List ℕ) → Type 0
    AllFit [] = Unit {0}
    AllFit ((channel, bytes) ∷ ms) = (length bytes ≤ 2036) × AllFit ms

    write_messages_frames :
        (ms : List (ChannelId × List ℕ)) (p : y.Port)
        → AllFit ms
        → 2050 ≤ rounds
        → (p' : y.Port) × (parts : List (ChannelId × List ℕ)) × (es : List Encoder)
          × (write_messages ms p ≡ some p')
          × (v.sent p' ≡ v.sent p ++ flat c k es)
          × Hold c k parts es
          × ((o : Outputs) → deliver o parts ≡ deliver o ms)
    write_messages_frames [] p s r = (p, [], [], refl, sym (append-nil (v.sent p)), tt, λ o. refl)
    write_messages_frames ((channel, bytes) ∷ ms) p s r =
        let (p1, es1, f1, g1, carried) =
          write_all_frames c k y v packets rounds channel bytes p s.0 r in
        let (xs, h1, d1) = Carry-parts channel bytes es1 carried in
        let (p2, ys, es2, f2, g2, h2, d2) = write_messages_frames ms p1 s.1 r in
        (
          p2,
          xs ++ ys,
          es1 ++ es2,
          rw f1 f2,
          g2
              ∙ ap (λ l. l ++ flat c k es2) g1
              ∙ append_assoc (v.sent p) (flat c k es1) (flat c k es2)
              ∙ ap (λ l. v.sent p ++ l) (sym (flat-append es1 es2)),
          Hold-append xs ys es1 es2 h1 h2,
          λ o.
              deliver-append o xs ys
              ∙ ap (λ u. deliver u ys) (d1 o)
              ∙ d2 (append_to o channel bytes),
        )

    -- What the program and the debugger write, message by message, on the two channels of one serial
    -- port arrives at the client: however the bytes are split into reads, the user's output grows by
    -- the bytes of the user's messages, and the debugger's by those of the debugger's, each in
    -- order and nothing else. No write panics. This supposes messages of at most 2036 bytes, which
    -- fit into one packet, 2050 rounds for a packet, a round for each byte of a read, that nothing
    -- was sent before, that the COBS encoder takes bytes while their longest encoding fits and the
    -- decoder gives back what was coded, and that the system sends what it has room for.
    pub serve-write_messages :
        (ms : List (ChannelId × List ℕ)) (p : y.Port)
        → AllFit ms
        → 2050 ≤ rounds
        → v.sent p ≡ []
        → (p' : y.Port) × (write_messages ms p ≡ some p')
          × ((reads : ℕ) (chunks : List (List ℕ)) (o : Outputs)
              → AllShort c k reads chunks
              → concat c k chunks ≡ v.sent p'
              → (d : c.Decoder) × (serve c reads c.reset o chunks ≡ some (d, deliver o ms)))
    serve-write_messages ms p s r fresh =
        let (p', parts, es, f, g, h, d) = write_messages_frames ms p s r in
        (
          p',
          f,
          λ reads chunks o short all.
              let total : concat c k chunks ≡ flat c k es =
                all ∙ g ∙ ap (λ l. l ++ flat c k es) fresh in
              let ((d', o'), q, parts', es', h', m', same) =
                serve_reads c k reads c.reset o chunks parts es short h
                  (subst (Mid c k c.reset es) (sym total) (Mid-reset c k es)) in
              let left : parts' ≡ [] =
                Hold-nil c k parts' (subst (Hold c k parts') (Mid-end c k d' es' m') h') in
              (d', q ∙ ap (λ u. some (d', u)) (sym (ap (deliver o') left) ∙ same ∙ d o)),
        )
