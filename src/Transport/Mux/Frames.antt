-- ===== src/Transport/Mux/Frames.antt =====
-- What the frames on the serial port carry (src/transport/mux.rs, `write_all`).
use v5gdb.Base.{
  ℕ, zero, suc, ◌+◌, ◌≤◌, ◌<◌, ◌≡◌, refl, sym, ◌∙◌, ap, some, List, [], ◌∷◌, ◌++◌, length,
  length-append, arith,
}
use mathlib.Core.List.{append_assoc, append-nil}
use v5gdb.Transport.Cobs.{Cobs, IsCobs}
use v5gdb.Transport.Serial.{SysSerial}
use v5gdb.Transport.Serial.Sent.{Drains, write_all_sends}
use v5gdb.Transport.Mux.{ChannelId, channel_byte, fill, packet, send, write_all}

module _ (c : Cobs) (k : IsCobs c) where
  open c use {Encoder, push, finalize}

  -- The frames, each with its delimiter.
  abbrev pub flat : List Encoder → List ℕ
  flat [] = []
  flat (e ∷ es) = finalize e ++ (0 ∷ flat es)

  -- The frames hold the channel's byte and parts that make up the bytes.
  abbrev pub Carry : ChannelId → List ℕ → List Encoder → Type 0
  Carry channel bytes [] = bytes ≡ []
  Carry channel bytes (e ∷ es) =
      (part rest : List ℕ) × (k.content e ≡ channel_byte channel ∷ part)
      × (part ++ rest ≡ bytes)
      × Carry channel rest es

  -- Filling takes all bytes that fit, in the longest encoding.
  fill_lem :
      (e : Encoder) (bs : List ℕ)
      → length (k.content e) + length bs ≤ 2037
      → k.capacity e ≡ 2047
      → (e' : Encoder) × (fill c e bs ≡ (e', [])) × (k.content e' ≡ k.content e ++ bs)
  unfolding fill
  fill_lem e [] h room = (e, refl, sym (append-nil (k.content e)))
  fill_lem e (b ∷ bs) h room =
      let (e1, f) = k.push_fits e b (omega (arith, h, room)) in
      let c1 = k.content_push e e1 b f in
      let (e', g, d) =
        fill_lem e1 bs (omega (arith, h, ap length c1, length-append (k.content e) (b ∷ [])))
          (k.capacity_push e e1 b f ∙ room) in
      (
        e',
        rw (ap (λ x. x.0) f, ap (λ x. x.1) f, fill) g,
        d ∙ ap (λ l. l ++ bs) c1 ∙ append_assoc (k.content e) (b ∷ []) bs,
      )

  packet_returns :
      (channel : ChannelId) (bytes : List ℕ)
      → length bytes ≤ 2036
      → (e : Encoder) × (packet c channel bytes ≡ some (finalize e ++ (0 ∷ []), []))
        × (k.content e ≡ channel_byte channel ∷ bytes)
        × (length (finalize e) ≤ 2047)
  unfolding packet
  packet_returns channel bytes h =
      let b = channel_byte channel in
      let (e1, f1) =
        k.push_fits (c.new 2047) b
          (omega (arith, k.capacity_new 2047, ap length (k.content_new 2047))) in
      let c1 : k.content e1 ≡ b ∷ [] =
        k.content_push (c.new 2047) e1 b f1 ∙ ap (λ l. l ++ (b ∷ [])) (k.content_new 2047) in
      let (e, f, g) =
        fill_lem e1 bytes (omega (arith, h, ap length c1))
          (k.capacity_push (c.new 2047) e1 b f1 ∙ k.capacity_new 2047) in
      let whole : k.content e ≡ b ∷ bytes = g ∙ ap (λ l. l ++ bytes) c1 in
      (e, rw f1 (rw f refl), whole, omega (arith, h, k.max_encoding_length e, ap length whole))

  module _ (y : SysSerial) (v : Drains y) where
    send_returns :
        (rounds : ℕ) (bytes : List ℕ) (p : y.Port)
        → length bytes + 1 < rounds
        → (p' : y.Port) × (send c y rounds bytes p ≡ some p') × (v.sent p' ≡ v.sent p ++ bytes)
    unfolding send
    send_returns rounds bytes p h =
        let (p', f, g) = write_all_sends y v rounds bytes p h in (p', rw (f, send) refl, g)

    -- `write_all` of at most 2036 bytes, in 2050 rounds, does not panic, and what it sends, after all
    -- that was sent before, is a frame with its delimiter that holds the channel's byte and the
    -- bytes, or nothing if there are none. This supposes that the COBS encoder takes bytes while
    -- their longest encoding fits and the system sends what it has room for.
    pub write_all_frames :
        (packets rounds : ℕ) (channel : ChannelId) (bytes : List ℕ) (p : y.Port)
        → length bytes ≤ 2036
        → 2050 ≤ rounds
        → (p' : y.Port) × (es : List Encoder) × (write_all c y (suc packets) rounds channel bytes p
            ≡ some p')
          × (v.sent p' ≡ v.sent p ++ flat es)
          × Carry channel bytes es
    unfolding write_all
    write_all_frames packets rounds channel [] p h r =
        (p, [], refl, sym (append-nil (v.sent p)), refl)
    write_all_frames packets rounds channel (b ∷ bs) p h r =
        let (e, f, cont, fits) = packet_returns channel (b ∷ bs) h in
        let (p1, f1, g1) =
          send_returns rounds (finalize e ++ (0 ∷ [])) p
            (omega (arith, length-append (finalize e) (0 ∷ []))) in
        (
          p1,
          e ∷ [],
          rw f (rw f1 (written packets rounds channel p1)),
          g1,
          (b ∷ bs, [], cont, append-nil (b ∷ bs), refl),
        )
      where
        written :
            (packets rounds : ℕ) (channel : ChannelId) (p : y.Port)
            → write_all c y packets rounds channel [] p ≡ some p
        written zero rounds channel p = refl
        written (suc packets) rounds channel p = refl
