-- ===== src/Tests/Transport.antt =====
-- Messages to the client at concrete inputs, under a code that adds one to each byte, and a port
-- with room for three.
use v5gdb.Base.{
  ℕ, zero, suc, ◌+◌, ◌-◌, ◌/◌, ◌≤◌, ◌<◌, ◌≡◌, refl, sym, ◌∙◌, ap, subst, Bool, true, false, none,
  some, List, [], ◌∷◌, ◌++◌, map, length, take, min, leb, if◌then◌else◌, arith,
}
use mathlib.Core.List.{append_assoc, append-nil}
use v5gdb.Transport.Cobs.{Pushed, frame, more, Cobs, IsCobs}
use v5gdb.Transport.Serial.{SysSerial, done, write_all}
use v5gdb.Transport.Serial.Sent.{Drains, write_all_sends}
use v5gdb.Transport.Mux.{ChannelId, user, debug}
use v5gdb.Client.{Outputs, serve}
use v5gdb.Client.Frames.{deliver}
use v5gdb.Client.Frames.Delivery.{concat, AllShort}
use v5gdb.Client.Frames.Arrival.{write_messages, serve-write_messages}

abbrev shifted : List ℕ → List ℕ
shifted = map suc

-- A decoder: the bytes since the last zero, shifted back.
abbrev unshift : ℕ → ℕ
unshift b = b - 1

abbrev scan : List ℕ → List ℕ → ℕ → Pushed (List ℕ)
scan d [] n = more d
scan d (zero ∷ bs) n = frame (map unshift d) (n + 1)
scan d (suc b ∷ bs) n = scan (d ++ (suc b ∷ [])) bs (n + 1)

abbrev push_shifted : ℕ × List ℕ → ℕ → Bool × (ℕ × List ℕ)
push_shifted (room, l) b =
    if leb (length l + 1) room then (true, (room, l ++ (b ∷ []))) else (false, (0, 7 ∷ []))

abbrev pub shifting : Cobs
shifting = record {
  Encoder = ℕ × List ℕ;
  new = λ n. (n, []);
  push = push_shifted;
  finalize = λ e. shifted e.1;
  Decoder = List ℕ;
  reset = [];
  feed = λ d bs. scan d bs 0;
}

map-unshift : (l : List ℕ) → map unshift (shifted l) ≡ l
map-unshift [] = refl
map-unshift (x ∷ l) = ground (arith, map-unshift l)

length-shifted : (l : List ℕ) → length (shifted l) ≡ length l
length-shifted [] = refl
length-shifted (x ∷ l) = ap suc (length-shifted l)

-- No byte of an encoding is zero.
abbrev NonZero : List ℕ → Type 0
NonZero [] = Unit {0}
NonZero (b ∷ bs) = (0 < b) × NonZero bs

NonZero-shifted : (l : List ℕ) → NonZero (shifted l)
NonZero-shifted [] = tt
NonZero-shifted (x ∷ l) = (omega arith, NonZero-shifted l)

NonZero-right : (xs ys : List ℕ) → NonZero (xs ++ ys) → NonZero ys
NonZero-right [] ys h = h
NonZero-right (x ∷ xs) ys h = NonZero-right xs ys h.1

NonZero-left : (xs ys : List ℕ) → NonZero (xs ++ ys) → NonZero xs
NonZero-left [] ys h = tt
NonZero-left (x ∷ xs) ys h = (h.0, NonZero-left xs ys h.1)

scan-frame :
    (d bs rest : List ℕ) (n : ℕ)
    → NonZero bs
    → scan d (bs ++ (0 ∷ rest)) n ≡ frame (map unshift (d ++ bs)) (n + length bs + 1)
scan-frame d [] rest n h =
    ap (λ l. frame (map unshift l) (n + 1)) (sym (append-nil d))
    ∙ ap (frame (map unshift (d ++ []))) (omega arith)
scan-frame d (zero ∷ bs) rest n h = absurd (omega arith)
scan-frame d (suc b ∷ bs) rest n h =
    scan-frame (d ++ (suc b ∷ [])) bs rest (n + 1) h.1
    ∙ ap (λ l. frame (map unshift l) (n + 1 + length bs + 1)) (append_assoc d (suc b ∷ []) bs)
    ∙ ap (frame (map unshift (d ++ (suc b ∷ bs)))) (omega arith)

scan-more : (d bs : List ℕ) (n : ℕ) → NonZero bs → scan d bs n ≡ more (d ++ bs)
scan-more d [] n h = ap more (sym (append-nil d))
scan-more d (zero ∷ bs) n h = absurd (omega arith)
scan-more d (suc b ∷ bs) n h =
    scan-more (d ++ (suc b ∷ [])) bs (n + 1) h.1 ∙ ap more (append_assoc d (suc b ∷ []) bs)

abbrev room_for_three : SysSerial
room_for_three = record {
  Port = List ℕ;
  sys_write_char = λ channel b p. (1, p ++ (b ∷ []));
  sys_write_buf = λ channel bs p. (some (min 3 (length bs)), p ++ take (min 3 (length bs)) bs);
  sys_read = λ channel p. (none, p);
  sys_peek = λ channel p. none;
  sys_write_free = λ channel p. some 2048;
  tasks_run = λ p. p;
}

room_for_three-Drains : Drains room_for_three
room_for_three-Drains = record {
  sent = λ p. p;
  room = λ p. 3;
  takes = λ bs p. (refl, refl);
  tasks_sent = λ p. refl;
  tasks_room = λ p. omega arith;
}

push_some :
    (e e' : ℕ × List ℕ) (b : ℕ)
    → push_shifted e b ≡ (true, e')
    → (e'.1 ≡ e.1 ++ (b ∷ [])) × (e'.0 ≡ e.0) × (length e.1 + 1 ≤ e.0)
push_some (room, l) e' b h = (ground (arith, h), ground (arith, h), ground (arith, h))

push_fits :
    (e : ℕ × List ℕ) (b : ℕ)
    → length e.1 + 1 + (length e.1 + 1) / 254 + 1 ≤ e.0
    → (e' : ℕ × List ℕ) × (push_shifted e b ≡ (true, e'))
push_fits (room, l) b h = ((room, l ++ (b ∷ [])), ground (arith, h))

shifting-IsCobs : IsCobs shifting
shifting-IsCobs = record {
  content = λ e. e.1;
  capacity = λ e. e.0;
  content_new = λ n. refl;
  capacity_new = λ n. refl;
  content_push = λ e e' b h. (push_some e e' b h).0;
  capacity_push = λ e e' b h. (push_some e e' b h).1;
  push_fits = push_fits;
  max_encoding_length = λ e. omega (arith, length-shifted e.1);
  pending = λ d. d;
  pending_reset = refl;
  feed_frame = λ d e bs rest h. a_frame d e bs rest h;
  feed_more = λ d e bs later h. (d ++ bs, scan-more d bs 0 (middle d e bs later h), refl);
}
  where
    encoded :
        (d : List ℕ) (e : ℕ × List ℕ) (bs : List ℕ) → d ++ bs ≡ shifted e.1 → NonZero (d ++ bs)
    encoded d e bs h = subst NonZero (sym h) (NonZero-shifted e.1)

    a_frame :
        (d : List ℕ) (e : ℕ × List ℕ) (bs rest : List ℕ)
        → d ++ bs ≡ shifted e.1
        → scan d (bs ++ (0 ∷ rest)) 0 ≡ frame e.1 (length bs + 1)
    a_frame d e bs rest h =
        scan-frame d bs rest 0 (NonZero-right d bs (encoded d e bs h))
        ∙ ap (λ l. frame l (0 + length bs + 1)) (ap (map unshift) h ∙ map-unshift e.1)
        ∙ ap (frame e.1) (omega arith)

    middle :
        (d : List ℕ) (e : ℕ × List ℕ) (bs later : List ℕ)
        → d ++ (bs ++ later) ≡ shifted e.1
        → NonZero bs
    middle d e bs later h =
        NonZero-left bs later (NonZero-right d (bs ++ later) (encoded d e (bs ++ later) h))

abbrev messages : List (ChannelId × List ℕ)
messages = (user, 72 ∷ 105 ∷ []) ∷ (debug, 36 ∷ 0 ∷ []) ∷ (user, 33 ∷ []) ∷ []

serve-write_messages_example :
    (p' : List ℕ) × (write_messages shifting shifting-IsCobs room_for_three room_for_three-Drains 5
        2050 messages []
      ≡ some p')
    × ((reads : ℕ) (chunks : List (List ℕ)) (o : Outputs)
        → AllShort shifting shifting-IsCobs reads chunks
        → concat shifting shifting-IsCobs chunks ≡ p'
        → (d : List ℕ) × (serve shifting reads [] o chunks ≡ some (d, deliver o messages)))
unfolding room_for_three-Drains
serve-write_messages_example =
    serve-write_messages shifting shifting-IsCobs room_for_three room_for_three-Drains 5 2050
      messages [] (omega arith) (omega arith) refl

write_all_sends_example :
    (p' : List ℕ) × (write_all room_for_three 9 1 (1 ∷ 2 ∷ 3 ∷ 4 ∷ 5 ∷ []) (7 ∷ []) ≡ done p')
    × (p' ≡ 7 ∷ 1 ∷ 2 ∷ 3 ∷ 4 ∷ 5 ∷ [])
unfolding room_for_three-Drains
write_all_sends_example =
    write_all_sends room_for_three room_for_three-Drains 9 (1 ∷ 2 ∷ 3 ∷ 4 ∷ 5 ∷ []) (7 ∷ [])
      (omega arith)
