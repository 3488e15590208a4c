-- ===== src/Transport/Serial/Sent.antt =====
-- All bytes are sent (src/sdk/mod.rs, `serial::write_all`).
use v5gdb.Base.{
  ℕ, zero, suc, ◌+◌, ◌≤◌, ◌<◌, ◌≡◌, refl, sym, ◌∙◌, ap, ◌⊎◌, inl, inr, some, List, [], ◌∷◌, ◌++◌,
  length, take, drop, take-append-drop, length-drop, min, arith,
}
use mathlib.Core.List.{append_assoc, append-nil}
use v5gdb.Transport.Serial.{SysSerial, done, user_channel, write_all}

-- The system takes as many bytes of the user channel as it has room for, in order, and has room for
-- one at least after its tasks ran.
pub record Drains (y : SysSerial) : Type 0 where
  pub sent : y.Port → List ℕ
  pub room : y.Port → ℕ
  pub takes :
      (bs : List ℕ) (p : y.Port)
      → ((y.sys_write_buf user_channel bs p).0 ≡ some (min (room p) (length bs)))
        × (sent (y.sys_write_buf user_channel bs p).1
            ≡ sent p ++ take (min (room p) (length bs)) bs)
  pub tasks_sent : (p : y.Port) → sent (y.tasks_run p) ≡ sent p
  pub tasks_room : (p : y.Port) → 1 ≤ room (y.tasks_run p)

module _ (y : SysSerial) (v : Drains y) where
  drop-cases :
      (n : ℕ) (bs : List ℕ)
      → ((drop n bs ≡ []) × (take n bs ≡ bs)) ⊎ ((b : ℕ) × (r : List ℕ) × (drop n bs ≡ b ∷ r))
  drop-cases n bs = by_rest (drop n bs) refl
    where
      by_rest :
          (l : List ℕ)
          → drop n bs ≡ l
          → ((drop n bs ≡ []) × (take n bs ≡ bs)) ⊎ ((b : ℕ) × (r : List ℕ) × (drop n bs ≡ b ∷ r))
      by_rest [] e = inl (
        e,
        sym (append-nil (take n bs)) ∙ ap (λ l. take n bs ++ l) (sym e) ∙ take-append-drop n bs,
      )
      by_rest (b ∷ r) e = inr (b, r, e)

  abbrev taken : List ℕ → y.Port → ℕ
  taken bs p = min (v.room p) (length bs)

  abbrev after : List ℕ → y.Port → y.Port
  after bs p = (y.sys_write_buf user_channel bs p).1

  -- The last round.
  write_all-last :
      (rounds : ℕ) (bs : List ℕ) (p : y.Port)
      → drop (taken bs p) bs ≡ []
      → write_all y (suc rounds) user_channel bs p ≡ done (after bs p)
  unfolding write_all
  write_all-last rounds bs p e = ground (arith, (v.takes bs p).0, e)

  -- Another round.
  write_all-next :
      (rounds : ℕ) (bs : List ℕ) (p : y.Port) (b : ℕ) (r : List ℕ)
      → drop (taken bs p) bs ≡ b ∷ r
      → write_all y (suc rounds) user_channel bs p
        ≡ write_all y rounds user_channel (b ∷ r) (y.tasks_run (after bs p))
  unfolding write_all
  write_all-next rounds bs p b r e = ground (arith, (v.takes bs p).0, e)

  -- What a round and the rounds after it send.
  sent_parts :
      (bs r : List ℕ) (p p' : y.Port)
      → drop (taken bs p) bs ≡ r
      → v.sent p' ≡ v.sent (y.tasks_run (after bs p)) ++ r
      → v.sent p' ≡ v.sent p ++ bs
  sent_parts bs r p p' e h =
      h
      ∙ ap (λ l. l ++ r) (v.tasks_sent (after bs p) ∙ (v.takes bs p).1)
      ∙ append_assoc (v.sent p) (take (taken bs p) bs) r
      ∙ ap (λ l. v.sent p ++ (take (taken bs p) bs ++ l)) (sym e)
      ∙ ap (λ l. v.sent p ++ l) (take-append-drop (taken bs p) bs)

  -- One round, with what the rounds after it send.
  one_round :
      (rounds : ℕ) (bs : List ℕ) (p : y.Port)
      → ((b : ℕ) (r : List ℕ)
          → drop (taken bs p) bs ≡ b ∷ r
          → (p' : y.Port) × (write_all y rounds user_channel (b ∷ r) (y.tasks_run (after bs p))
              ≡ done p')
            × (v.sent p' ≡ v.sent (y.tasks_run (after bs p)) ++ (b ∷ r)))
      → (p' : y.Port) × (write_all y (suc rounds) user_channel bs p ≡ done p')
        × (v.sent p' ≡ v.sent p ++ bs)
  one_round rounds bs p later = elim (drop-cases (taken bs p) bs) [
    | inl (e, f) ↦
        (after bs p, write_all-last rounds bs p e, (v.takes bs p).1 ∙ ap (λ l. v.sent p ++ l) f)
    | inr (b, r, e) ↦
        let (p', f, g) = later b r e in
        (p', write_all-next rounds bs p b r e ∙ f, sent_parts bs (b ∷ r) p p' e g)
  ]

  write_all-room :
      (rounds : ℕ) (bs : List ℕ) (p : y.Port)
      → 1 ≤ v.room p
      → length bs < rounds
      → (p' : y.Port) × (write_all y rounds user_channel bs p ≡ done p')
        × (v.sent p' ≡ v.sent p ++ bs)
  write_all-room zero bs p h k = elim k [ ]
  write_all-room (suc rounds) bs p h k = one_round rounds bs p (λ b r e.
      write_all-room rounds (b ∷ r) (y.tasks_run (after bs p)) (v.tasks_room (after bs p))
        (omega (arith, length-drop (taken bs p) bs, ap length e)))

  -- With two rounds more than there are bytes, `write_all` ends without an error, and has sent the
  -- bytes, each once and in order, however few the port takes at a time. This supposes that the
  -- system takes what it has room for, and has room for one byte after its tasks ran.
  pub write_all_sends :
      (rounds : ℕ) (bs : List ℕ) (p : y.Port)
      → length bs + 1 < rounds
      → (p' : y.Port) × (write_all y rounds user_channel bs p ≡ done p')
        × (v.sent p' ≡ v.sent p ++ bs)
  write_all_sends zero bs p k = elim k [ ]
  write_all_sends (suc rounds) bs p k = one_round rounds bs p (λ b r e.
      write_all-room rounds (b ∷ r) (y.tasks_run (after bs p)) (v.tasks_room (after bs p))
        (omega (arith, length-drop (taken bs p) bs, ap length e)))
