-- ===== src/Exceptions/Serial/RoundTrip.antt =====
-- What is sent is read back.
use v5gdb.Base.{
  ℕ, ◌+◌, ◌*◌, ◌^◌, ◌<◌, ◌≡◌, refl, ap, ◌∙◌, subst, some, List, [], ◌∷◌, ◌++◌, length, take, drop,
  arith, to_le_bytes, from_le_bytes, length-to_le_bytes, from_le_bytes-to_le_bytes4,
  from_le_bytes-to_le_bytes8, length-append,
}
use v5gdb.Exceptions.{DebugEventContext}
use v5gdb.Exceptions.Serial.{
  send_all, gdb_serialize, read, word_into, read_all, registers_into, vfp_registers_into,
  gdb_deserialize,
}

take-append : (xs ys : List ℕ) → take (length xs) (xs ++ ys) ≡ xs
take-append [] ys = refl
take-append (x ∷ xs) ys = ap (λ l. x ∷ l) (take-append xs ys)

drop-append : (xs ys : List ℕ) → drop (length xs) (xs ++ ys) ≡ ys
drop-append [] ys = refl
drop-append (x ∷ xs) ys = drop-append xs ys

append_assoc : (xs ys zs : List ℕ) → (xs ++ ys) ++ zs ≡ xs ++ (ys ++ zs)
append_assoc [] ys zs = refl
append_assoc (x ∷ xs) ys zs = ap (λ l. x ∷ l) (append_assoc xs ys zs)

-- Every entry is below the bound.
abbrev pub AllBelow : ℕ → List ℕ → Type 0
AllBelow bound [] = Unit {0}
AllBelow bound (x ∷ xs) = (x < bound) × AllBelow bound xs

read-append : (xs rest : List ℕ) → read (length xs) (xs ++ rest) ≡ some (from_le_bytes xs, rest)
unfolding read
read-append xs rest =
    ground (arith, length-append xs rest, take-append xs rest, drop-append xs rest)

-- A width whose bytes are read back.
module _ (n bound : ℕ) (back : (x : ℕ) → x < bound → from_le_bytes (to_le_bytes n x) ≡ x) where
  read-to_le_bytes :
      (x : ℕ) (rest : List ℕ) → x < bound → read n (to_le_bytes n x ++ rest) ≡ some (x, rest)
  read-to_le_bytes x rest h =
      subst (λ k. read k (to_le_bytes n x ++ rest) ≡ some (from_le_bytes (to_le_bytes n x), rest))
        (length-to_le_bytes n x) (read-append (to_le_bytes n x) rest)
      ∙ ap (λ v. some (v, rest)) (back x h)

  read_all-send_all :
      (old rs rest : List ℕ)
      → length old ≡ length rs
      → AllBelow bound rs
      → read_all n old (send_all n rs ++ rest) ≡ (rs, some rest)
  unfolding read_all send_all
  read_all-send_all [] [] rest e b = refl
  read_all-send_all [] (r ∷ rs) rest e b = absurd (omega arith)
  read_all-send_all (o ∷ os) [] rest e b = absurd (omega arith)
  read_all-send_all (o ∷ os) (r ∷ rs) rest e b =
      rw (append_assoc (to_le_bytes n r) (send_all n rs) rest) (
        rw (read_all, read-to_le_bytes r (send_all n rs ++ rest) b.0)
          (rw (read_all-send_all os rs rest (omega arith) b.1) refl))

word_into-some :
    (put : ℕ → DebugEventContext → DebugEventContext) (ctx : DebugEventContext) (x : ℕ)
    (bytes rest : List ℕ)
    → read 4 bytes ≡ some (x, rest)
    → word_into put (ctx, some bytes) ≡ (put x ctx, some rest)
unfolding word_into
word_into-some put ctx x bytes rest e = rw (word_into, e) refl

word_into-to_le_bytes :
    (put : ℕ → DebugEventContext → DebugEventContext) (ctx : DebugEventContext) (x : ℕ)
    (rest : List ℕ)
    → x < 2 ^ 32
    → word_into put (ctx, some (to_le_bytes 4 x ++ rest)) ≡ (put x ctx, some rest)
word_into-to_le_bytes put ctx x rest h =
    word_into-some put ctx x (to_le_bytes 4 x ++ rest) rest
      (read-to_le_bytes 4 (2 ^ 32) from_le_bytes-to_le_bytes4 x rest h)

registers_into-send_all :
    (ctx : DebugEventContext) (rs rest : List ℕ)
    → length ctx.registers ≡ length rs
    → AllBelow (2 ^ 32) rs
    → registers_into (ctx, some (send_all 4 rs ++ rest))
      ≡ (record ctx { registers = rs }, some rest)
unfolding registers_into
registers_into-send_all ctx rs rest e b =
    rw (read_all-send_all 4 (2 ^ 32) from_le_bytes-to_le_bytes4 ctx.registers rs rest e b) refl

vfp_registers_into-send_all :
    (ctx : DebugEventContext) (rs rest : List ℕ)
    → length ctx.vfp_registers ≡ length rs
    → AllBelow (2 ^ 64) rs
    → vfp_registers_into (ctx, some (send_all 8 rs ++ rest))
      ≡ (record ctx { vfp_registers = rs }, some rest)
unfolding vfp_registers_into
vfp_registers_into-send_all ctx rs rest e b =
    rw (read_all-send_all 8 (2 ^ 64) from_le_bytes-to_le_bytes8 ctx.vfp_registers rs rest e b) refl

-- A context whose registers have their widths and numbers.
pub record IsContext (ctx : DebugEventContext) : Type 0 where
  pub cpsr_small : ctx.cpsr < 2 ^ 32
  pub sp_small : ctx.stack_pointer < 2 ^ 32
  pub lr_small : ctx.link_register < 2 ^ 32
  pub fpscr_small : ctx.fpscr < 2 ^ 32
  pub pc_small : ctx.program_counter < 2 ^ 32
  pub registers_small : AllBelow (2 ^ 32) ctx.registers
  pub vfp_small : AllBelow (2 ^ 64) ctx.vfp_registers
  pub num_registers : length ctx.registers ≡ 13
  pub num_vfp : length ctx.vfp_registers ≡ 32

length-send_all : (n : ℕ) (rs : List ℕ) → length (send_all n rs) ≡ n * length rs
unfolding send_all
length-send_all n [] = omega arith
length-send_all n (r ∷ rs) = omega (
  arith,
  length-append (to_le_bytes n r) (send_all n rs),
  length-to_le_bytes n r,
  length-send_all n rs,
)

-- One more step of a chain.
chain : {A B : Type 0} (f : A → B) {x y : A} {z : B} → x ≡ y → f y ≡ z → f x ≡ z
chain f p q = ap f p ∙ q

module _ (ctx : DebugEventContext) where
  tail : List ℕ → List ℕ
  tail rest = send_all 8 ctx.vfp_registers ++ (to_le_bytes 4 ctx.fpscr ++ rest)

  middle : List ℕ → List ℕ
  middle l =
      to_le_bytes 4 ctx.stack_pointer
      ++ (to_le_bytes 4 ctx.link_register
          ++ (to_le_bytes 4 ctx.program_counter ++ (to_le_bytes 4 ctx.cpsr ++ l)))

  gdb_serialize-append :
      (rest : List ℕ) → gdb_serialize ctx ++ rest ≡ send_all 4 ctx.registers ++ middle (tail rest)
  unfolding gdb_serialize tail middle
  gdb_serialize-append rest =
      append_assoc (send_all 4 ctx.registers) (middle (tail [])) rest
      ∙ ap (λ l. send_all 4 ctx.registers ++ middle l)
          (append_assoc (send_all 8 ctx.vfp_registers) (to_le_bytes 4 ctx.fpscr) rest)

  length-gdb_serialize :
      length (gdb_serialize ctx) ≡ 4 * length ctx.registers + 20 + 8 * length ctx.vfp_registers
  unfolding gdb_serialize tail middle
  length-gdb_serialize = omega (
    arith,
    length-append (send_all 4 ctx.registers) (middle (tail [])),
    length-append (send_all 8 ctx.vfp_registers) (to_le_bytes 4 ctx.fpscr),
    length-send_all 4 ctx.registers,
    length-send_all 8 ctx.vfp_registers,
  )

-- What `gdb_serialize` sends of a context is 328 bytes, and `gdb_deserialize` reads that context
-- from them, whatever the registers held before, and leaves the bytes that follow.
pub gdb_deserialize-gdb_serialize :
    (ctx old : DebugEventContext) (rest : List ℕ)
    → IsContext ctx
    → length old.registers ≡ 13
    → length old.vfp_registers ≡ 32
    → (length (gdb_serialize ctx) ≡ 328)
      × (gdb_deserialize old (gdb_serialize ctx ++ rest) ≡ (ctx, some rest))
unfolding gdb_deserialize tail middle
gdb_deserialize-gdb_serialize ctx old rest c r v =
    let put_sp : ℕ → DebugEventContext → DebugEventContext =
      λ x k. record k { stack_pointer = x } in
    let put_lr : ℕ → DebugEventContext → DebugEventContext =
      λ x k. record k { link_register = x } in
    let put_pc : ℕ → DebugEventContext → DebugEventContext =
      λ x k. record k { program_counter = x } in
    let put_cpsr : ℕ → DebugEventContext → DebugEventContext = λ x k. record k { cpsr = x } in
    let put_fpscr : ℕ → DebugEventContext → DebugEventContext = λ x k. record k { fpscr = x } in
    let c1 : DebugEventContext = record old { registers = ctx.registers } in
    let c2 = put_sp ctx.stack_pointer c1 in
    let c3 = put_lr ctx.link_register c2 in
    let c4 = put_pc ctx.program_counter c3 in
    let c5 = put_cpsr ctx.cpsr c4 in
    let c6 : DebugEventContext = record c5 { vfp_registers = ctx.vfp_registers } in
    let r5 = tail ctx rest in
    let r4 = to_le_bytes 4 ctx.cpsr ++ r5 in
    let r3 = to_le_bytes 4 ctx.program_counter ++ r4 in
    let r2 = to_le_bytes 4 ctx.link_register ++ r3 in
    let p1 =
      registers_into-send_all old ctx.registers (middle ctx r5) (omega (arith, r, c.num_registers))
        c.registers_small in
    let p2 =
      chain (word_into put_sp) p1
        (word_into-to_le_bytes put_sp c1 ctx.stack_pointer r2 c.sp_small) in
    let p3 =
      chain (word_into put_lr) p2
        (word_into-to_le_bytes put_lr c2 ctx.link_register r3 c.lr_small) in
    let p4 =
      chain (word_into put_pc) p3
        (word_into-to_le_bytes put_pc c3 ctx.program_counter r4 c.pc_small) in
    let p5 =
      chain (word_into put_cpsr) p4 (word_into-to_le_bytes put_cpsr c4 ctx.cpsr r5 c.cpsr_small) in
    let p6 = chain vfp_registers_into p5 (
      vfp_registers_into-send_all c5 ctx.vfp_registers (to_le_bytes 4 ctx.fpscr ++ rest)
        (omega (arith, v, c.num_vfp)) c.vfp_small) in
    (
      omega (arith, length-gdb_serialize ctx, c.num_registers, c.num_vfp),
      ap (gdb_deserialize old) (gdb_serialize-append ctx rest)
          ∙ chain (word_into put_fpscr) p6
              (word_into-to_le_bytes put_fpscr c6 ctx.fpscr rest c.fpscr_small),
    )
