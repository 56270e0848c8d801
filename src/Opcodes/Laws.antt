-- ===== src/Opcodes/Laws.antt =====
-- Reading back what the macros write, and what a write leaves alone.
use primemover.Prelude.{ℕ, ◌%◌, ◌^◌, ◌<◌, ◌≡◌, arith}
use primemover.Prelude.Int.{ℤ, pos, negsuc, ◌+ℤ◌, ◌-ℤ◌, ◌≤ℤ◌}
use primemover.Opcodes.{
  get_opcode, getarg_a, getarg_b, getarg_c, getarg_bx, getarg_sbx, setarg_a, setarg_b, setarg_c,
  setarg_bx, setarg_sbx, create_abc, create_abx, maxarg_sbx, to_unsigned,
}
use primemover.Opcodes.Fields.{
  field_laws, setarg_a-eq, setarg_b-eq, setarg_c-eq, setarg_bx-eq, create_abc-eq, create_abx-eq,
}

-- an instruction has 32 bits
abbrev pub IsInstruction : ℕ → Type 0
IsInstruction i = i < 2 ^ 32

-- the operands and the opcode of `i`
abbrev pub Reads : ℕ → ℕ → ℕ → ℕ → ℕ → Type 0
Reads i o a b c = (get_opcode i ≡ o) × (getarg_a i ≡ a) × (getarg_b i ≡ b) × (getarg_c i ≡ c)

-- `CREATE_ABC` on operands in range makes a 32-bit instruction whose opcode and operands `A`, `B`
-- and `C` read back.
pub create_abc-Reads :
    (o a b c : ℕ)
    → o < 64
    → a < 256
    → b < 512
    → c < 512
    → IsInstruction (create_abc o a b c) × Reads (create_abc o a b c) o a b c
create_abc-Reads o a b c ho ha hb hc = rw (create_abc-eq o a b c ho ha hb hc) (omega field_laws)

-- `CREATE_ABx` on operands in range makes a 32-bit instruction whose opcode, `A` and `Bx` read back.
pub create_abx-reads :
    (o a bc : ℕ)
    → o < 64
    → a < 256
    → bc < 262144
    → IsInstruction (create_abx o a bc)
      × (get_opcode (create_abx o a bc) ≡ o)
      × (getarg_a (create_abx o a bc) ≡ a)
      × (getarg_bx (create_abx o a bc) ≡ bc)
create_abx-reads o a bc ho ha hb = rw (create_abx-eq o a bc ho ha hb) (omega field_laws)

module _ (i u : ℕ) (h : IsInstruction i) where
  -- Writing `A` stores its low 8 bits; the opcode and the other operands stay.
  pub setarg_a-Reads :
      IsInstruction (setarg_a i u)
      × Reads (setarg_a i u) (get_opcode i) (u % 256) (getarg_b i) (getarg_c i)
  setarg_a-Reads = omega (field_laws, setarg_a-eq i (omega arith) u)

  -- Writing `B` stores its low 9 bits; the opcode and the other operands stay.
  pub setarg_b-Reads :
      IsInstruction (setarg_b i u)
      × Reads (setarg_b i u) (get_opcode i) (getarg_a i) (u % 512) (getarg_c i)
  setarg_b-Reads = omega (field_laws, setarg_b-eq i (omega arith) u)

  -- Writing `C` stores its low 9 bits; the opcode and the other operands stay.
  pub setarg_c-Reads :
      IsInstruction (setarg_c i u)
      × Reads (setarg_c i u) (get_opcode i) (getarg_a i) (getarg_b i) (u % 512)
  setarg_c-Reads = omega (field_laws, setarg_c-eq i (omega arith) u)

  pub setarg_bx-reads :
      IsInstruction (setarg_bx i u)
      × (get_opcode (setarg_bx i u) ≡ get_opcode i)
      × (getarg_a (setarg_bx i u) ≡ getarg_a i)
      × (getarg_bx (setarg_bx i u) ≡ u % 262144)
  setarg_bx-reads = omega (field_laws, setarg_bx-eq i (omega arith) u)

-- A signed operand within the excess-K range reads back, and leaves the opcode and `A` alone.
pub setarg_sbx-reads :
    (i : ℕ) (b : ℤ)
    → IsInstruction i
    → negsuc 131070 ≤ℤ b
    → b ≤ℤ pos 131071
    → IsInstruction (setarg_sbx i b)
      × (get_opcode (setarg_sbx i b) ≡ get_opcode i)
      × (getarg_a (setarg_sbx i b) ≡ getarg_a i)
      × (getarg_sbx (setarg_sbx i b) ≡ b)
unfolding setarg_sbx getarg_sbx ◌+ℤ◌ ◌-ℤ◌
setarg_sbx-reads i b hi lo up =
    let u : ℕ = to_unsigned (b +ℤ pos maxarg_sbx) in
    let (fits, op, a, bx) = setarg_bx-reads i u hi in (fits, op, a, rw bx (ground arith))
